-- ===== src/Config/Tls.antt =====
-- `TlsConfig::resolve_paths` of src/config/mod.rs, and src/net/cert.rs: which certificate and key
-- a listener takes, and the certificate that signs itself. Paths are text; their joining, the
-- reading of PEM files and the making of keys are other crates'. The files are the state: what
-- each path holds.
pub mod Chosen
use heimdallr.Common.{Bool, true, false, ◌&&◌, List, [], ◌∷◌, Option, none, some, if◌then◌else◌}
use heimdallr.Common.Text.{Text, codes, text_eq, trim_end_matches}
use heimdallr.Config.{TlsConfig}
use heimdallr.ZoneRecord.{◌>>=◌}

abbrev pub Disk : Type 0
Disk = Text → Option Text

-- `Path::exists`
abbrev pub exists : Disk → Text → Bool
exists disk path = elim (disk path) [ none ↦ false | some content ↦ true ]

-- the files after a write
abbrev pub update : Disk → Text → Text → Disk
update disk path content p = if text_eq path p then some content else disk p

module _ (join : Text → Text → Text) where
  -- the certificate and the key of a host in the directory of Let's Encrypt
  abbrev pub letsencrypt : Text → Text → Text × Text
  letsencrypt host dir =
      let host_dir = join dir (trim_end_matches b'.' host) in
      (join host_dir (codes "fullchain.pem"), join host_dir (codes "privkey.pem"))

  both_exist : Disk → Text × Text → Option (Text × Text)
  both_exist disk (cert, key) =
      if exists disk cert && exists disk key then some (cert, key) else none

  -- `auto_detect_cert_paths`
  unfoldable pub auto_detect_cert_paths : Disk → Text → Text → Option (Text × Text)
  unfolding both_exist
  auto_detect_cert_paths disk host dir = both_exist disk (letsencrypt host dir)

  -- `resolve_cert_paths`
  unfoldable pub resolve_cert_paths :
      Disk → Option Text → Option Text → Text → Text → Option (Text × Text)
  unfolding auto_detect_cert_paths
  resolve_cert_paths disk (some cert) (some key) host dir = some (cert, key)
  resolve_cert_paths disk (some cert) none host dir = auto_detect_cert_paths disk host dir
  resolve_cert_paths disk none key host dir = auto_detect_cert_paths disk host dir

  default_path : Text → Option Text → Text
  default_path path none = path
  default_path path (some configured) = configured

  -- `TlsConfig::resolve_paths`
  unfoldable pub resolve_paths : Disk → TlsConfig → Text → Option (Text × Text)
  unfolding both_exist default_path
  resolve_paths disk tls host =
      let (cert, key) = letsencrypt host tls.letsencrypt_dir in
      both_exist disk (default_path cert tls.cert, default_path key tls.key)

  -- what makes a certificate that signs itself: its PEM and that of the key, for a host; and
  -- whether a directory and a file can be written
  module _ (generate : Text → Option (Text × Text)) (create_dir_all can_write : Text → Bool) where
    write_both : Disk → Text × Text → Text × Text → Option (Text × Text) × Disk
    write_both disk (cert_path, key_path) (cert_pem, key_pem) =
        if can_write cert_path
        then if can_write key_path
          then (
            some (cert_path, key_path),
            update (update disk cert_path cert_pem) key_path key_pem,
          )
          else (none, update disk cert_path cert_pem)
        else (none, disk)

    -- the paths below the directory for keys
    abbrev pub self_signed_paths : Text → Text → Text × Text
    self_signed_paths host keys_dir =
        let out_dir = join (join keys_dir (codes "self_signed")) (trim_end_matches b'.' host) in
        (join out_dir (codes "cert.pem"), join out_dir (codes "key.pem"))

    new_pair : Disk → Text × Text → Option (Text × Text) → Option (Text × Text) × Disk
    unfolding write_both
    new_pair disk paths none = (none, disk)
    new_pair disk paths (some pems) = write_both disk paths pems

    -- `generate_self_signed`: the paths of the certificate and the key, and the files
    unfoldable pub generate_self_signed : Disk → Text → Text → Option (Text × Text) × Disk
    unfolding new_pair
    generate_self_signed disk host keys_dir =
        let (cert_path, key_path) = self_signed_paths host keys_dir in
        if create_dir_all (join (join keys_dir (codes "self_signed")) (trim_end_matches b'.' host))
        then if exists disk cert_path && exists disk key_path
          then (some (cert_path, key_path), disk)
          else new_pair disk (cert_path, key_path) (generate (trim_end_matches b'.' host))
        else (none, disk)

-- `load_tls_cert`: the certificates of a file, the key of another, and the pair if they fit
module _ {Certificate PrivateKey CertifiedKey : Type 0}
    (pem_file : Text → Option (List Certificate)) (key_file : Text → Option PrivateKey)
    (from_der : List Certificate → PrivateKey → Option CertifiedKey) where
  not_empty : List Certificate → Option (List Certificate)
  not_empty [] = none
  not_empty (c ∷ cs) = some (c ∷ cs)

  unfoldable pub load_tls_cert : Text → Text → Option CertifiedKey
  unfolding not_empty
  load_tls_cert cert_path key_path = do
    certs ← pem_file cert_path
    chain ← not_empty certs
    key ← key_file key_path
    from_der chain key
