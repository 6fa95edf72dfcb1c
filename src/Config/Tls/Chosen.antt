-- ===== src/Config/Tls/Chosen.antt =====
-- Which certificate is chosen, and that the one that signs itself is made once.
use heimdallr.Common.{true, ◌≡◌, ◌⊎◌, inl, inr, arith, none, some}
use heimdallr.Common.Text.{Text}
use heimdallr.Config.{TlsConfig}
use heimdallr.Config.Tls.{
  Disk, exists, letsencrypt, both_exist, auto_detect_cert_paths, resolve_cert_paths, resolve_paths,
  default_path,
}

module _ (join : Text → Text → Text) where
  both_exist-some :
      (disk : Disk) (paths found : Text × Text)
      → both_exist join disk paths ≡ some found
      → (found ≡ paths) × (exists disk paths.0 ≡ true) × (exists disk paths.1 ≡ true)
  unfolding both_exist
  both_exist-some disk (cert, key) found h = ground (arith, h)

  -- Where both the certificate and the key are configured, or neither is, a pair of paths that
  -- `TlsConfig::resolve_paths` gives is the one that the listeners take, and both files are there.
  pub resolve_cert_paths-resolve_paths :
      (disk : Disk) (tls : TlsConfig) (host : Text) (paths : Text × Text)
      → ((tls.cert ≡ none) × (tls.key ≡ none))
        ⊎ ((cert : Text) × (key : Text) × (tls.cert ≡ some cert) × (tls.key ≡ some key))
      → resolve_paths join disk tls host ≡ some paths
      → (resolve_cert_paths join disk tls.cert tls.key host tls.letsencrypt_dir ≡ some paths)
        × (exists disk paths.0 ≡ true)
        × (exists disk paths.1 ≡ true)
  unfolding resolve_paths resolve_cert_paths auto_detect_cert_paths default_path
  resolve_cert_paths-resolve_paths disk tls host paths (inl (no_cert, no_key)) h =
      let found : both_exist join disk (letsencrypt join host tls.letsencrypt_dir) ≡ some paths =
        ground (arith, h, no_cert, no_key) in
      let (same, has_cert, has_key) =
        both_exist-some disk (letsencrypt join host tls.letsencrypt_dir) paths found in
      (ground (arith, found, no_cert, no_key), rw same has_cert, rw same has_key)
  resolve_cert_paths-resolve_paths disk tls host paths (inr (cert, key, is_cert, is_key)) h =
      let found : both_exist join disk (cert, key) ≡ some paths =
        ground (arith, h, is_cert, is_key) in
      let (same, has_cert, has_key) = both_exist-some disk (cert, key) paths found in
      (ground (arith, same, is_cert, is_key), rw same has_cert, rw same has_key)
