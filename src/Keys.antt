-- ===== src/Keys.antt =====
-- src/core/dnssec/keygen.rs: the keys that zones are signed with. The file system and the
-- generation and reading of keys are the standard library's and the crypto crate's; a path is its
-- text.
use heimdallr.Common.{Bool, [], ◌∷◌, ◌++◌, Option, none, some, ◌==◌, if◌then◌else◌}
use heimdallr.Common.Text.{Text, codes, text_eq, trim_end_matches}

pub data Algorithm : Type 0 where
  ecdsap256sha256 ecdsap384sha384 ed25519 rsasha256 : Algorithm

-- `algorithm_from_str`
unfoldable pub algorithm_from_str : Text → Option Algorithm
unfolding text_eq
algorithm_from_str s =
    if text_eq (codes "ecdsa-p256") s
    then some ecdsap256sha256
    else if text_eq (codes "ecdsa-p384") s
    then some ecdsap384sha384
    else if text_eq (codes "ed25519") s
    then some ed25519
    else if text_eq (codes "rsa-sha256") s
    then some rsasha256
    else none

-- `replace('.', "_")`
unfoldable pub underscored : Text → Text
underscored [] = []
underscored (c ∷ s) = (if c == b'.' then b'_' else c) ∷ underscored s

-- what the functions call
pub record KeyStore (Key Signer : Type 0) : Type 0 where
  pub join : Text → Text → Text
  pub exists : Text → Bool
  pub create_dir_all : Text → Bool
  pub generate : Algorithm → Option Key
  pub write : Text → Key → Bool
  -- the signer made of a key file, for an algorithm and a zone
  pub read_signer : Text → Algorithm → Text → Option Signer

module _ {Key Signer : Type 0} (store : KeyStore Key Signer) where
  -- `key_path_for_zone`
  unfoldable pub key_path_for_zone : Text → Text → Text → Text
  unfolding underscored trim_end_matches
  key_path_for_zone zone_name keys_dir algorithm =
      let safe_name = trim_end_matches b'_' (underscored zone_name) in
      store.join keys_dir (safe_name ++ codes "." ++ algorithm ++ codes ".key")

  -- RSA keys are not generated
  new_key : Algorithm → Option Key
  new_key rsasha256 = none
  new_key alg = store.generate alg

  written : Text → Option Key → Option Text
  written key_path none = none
  written key_path (some key) = if store.write key_path key then some key_path else none

  -- `generate_and_save_key`: the path of the key
  unfoldable pub generate_and_save_key : Text → Text → Text → Option Text
  unfolding algorithm_from_str key_path_for_zone new_key written
  generate_and_save_key zone_name algorithm keys_dir = elim (algorithm_from_str algorithm) [
    | none ↦ none
    | some alg ↦
        let key_path = key_path_for_zone zone_name keys_dir algorithm in
        if store.exists key_path
        then some key_path
        else if store.create_dir_all keys_dir
        then written key_path (new_key alg)
        else none
  ]

  -- `resolve_key_path`
  unfoldable pub resolve_key_path : Text → Option Text → Text → Text → Option Text
  unfolding generate_and_save_key
  resolve_key_path zone_name none algorithm keys_dir =
      generate_and_save_key zone_name algorithm keys_dir
  resolve_key_path zone_name (some path) algorithm keys_dir =
      if store.exists path then some path else none

  -- `load_signer`
  unfoldable pub load_signer : Text → Text → Text → Option Signer
  unfolding algorithm_from_str
  load_signer key_path zone_name algorithm = elim (algorithm_from_str algorithm) [
    | none ↦ none
    | some alg ↦ store.read_signer key_path alg zone_name
  ]
