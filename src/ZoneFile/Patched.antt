-- ===== src/ZoneFile/Patched.antt =====
-- The mailbox of a loaded zone, and the names of a written one.
use heimdallr.Common.{
  true, ◌≡◌, ◌≢◌, refl, ap, ◌∙◌, ◌⊎◌, inl, inr, ◌++◌, Option, some, arith, if◌then◌else◌, length,
  length-append,
}
use heimdallr.Common.Text.{Text, codes, text_eq, text_eq_iff}
use heimdallr.Catalog.{strip_suffix}
use heimdallr.Catalog.Members.{strip_suffix-append}
use heimdallr.Dns.Records.{Record, Soa, soa}
use heimdallr.ZoneFile.{
  Files, NxProofKind, resolve_zone_path, patched, replace_soa, old_soa, patch_soa_rname,
  load_zone_file_with_proof, short_name,
}

old_soa-some :
    {Name : Type 0} (r : Record Name) (s : Soa Name) → r.data_ ≡ soa s → old_soa (some r) ≡ some s
unfolding old_soa
old_soa-some r s held = rw (held, old_soa) refl

module _ {Name Handler : Type 0} (files : Files Name Handler)
    (first_soa-upsert : (origin new_rname : Name) (s : Soa Name) (h : Handler)
      → files.first_soa origin
          (files.upsert (patched origin new_rname s) (files.remove_soa origin h))
        ≡ some (patched origin new_rname s)) where
  -- A zone file that exists and parses, with a start of authority at its origin, is loaded, and
  -- the zone then has that start of authority with the configured mailbox in place of its own,
  -- all other fields as in the file and a time to live of a day (where the handler gives back the
  -- record that is put in place of a removed set).
  pub first_soa-load_zone_file_with_proof :
      (file_path zone_name zones_dir rname_str : Text) (nx : Option NxProofKind)
      (origin new_rname : Name) (parsed : Handler) (r : Record Name) (s : Soa Name)
      → files.exists (resolve_zone_path files file_path zones_dir) ≡ true
      → files.from_ascii zone_name ≡ some origin
      → files.parse_file origin (resolve_zone_path files file_path zones_dir) nx ≡ some parsed
      → files.from_ascii rname_str ≡ some new_rname
      → files.first_soa origin parsed ≡ some r
      → r.data_ ≡ soa s
      → (handler : Handler) × (load_zone_file_with_proof files file_path zone_name zones_dir
            (some rname_str)
            nx
          ≡ some handler)
        × (files.first_soa origin handler
            ≡ some (record {
              name = origin;
              ttl = 86400;
              data_ = soa (record s { rname = new_rname });
            }))
  unfolding load_zone_file_with_proof patch_soa_rname replace_soa old_soa patched
  first_soa-load_zone_file_with_proof file_path zone_name zones_dir rname_str nx origin new_rname
        parsed r s there named read mailbox first held =
      (
        files.upsert (patched origin new_rname s) (files.remove_soa origin parsed),
        rw (there, named, read, mailbox, first)
            (ap (λ d. some (replace_soa files origin new_rname parsed d)) (old_soa-some r s held)),
        first_soa-upsert origin new_rname s parsed,
      )

-- a name as a zone file means it, under the origin
unfoldable pub full_name : Text → Text → Text
unfolding text_eq
full_name base short = if text_eq short (codes "@") then base else short ++ (codes "." ++ base)

-- The origin, and a name of labels (other than a sole `@`) below it, are written so that a zone
-- file with the origin means them again.
pub full_name-short_name :
    (base name label : Text)
    → (name ≡ base) ⊎ ((name ≡ label ++ (codes "." ++ base)) × (label ≢ codes "@"))
    → full_name base (short_name base name) ≡ name
unfolding full_name short_name
full_name-short_name base name label (inl same) =
    rw same (ground (arith, text_eq_iff base base, text_eq_iff (codes "@") (codes "@")))
full_name-short_name base name label (inr (below, plain)) =
    let longer : name ≢ base =
      λ e. omega (arith, ap length e, ap length below, length-append label (codes "." ++ base)) in
    let stripped : strip_suffix (codes "." ++ base) name ≡ some label =
      ap (strip_suffix (codes "." ++ base)) below ∙ strip_suffix-append label (codes "." ++ base) in
    ground
      (arith, text_eq_iff name base, text_eq_iff label (codes "@"), longer, plain, stripped, below)
