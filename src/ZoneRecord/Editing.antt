-- ===== src/ZoneRecord/Editing.antt =====
-- What the text forms of a record are parsed to.
use heimdallr.Common.{
  ℕ, ◌≤◌, true, ◌≡◌, refl, sym, ◌∙◌, List, [], ◌∷◌, Option, some, arith, length, Option-cases, inl,
  inr,
}
use heimdallr.Common.Text.{
  Text, codes, text_eq, text_eq_iff, parse_uint, parse_uint-le, split_whitespace, trim,
}
use heimdallr.ZoneRecord.{
  Matching, sha256, sha512, other_matching, Tlsa, tlsa_fields, tlsa_parts, hash_fits,
  parse_tlsa_data, Handlers, Zone, RecordCreate, insert_record, record_name,
}

hash_fits-length :
    (m : Matching) (n : ℕ) → hash_fits m n ≡ true → (m ≡ sha256 → n ≡ 32) × (m ≡ sha512 → n ≡ 64)
unfolding hash_fits
hash_fits-length sha256 n h = (λ e. ground (arith, h), λ e. ground (arith, e))
hash_fits-length sha512 n h = (λ e. ground (arith, e), λ e. ground (arith, h))
hash_fits-length other_matching n h = (λ e. ground (arith, e), λ e. ground (arith, e))

module _ (matching_from : ℕ → Matching) (hex_decode : Text → Option (List ℕ)) where
  -- octets in the first three fields, and a hash of the length that its type has
  pub record IsTlsa (t : Tlsa) : Type 0 where
    pub usage_le : t.cert_usage ≤ 255
    pub selector_le : t.selector ≤ 255
    pub matching_le : t.matching ≤ 255
    pub sha256_length : matching_from t.matching ≡ sha256 → length t.cert_data ≡ 32
    pub sha512_length : matching_from t.matching ≡ sha512 → length t.cert_data ≡ 64

  tlsa_fields-IsTlsa :
      (u s m : Option ℕ) (d : Option (List ℕ)) (t : Tlsa)
      → ((n : ℕ) → u ≡ some n → n ≤ 255)
      → ((n : ℕ) → s ≡ some n → n ≤ 255)
      → ((n : ℕ) → m ≡ some n → n ≤ 255)
      → tlsa_fields matching_from hex_decode u s m d ≡ some t
      → IsTlsa t
  unfolding tlsa_fields
  tlsa_fields-IsTlsa (some u) (some s) (some m) (some d) t hu hs hm e =
      let bu = hu u refl in
      let bs = hs s refl in
      let bm = hm m refl in
      let fits : hash_fits (matching_from m) (length d) ≡ true = ground (arith, e) in
      let (fits_256, fits_512) = hash_fits-length (matching_from m) (length d) fits in
      let same : t ≡ record { cert_usage = u; selector = s; matching = m; cert_data = d } =
        ground (arith, e) in
      rw same (record {
        usage_le = bu;
        selector_le = bs;
        matching_le = bm;
        sha256_length = fits_256;
        sha512_length = fits_512;
      })
  tlsa_fields-IsTlsa _ _ _ _ t hu hs hm e = ground (arith, e)

  tlsa_parts-IsTlsa :
      (parts : List Text) (t : Tlsa) → tlsa_parts matching_from hex_decode parts ≡ some t → IsTlsa t
  unfolding tlsa_parts
  tlsa_parts-IsTlsa (u ∷ s ∷ m ∷ d ∷ []) t e =
      tlsa_fields-IsTlsa (parse_uint 255 u) (parse_uint 255 s) (parse_uint 255 m)
        (hex_decode (trim d)) t (parse_uint-le 255 u) (parse_uint-le 255 s) (parse_uint-le 255 m) e
  tlsa_parts-IsTlsa _ t e = ground (arith, e)

  -- TLSA data that are parsed have one octet in each of the first three fields, and a hash of 32
  -- or 64 bytes where the matching type is SHA-256 or SHA-512.
  pub parse_tlsa_data-IsTlsa :
      (text : Text) (t : Tlsa) → parse_tlsa_data matching_from hex_decode text ≡ some t → IsTlsa t
  unfolding parse_tlsa_data
  parse_tlsa_data-IsTlsa text t e = tlsa_parts-IsTlsa (split_whitespace text) t e

module _ {Handler Name RData : Type 0} (h : Handlers Handler Name RData) where
  record_name-at : (z : Zone) (o : Name) → record_name h true z o (codes "@") ≡ some o
  unfolding record_name text_eq
  record_name-at z o = refl

  record_name-empty : (z : Zone) (o : Name) → record_name h true z o [] ≡ some o
  unfolding record_name
  record_name-empty z o = ground (arith, text_eq_iff [] [])

  record_name-own : (z : Zone) (o : Name) → record_name h true z o z.name ≡ some o
  unfolding record_name
  record_name-own z o = ground (arith, text_eq_iff z.name z.name)

  insert_record-name :
      (z : Zone) (create : RecordCreate) (s t : Text)
      → ((o : Name) → record_name h true z o s ≡ record_name h true z o t)
      → insert_record h z (record create { name = s })
        ≡ insert_record h z (record create { name = t })
  unfolding insert_record
  insert_record-name z create s t same = elim (Option-cases (h.load z)) [
    | inl failed ↦ rw failed refl
    | inr (handler, loaded) ↦ elim (Option-cases (h.record_type create.record_type)) [
      | inl failed ↦ rw (loaded, failed) refl
      | inr (rtype, known) ↦ elim (Option-cases (h.from_ascii z.name)) [
        | inl failed ↦ rw (loaded, known, failed) refl
        | inr (origin, read) ↦ rw (loaded, known, read, same origin) refl
      ]
    ]
  ]

  -- Inserting under `@`, under the zone's own name and under the empty name are the same.
  pub insert_record_apex :
      (z : Zone) (create : RecordCreate)
      → (insert_record h z (record create { name = codes "@" })
          ≡ insert_record h z (record create { name = z.name }))
        × (insert_record h z (record create { name = [] })
            ≡ insert_record h z (record create { name = z.name }))
  insert_record_apex z create = (
    insert_record-name z create _ _ (λ o. record_name-at z o ∙ sym (record_name-own z o)),
    insert_record-name z create _ _ (λ o. record_name-empty z o ∙ sym (record_name-own z o)),
  )
