-- ===== src/Transfer/Whole.antt =====
-- What a transfer gives.
use heimdallr.Common.{
  ℕ, zero, suc, ◌+◌, ◌*◌, ◌/◌, ◌%◌, ◌≤◌, true, false, ◌≡◌, refl, sym, ap, ◌∙◌, List, [], ◌∷◌, ◌++◌,
  none, some, if◌then◌else◌, arith, length, get_or, append_assoc, Option-cases, inl, inr,
}
use heimdallr.Common.Addr.{u16_from_be}
use heimdallr.Common.Text.{Text}
use heimdallr.Dns.{soa as type_soa}
use heimdallr.Dns.Records.{Record, Soa, soa, record_type}
use heimdallr.Forward.Lookup.{has_type, is_type}
use heimdallr.Tcp.{read_exact, frame}
use heimdallr.Tcp.Framing.{IsMessage, read_exact-append}
use heimdallr.Transfer.{
  Message, Collected, Network, collect, collect_all, is_complete, read_responses, received, nothing,
  axfr_records_from_primary,
}

module _ {Name : Type 0} where
  -- the records whose data are those of a start of authority
  unfoldable pub count_soa : List (Record Name) → ℕ
  count_soa [] = 0
  count_soa (r ∷ records) = elim r.data_ [ soa s ↦ suc (count_soa records) | _ ↦ count_soa records ]

  count_soa-append :
      (xs ys : List (Record Name)) → count_soa (xs ++ ys) ≡ count_soa xs + count_soa ys
  unfolding count_soa
  count_soa-append [] ys = omega arith
  count_soa-append (r ∷ xs) ys = ground (arith, count_soa-append xs ys)

  -- one start of authority if one was seen, and none before
  Counted : Collected Name → Type 0
  Counted c = count_soa c.records ≡ (if c.saw_soa_start then 1 else 0)

  collect-Counted : (c : Collected Name) (r : Record Name) → Counted c → Counted (collect c r)
  unfolding collect count_soa Counted
  collect-Counted c r v = ground (arith, count_soa-append c.records (r ∷ []), v)

  collect_all-Counted :
      (c : Collected Name) (answers : List (Record Name))
      → Counted c
      → Counted (collect_all c answers)
  unfolding collect_all
  collect_all-Counted c [] v = v
  collect_all-Counted c (r ∷ answers) v =
      collect_all-Counted (collect c r) answers (collect-Counted c r v)

  Counted-le : (c : Collected Name) → Counted c → count_soa c.records ≤ 1
  unfolding Counted
  Counted-le c v = ground (arith, v)

module _ {Name Authority : Type 0} (net : Network Name Authority) where
  read_responses-count_soa :
      (fuel : ℕ) (stream : List ℕ) (c : Collected Name) (records : List (Record Name))
      → Counted c
      → read_responses net fuel stream c ≡ some records
      → count_soa records ≤ 1
  unfolding read_responses
  read_responses-count_soa zero stream c records v e = ground (arith, e)
  read_responses-count_soa (suc fuel) stream c records v e =
      elim (Option-cases (read_exact 2 stream)) [
        | inl short ↦ ground (arith, Counted-le c v, e, short)
        | inr (r, head) ↦
            let msg_len = u16_from_be (get_or r.0 0 0) (get_or r.0 1 0) in
            elim (Option-cases (read_exact msg_len r.1)) [
              | inl cut ↦ ground (arith, Counted-le c v, e, head, cut)
              | inr (q, body) ↦ elim (Option-cases (net.decode q.0)) [
                | inl bad ↦ ground (arith, Counted-le c v, e, head, body, bad)
                | inr (m, decoded) ↦
                    let v' = collect_all-Counted c m.answers v in
                    let rest =
                      read_responses-count_soa fuel q.1 (collect_all c m.answers) records v' in
                    ground (
                      arith,
                      Counted-le c v,
                      Counted-le (collect_all c m.answers) v',
                      rest,
                      e,
                      head,
                      body,
                      decoded,
                    )
              ]
            ]
      ]

  -- A transfer gives at most one start-of-authority record, whatever the primary sends.
  pub count_soa-axfr_records_from_primary :
      (zone_name primary_addr : Text) (records : List (Record Name))
      → axfr_records_from_primary net zone_name primary_addr ≡ some records
      → count_soa records ≤ 1
  unfolding axfr_records_from_primary received nothing count_soa Counted
  count_soa-axfr_records_from_primary zone_name primary_addr records e =
      elim (Option-cases (net.connect primary_addr)) [
        | inl refused ↦ ground (arith, e, refused)
        | inr (stream, connected) ↦ ground (
          arith,
          e,
          connected,
          read_responses-count_soa (suc (length stream)) stream (nothing net) records refl,
        )
      ]

  read_responses-frame :
      (fuel : ℕ) (b rest : List ℕ) (m : Message Name) (c : Collected Name)
      → IsMessage b
      → net.decode b ≡ some m
      → m.no_error ≡ true
      → is_complete m (collect_all c m.answers) ≡ true
      → read_responses net (suc fuel) (frame b ++ rest) c ≡ some (collect_all c m.answers).records
  unfolding read_responses frame
  read_responses-frame fuel b rest m c (pos, small) decoded fine complete =
      let n = length b / 256 % 256 * 256 + length b % 256 in
      let same : n ≡ length b = omega arith in
      let head =
        read_exact-append 2 ((length b / 256 % 256) ∷ (length b % 256) ∷ []) (b ++ rest) refl in
      let body = read_exact-append n b rest same in
      ground (arith, head, body, decoded, fine, complete)

module _ {Name : Type 0} where
  append_nil : (xs : List (Record Name)) → xs ++ [] ≡ xs
  append_nil [] = refl
  append_nil (x ∷ xs) = ap (λ t. x ∷ t) (append_nil xs)

  collect_all-append :
      (c : Collected Name) (xs ys : List (Record Name))
      → collect_all c (xs ++ ys) ≡ collect_all (collect_all c xs) ys
  unfolding collect_all
  collect_all-append c [] ys = refl
  collect_all-append c (x ∷ xs) ys = collect_all-append (collect c x) xs ys

  collect_plain :
      (c : Collected Name) (r : Record Name)
      → count_soa (r ∷ []) ≡ 0
      → collect c r ≡ record c { records = c.records ++ r ∷ [] }
  unfolding collect count_soa
  collect_plain c r h = ground (arith, h)

  collect_all_plain :
      (c : Collected Name) (body : List (Record Name))
      → count_soa body ≡ 0
      → collect_all c body ≡ record c { records = c.records ++ body }
  unfolding collect_all
  collect_all_plain c [] h = ap (λ xs. record c { records = xs }) (sym (append_nil c.records))
  collect_all_plain c (r ∷ body) h =
      let parts = count_soa-append (r ∷ []) body in
      let one = collect_plain c r (omega (arith, parts, h)) in
      let d : Collected Name = record c { records = c.records ++ r ∷ [] } in
      ap (λ x. collect_all x body) one
      ∙ collect_all_plain d body (omega (arith, parts, h))
      ∙ ap (λ xs. record c { records = xs }) (append_assoc c.records (r ∷ []) body)

  has_soa :
      (s : Soa Name) (r : Record Name) (records : List (Record Name))
      → r.data_ ≡ soa s
      → has_type type_soa (r ∷ records) ≡ true
  unfolding has_type is_type record_type
  has_soa s r records h = rw (h, record_type) refl

  collect_zone :
      (s t : Soa Name) (first last : Record Name) (body : List (Record Name))
      → first.data_ ≡ soa s
      → last.data_ ≡ soa t
      → count_soa body ≡ 0
      → collect_all
          (record { records = []; saw_soa_start = false; soa_serial = none })
          (first ∷ (body ++ last ∷ []))
        ≡ record { records = first ∷ body; saw_soa_start = true; soa_serial = some s.serial }
  unfolding collect_all collect
  collect_zone s t first last body opens closes plain =
      let c : Collected Name = record {
        records = first ∷ [];
        saw_soa_start = true;
        soa_serial = some s.serial;
      } in
      let begun : collect (record { records = []; saw_soa_start = false; soa_serial = none }) first
          ≡ c =
        ground (arith, opens) in
      let all : Collected Name = record {
        records = first ∷ body;
        saw_soa_start = true;
        soa_serial = some s.serial;
      } in
      let ended : collect all last ≡ all = ground (arith, closes) in
      ap (λ x. collect_all x (body ++ last ∷ [])) begun
      ∙ collect_all-append c body (last ∷ [])
      ∙ ap (λ x. collect x last) (collect_all_plain c body plain)
      ∙ ended

module _ {Name Authority : Type 0} (net : Network Name Authority) where
  -- A primary that answers with one message (of 1 to 65535 bytes, without an error and not marked
  -- as truncated) whose records are a start of authority, others, and a start of authority: the
  -- transfer gives the records but the last, whatever follows the message on the connection.
  pub axfr_records_from_primary-frame :
      (zone_name primary_addr : Text) (origin : Name) (b rest : List ℕ) (m : Message Name)
      (s t : Soa Name) (first last : Record Name) (body : List (Record Name))
      → net.is_addr primary_addr ≡ true
      → net.from_ascii zone_name ≡ some origin
      → net.connect primary_addr ≡ some (frame b ++ rest)
      → IsMessage b
      → net.decode b ≡ some m
      → m.no_error ≡ true
      → m.truncation ≡ false
      → m.answers ≡ first ∷ (body ++ last ∷ [])
      → first.data_ ≡ soa s
      → last.data_ ≡ soa t
      → count_soa body ≡ 0
      → axfr_records_from_primary net zone_name primary_addr ≡ some (first ∷ body)
  unfolding axfr_records_from_primary received nothing
  axfr_records_from_primary-frame zone_name primary_addr origin b rest m s t first last body addr
        named connected v decoded fine whole answers opens closes plain =
      let zone =
        ap (collect_all (nothing net)) answers
        ∙ collect_zone s t first last body opens closes plain in
      let complete : is_complete m (collect_all (nothing net) m.answers) ≡ true =
        unfold is_complete in rw (whole, zone) (has_soa s first body opens) in
      let read =
        read_responses-frame net (length (frame b ++ rest)) b rest m (nothing net) v decoded fine
          complete in
      rw (addr, named, connected) (read ∙ ap (λ c. some c.records) zone)
