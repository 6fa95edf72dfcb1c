-- ===== src/Blocklist/Normal.antt =====
-- Every entry that a list loads is normalised.
use heimdallr.Common.{
  ℕ, zero, suc, ◌≡◌, ap, ◌∙◌, List, [], ◌∷◌, Option, some, arith, All, Bool-cases, Option-cases,
  inl, inr,
}
use heimdallr.Common.Text.{
  Text, to_ascii_lowercase_idem, trim_end_matches-to_ascii_lowercase, trim_end_matches_idem,
  to_ascii_lowercase, lines, trim, split_whitespace, trim_end_matches,
}
use heimdallr.Blocklist.{
  normalize, add, host_name, hosts_entry, entry_of, adguard, parse_hosts_line, add_lines,
  parse_hosts, for_each, Loading, visit, load_new, load_text, load_source, load_sources,
  meta_max_depth, contains, looks_like_meta_list,
}

pub normalize_idem : (t : Text) → normalize (normalize t) ≡ normalize t
unfolding normalize
normalize_idem t =
    ap to_ascii_lowercase (trim_end_matches-to_ascii_lowercase _)
    ∙ to_ascii_lowercase_idem _
    ∙ ap to_ascii_lowercase (trim_end_matches_idem b'.' t)

abbrev pub IsNormal : Text → Type 0
IsNormal t = normalize t ≡ t

add-IsNormal : (t : Text) (es : List Text) → IsNormal t → All IsNormal es → All IsNormal (add t es)
unfolding add
add-IsNormal t es h a = ground arith

host_name-IsNormal : (ps : List Text) (t : Text) → host_name ps ≡ some t → IsNormal t
unfolding host_name
host_name-IsNormal [] t h = cc
host_name-IsNormal (p ∷ ps) t h = ground (arith, normalize_idem p)

hosts_entry-IsNormal : (ps : List Text) (n : Text) → hosts_entry ps ≡ some n → IsNormal n
unfolding hosts_entry
hosts_entry-IsNormal [] n h = cc
hosts_entry-IsNormal (p ∷ ps) n h = ground (arith, host_name-IsNormal ps n)

entry_of-IsNormal : (t : Text) (n : Text) → entry_of t ≡ some n → IsNormal n
unfolding entry_of
entry_of-IsNormal t n h = elim (Option-cases (adguard t)) [
  | inl plain ↦ hosts_entry-IsNormal (split_whitespace t) n (ground arith)
  | inr (r, found) ↦
      host_name-IsNormal (split_whitespace (trim_end_matches b'^' r)) n (ground arith)
]

parse_hosts_line-IsNormal : (line : Text) (n : Text) → parse_hosts_line line ≡ some n → IsNormal n
unfolding parse_hosts_line
parse_hosts_line-IsNormal line n h = entry_of-IsNormal (trim line) n h

add_lines-IsNormal : (ls es : List Text) → All IsNormal es → All IsNormal (add_lines ls es)
unfolding add_lines
add_lines-IsNormal [] es a = a
add_lines-IsNormal (l ∷ ls) es a = elim (Option-cases (parse_hosts_line l)) [
  | inl skip ↦ rw (skip, add_lines) (add_lines-IsNormal ls es a)
  | inr (t, found) ↦
      rw (found, add_lines)
        (add_lines-IsNormal ls (add t es)
          (add-IsNormal t es (parse_hosts_line-IsNormal l t found) a))
]

parse_hosts-IsNormal :
    (text : Text) (es : List Text) → All IsNormal es → All IsNormal (parse_hosts text es)
unfolding parse_hosts
parse_hosts-IsNormal text es a = add_lines-IsNormal (lines text) es a

abbrev AllNormal : Loading → Type 0
AllNormal s = All IsNormal s.entries

for_each-AllNormal :
    (f : Text → Loading → Loading)
    → ((x : Text) (s : Loading) → AllNormal s → AllNormal (f x s))
    → (xs : List Text) (s : Loading) → AllNormal s
    → AllNormal (for_each f xs s)
unfolding for_each
for_each-AllNormal f keep [] s a = a
for_each-AllNormal f keep (x ∷ xs) s a = for_each-AllNormal f keep xs (f x s) (keep x s a)

visit-AllNormal :
    (f : Text → Loading → Loading)
    → ((x : Text) (s : Loading) → AllNormal s → AllNormal (f x s))
    → (src : Text) (s : Loading) → AllNormal s
    → AllNormal (visit f src s)
unfolding visit
visit-AllNormal f keep src s a = elim (Bool-cases (contains s.visited (normalize src))) [
  | inl seen ↦ rw (seen, visit) a
  | inr unseen ↦ rw (unseen, visit) (keep src _ a)
]

module _ (fetch_text : Text → Option Text) where
  load_new-AllNormal :
      (f : Text → Loading → Loading)
      → ((x : Text) (s : Loading) → AllNormal s → AllNormal (f x s))
      → (src : Text) (s : Loading) → AllNormal s
      → AllNormal (load_new fetch_text f src s)
  unfolding load_new
  load_new-AllNormal f keep src s a = elim (Option-cases (fetch_text src)) [
    | inl failed ↦ rw (failed, load_new) a
    | inr (text, found) ↦
        rw (found, load_new)
          (elim (Bool-cases (looks_like_meta_list text)) [
            | inl meta ↦ rw (meta, load_text) (for_each-AllNormal f keep _ s a)
            | inr plain ↦ rw (plain, load_text) (parse_hosts-IsNormal text s.entries a)
          ])
  ]

  load_source-AllNormal :
      (left : ℕ) (src : Text) (s : Loading)
      → AllNormal s
      → AllNormal (load_source fetch_text left src s)
  unfolding load_source
  load_source-AllNormal zero src s a = visit-AllNormal (λ x s'. s') (λ x s' a'. a') src s a
  load_source-AllNormal (suc left) src s a =
      visit-AllNormal (load_new fetch_text (load_source fetch_text left))
        (load_new-AllNormal (load_source fetch_text left) (load_source-AllNormal left)) src s a

  -- Whatever the sources hold, every entry of a loaded list is in lower case with no dot at its
  -- end, as the names are that it is compared with.
  pub load_sources-IsNormal : (sources : List Text) → All IsNormal (load_sources fetch_text sources)
  unfolding load_sources
  load_sources-IsNormal sources =
      for_each-AllNormal (load_source fetch_text (suc meta_max_depth))
        (load_source-AllNormal (suc meta_max_depth)) sources (record { entries = []; visited = [] })
        tt
