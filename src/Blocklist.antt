-- ===== src/Blocklist.antt =====
-- src/core/filter/blocklist.rs: the block and allow lists. A `HashSet<String>` is a list of texts
-- with one entry for a text. What a source holds is the parameter `fetch_text` (a file or an HTTP
-- body, `none` on any error).
pub mod Suffix
pub mod Normal
use heimdallr.Common.{
  ℕ, zero, suc, ◌+◌, ◌<◌, Bool, true, false, not, ◌&&◌, ◌||◌, List, [], ◌∷◌, ◌++◌, Option, none,
  some, leb, ltb, ◌==◌, if◌then◌else◌, length,
}
use heimdallr.Common.Text.{
  Text, codes, text_eq, strip_prefix, starts_with, trim_end_matches, to_ascii_lowercase, has_char,
  trim, split_whitespace, lines,
}
use heimdallr.Common.Addr.{parse_ipv4}
use heimdallr.Common.Ipv6.{parse_ipv6}

-- `normalize`
unfoldable pub normalize : Text → Text
normalize name = to_ascii_lowercase (trim_end_matches b'.' name)

-- `HashSet::contains`
unfoldable pub contains : List Text → Text → Bool
contains [] t = false
contains (e ∷ es) t = text_eq e t || contains es t

-- `HashSet::insert`
unfoldable pub add : Text → List Text → List Text
unfolding contains
add t es = if contains es t then es else t ∷ es

-- `Blocklist::insert`
insert_nonempty : Text → List Text → List Text
insert_nonempty [] es = es
insert_nonempty (c ∷ n) es = add (c ∷ n) es

unfoldable pub insert : Text → List Text → List Text
unfolding insert_nonempty
insert name es = insert_nonempty (normalize name) es

-- what follows the first dot
unfoldable pub after_dot : Text → Option Text
after_dot [] = none
after_dot (x ∷ s) = let rest = after_dot s in if x == b'.' then some s else rest

-- the loop of `is_blocked` and `is_allowed`, on fuel
unfoldable pub walk : ℕ → List Text → Text → Bool
walk zero es cur = false
walk (suc fuel) es cur = elim (contains es cur) [
  | true ↦ true
  | false ↦ elim (after_dot cur) [ none ↦ false | some rest ↦ walk fuel es rest ]
]

-- `is_blocked`, and `is_allowed` on the other list: one round for each character is enough
unfoldable pub is_listed : List Text → Text → Bool
is_listed [] qname = false
is_listed (e ∷ es) qname = walk (suc (length (normalize qname))) (e ∷ es) (normalize qname)

-- `blocked`
unfoldable pub blocked : List Text → List Text → Text → Bool
blocked blocklist allowlist qname =
    if is_listed allowlist qname then false else is_listed blocklist qname

-- `is_url`
unfoldable pub is_url : Text → Bool
is_url s = starts_with (codes "http://") s || starts_with (codes "https://") s

-- the names that are never taken from a list
refused : Text → Bool
refused [] = true
refused name =
    text_eq name (codes "localhost")
    || text_eq name (codes "localhost.localdomain")
    || has_char b'/' name

host_name : List Text → Option Text
unfolding refused
host_name [] = none
host_name (name ∷ _) = if refused name then none else some (normalize name)

-- the rest of an AdGuard line: `||` or `@@||` stripped
adguard : Text → Option Text
adguard t = elim (strip_prefix (codes "||") t) [
  | some rest ↦ some rest
  | none ↦ strip_prefix (codes "@@||") t
]

is_skipped : Text → Bool
is_skipped [] = true
is_skipped (c ∷ t) = c == b'#'

is_ip : Text → Bool
is_ip t = elim (parse_ipv4 t) [
  | some _ ↦ true
  | none ↦ elim (parse_ipv6 t) [ some _ ↦ true | none ↦ false ]
]

hosts_entry : List Text → Option Text
unfolding is_ip
hosts_entry [] = none
hosts_entry (first ∷ parts) =
    if is_url first then none else if not (is_ip first) then none else host_name parts

entry_of : Text → Option Text
unfolding adguard hosts_entry host_name
entry_of t = if is_skipped t then none else elim (adguard t) [
  | some stripped ↦ host_name (split_whitespace (trim_end_matches b'^' stripped))
  | none ↦ hosts_entry (split_whitespace t)
]

-- `parse_hosts_line`
unfoldable pub parse_hosts_line : Text → Option Text
unfolding entry_of is_skipped
parse_hosts_line line = entry_of (trim line)

add_lines : List Text → List Text → List Text
add_lines [] es = es
add_lines (l ∷ ls) es = elim (parse_hosts_line l) [
  | none ↦ add_lines ls es
  | some name ↦ add_lines ls (add name es)
]

-- `parse_hosts`
unfoldable pub parse_hosts : Text → List Text → List Text
unfolding add_lines
parse_hosts text es = add_lines (lines text) es

is_source : Text → Bool
is_source t = is_url t || starts_with (codes "/") t

first_is_ipv4 : List Text → Bool
first_is_ipv4 [] = false
first_is_ipv4 (t ∷ _) = elim (parse_ipv4 t) [ none ↦ false | some _ ↦ true ]

is_host : Text → Bool
unfolding first_is_ipv4
is_host t =
    starts_with (codes "||") t || starts_with (codes "@@||") t || first_is_ipv4 (split_whitespace t)

-- the two counters of `looks_like_meta_list`
count_lines : List Text → ℕ → ℕ → ℕ × ℕ
unfolding is_skipped is_source is_host
count_lines [] sources hosts = (sources, hosts)
count_lines (l ∷ ls) sources hosts =
    let t = trim l in
    let skip = is_skipped t in
    let source = not skip && is_source t in
    let host = not skip && not (is_source t) && is_host t in
    count_lines ls (sources + (if source then 1 else 0)) (hosts + (if host then 1 else 0))

-- `looks_like_meta_list`
unfoldable pub looks_like_meta_list : Text → Bool
unfolding count_lines
looks_like_meta_list text =
    let (sources, hosts) = count_lines (lines text) 0 0 in leb 2 sources && ltb hosts sources

-- the sources that a meta-list names
unfoldable pub sources_of : List Text → List Text
unfolding is_source
sources_of [] = []
sources_of (l ∷ ls) = let rest = sources_of ls in if is_source (trim l) then trim l ∷ rest else rest

-- the entries and the visited sources
pub record Loading : Type 0 where
  pub entries : List Text
  pub visited : List Text

abbrev pub meta_max_depth : ℕ
meta_max_depth = 4

unfoldable pub for_each : (Text → Loading → Loading) → List Text → Loading → Loading
for_each f [] s = s
for_each f (x ∷ xs) s = for_each f xs (f x s)

-- a source is loaded once
unfoldable pub visit : (Text → Loading → Loading) → Text → Loading → Loading
visit go src s =
    if contains s.visited (normalize src)
    then s
    else go src (record s { visited = normalize src ∷ s.visited })

module _ (fetch_text : Text → Option Text) where
  load_text : (Text → Loading → Loading) → Text → Loading → Loading
  load_text inner text s =
      if looks_like_meta_list text
      then for_each inner (sources_of (lines text)) s
      else record s { entries = parse_hosts text s.entries }

  load_new : (Text → Loading → Loading) → Text → Loading → Loading
  unfolding load_text
  load_new inner src s = elim (fetch_text src) [ none ↦ s | some text ↦ load_text inner text s ]

  -- `load_source` with `left` levels allowed, which is `META_MAX_DEPTH + 1 - depth`
  unfoldable pub load_source : ℕ → Text → Loading → Loading
  unfolding load_new visit
  load_source zero src s = visit (λ _ s'. s') src s
  load_source (suc left) src s = visit (load_new (load_source left)) src s

  -- `Blocklist::load_sources`, and `Allowlist::load_sources`
  unfoldable pub load_sources : List Text → List Text
  load_sources sources =
      (for_each (load_source (suc meta_max_depth)) sources
        (record { entries = []; visited = [] })).entries
