-- ===== src/Common/Ipv6.antt =====
-- The text form of an IPv6 address that the standard library reads.
use Prim.Native.Nat.{ℕ, zero, suc, ◌+◌, ◌-◌, ◌*◌}
use mathlib.Core.Bool.{Bool, true, false, ◌&&◌}
use mathlib.Core.List.{List, [], ◌∷◌, ◌++◌}
use mathlib.Core.Option.{Option, none, some}
use heimdallr.Common.Lists.{length}
use heimdallr.Common.Tests.{leb, ◌==◌, if◌then◌else◌}
use heimdallr.Common.Text.{Text, split}
use heimdallr.Common.Addr.{Ipv4Addr, Ipv6Addr, to_be, parse_ipv4}

hex_digit : ℕ → Option ℕ
hex_digit c =
    if leb b'0' c && leb c b'9'
    then some (c - b'0')
    else if leb b'a' c && leb c b'f'
    then some (c - b'a' + 10)
    else if leb b'A' c && leb c b'F'
    then some (c - b'A' + 10)
    else none

hex_value : ℕ → Text → Option ℕ
hex_value acc [] = some acc
hex_value acc (c ∷ s) = elim (hex_digit c) [ none ↦ none | some d ↦ hex_value (acc * 16 + d) s ]

-- one to four hexadecimal digits, as two octets
group : Text → Option (List ℕ)
unfolding hex_value hex_digit to_be
group [] = none
group (c ∷ s) =
    if leb (length s) 3
    then elim (hex_value 0 (c ∷ s)) [ none ↦ none | some n ↦ some (to_be 2 n) ]
    else none

cons_group : Option (List ℕ) → Option (List ℕ) → Option (List ℕ)
cons_group (some g) (some rest) = some (g ++ rest)
cons_group _ _ = none

octets_of_v4 : Option Ipv4Addr → Option (List ℕ)
octets_of_v4 none = none
octets_of_v4 (some ip) = some (ip.a ∷ ip.b ∷ ip.c ∷ ip.d ∷ [])

-- the groups of one side, the last of which may be an IPv4 address where `v4_last` says so
groups : Bool → List Text → Option (List ℕ)
unfolding group parse_ipv4 octets_of_v4
groups v4_last [] = some []
groups v4_last (p ∷ []) = elim (group p) [
  | some g ↦ some g
  | none ↦ if v4_last then octets_of_v4 (parse_ipv4 p) else none
]
groups v4_last (p ∷ q ∷ ps) = cons_group (group p) (groups v4_last (q ∷ ps))

side : Bool → Text → Option (List ℕ)
unfolding groups split
side v4_last [] = some []
side v4_last (c ∷ s) = groups v4_last (split b':' (c ∷ s))

-- what stands before and after the first `::`
double_colon : Text → Option (Text × Text)
double_colon [] = none
double_colon (c ∷ []) = none
double_colon (c ∷ e ∷ s) =
    let rest : Option (Text × Text) = elim (double_colon (e ∷ s)) [
      | none ↦ none
      | some (a, b) ↦ some (c ∷ a, b)
    ] in
    if (c == b':') && (e == b':') then some ([], s) else rest

zeros : ℕ → List ℕ
zeros zero = []
zeros (suc n) = 0 ∷ zeros n

exactly : Option (List ℕ) → Option Ipv6Addr
exactly none = none
exactly (some os) = if length os == 16 then some (record { octets = os }) else none

-- at least one group is left out by `::`
joined : Option (List ℕ) → Option (List ℕ) → Option Ipv6Addr
unfolding zeros
joined (some h) (some t) =
    if leb (length h + length t) 14
    then some (record { octets = h ++ zeros (16 - (length h + length t)) ++ t })
    else none
joined _ _ = none

-- `parse::<Ipv6Addr>()`
unfoldable pub parse_ipv6 : Text → Option Ipv6Addr
unfolding double_colon exactly joined side zeros groups cons_group
parse_ipv6 s = elim (double_colon s) [
  | none ↦ exactly (side true s)
  | some (h, t) ↦ joined (side false h) (side true t)
]
