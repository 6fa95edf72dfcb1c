-- ===== src/Common/Utf8.antt =====
-- `str::from_utf8`: the code points that a list of bytes encodes.
use Prim.Native.Nat.{ℕ, ◌+◌, ◌-◌, ◌*◌}
use mathlib.Core.Bool.{Bool, ◌&&◌}
use mathlib.Core.List.{List, [], ◌∷◌}
use mathlib.Core.Option.{Option, none, some}
use heimdallr.Common.Tests.{leb, if◌then◌else◌}
use heimdallr.Common.Text.{Text}

unfoldable pub between : ℕ → ℕ → ℕ → Bool
between lo x hi = leb lo x && leb x hi

-- the part of a code point that a continuation byte carries
unfoldable pub tail_bits : ℕ → ℕ
tail_bits x = x - 0x80

unfoldable pub prepend : ℕ → Option Text → Option Text
prepend c none = none
prepend c (some t) = some (c ∷ t)

-- the second byte of a sequence of three, or of four, after its first
unfoldable pub second_of_three : ℕ → ℕ → Bool
unfolding between
second_of_three x y =
    between (if leb x 0xe0 then 0xa0 else 0x80) y (if between 0xed x 0xed then 0x9f else 0xbf)

unfoldable pub second_of_four : ℕ → ℕ → Bool
unfolding between
second_of_four x y =
    between (if leb x 0xf0 then 0x90 else 0x80) y (if leb 0xf4 x then 0x8f else 0xbf)

unfoldable pub from_utf8 : List ℕ → Option Text
unfolding between second_of_three second_of_four tail_bits prepend
from_utf8 [] = some []
from_utf8 (x ∷ []) = if leb x 0x7f then some (x ∷ []) else none
from_utf8 (x ∷ y ∷ []) =
    let one = from_utf8 (y ∷ []) in
    if leb x 0x7f
    then prepend x one
    else if between 0xc2 x 0xdf && between 0x80 y 0xbf
    then some (((x - 0xc0) * 0x40 + tail_bits y) ∷ [])
    else none
from_utf8 (x ∷ y ∷ z ∷ []) =
    let one = from_utf8 (y ∷ z ∷ []) in
    let two = from_utf8 (z ∷ []) in
    if leb x 0x7f
    then prepend x one
    else if between 0xc2 x 0xdf && between 0x80 y 0xbf
    then prepend ((x - 0xc0) * 0x40 + tail_bits y) two
    else if between 0xe0 x 0xef && second_of_three x y && between 0x80 z 0xbf
    then some (((x - 0xe0) * 0x1000 + tail_bits y * 0x40 + tail_bits z) ∷ [])
    else none
from_utf8 (x ∷ y ∷ z ∷ w ∷ s) =
    let one = from_utf8 (y ∷ z ∷ w ∷ s) in
    let two = from_utf8 (z ∷ w ∷ s) in
    let three = from_utf8 (w ∷ s) in
    let four = from_utf8 s in
    if leb x 0x7f
    then prepend x one
    else if between 0xc2 x 0xdf && between 0x80 y 0xbf
    then prepend ((x - 0xc0) * 0x40 + tail_bits y) two
    else if between 0xe0 x 0xef && second_of_three x y && between 0x80 z 0xbf
    then prepend ((x - 0xe0) * 0x1000 + tail_bits y * 0x40 + tail_bits z) three
    else if between 0xf0 x 0xf4 && second_of_four x y && between 0x80 z 0xbf && between 0x80 w 0xbf
    then prepend ((x - 0xf0) * 0x40000 + tail_bits y * 0x1000 + tail_bits z * 0x40 + tail_bits w)
        four
    else none
