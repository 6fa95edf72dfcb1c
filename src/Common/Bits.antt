-- ===== src/Common/Bits.antt =====
-- `&` with a mask of ones above zeros, at every width.
use Prim.Native.Nat.{
  ℕ, zero, suc, ◌+◌, ◌-◌, ◌*◌, ◌/◌, ◌%◌, ◌^◌, ◌≤◌, ◌<◌, min, bit_and, digits, bit_and-bitwise,
}
use mathlib.Core.Path.{◌≡◌, refl, sym, ap, ◌∙◌}
use native.Mathlib.Nat.{pow-suc, one-le-pow, mul_comm, div-div-eq-div-mul}
use native.Mathlib.Omega.{arith}

-- `bit_and` on fuel, as the native operation is defined
abbrev and_on : ℕ → ℕ → ℕ → ℕ
and_on fuel x y = digits (λ _. zero) min fuel x y

-- any fuel from the first operand up gives the same
and_on-eq : (f g x y : ℕ) → x ≤ f → x ≤ g → and_on f x y ≡ and_on g x y
and_on-eq zero zero x y h k = refl
and_on-eq (suc f) zero zero y h k = refl
and_on-eq (suc f) zero (suc x) y h k = absurd (omega arith)
and_on-eq zero (suc g) zero y h k = refl
and_on-eq zero (suc g) (suc x) y h k = absurd (omega arith)
and_on-eq (suc f) (suc g) zero y h k = refl
and_on-eq (suc f) (suc g) (suc x) y h k =
    omega (arith, and_on-eq f g (suc x / 2) (y / 2) (omega arith) (omega arith))

bit_and-halves : (x y : ℕ) → bit_and x y ≡ 2 * bit_and (x / 2) (y / 2) + min (x % 2) (y % 2)
bit_and-halves zero y = omega (arith, bit_and-bitwise 0 y, bit_and-bitwise 0 (y / 2))
bit_and-halves (suc x) y =
    let next = and_on-eq x (suc x / 2) (suc x / 2) (y / 2) (omega arith) (omega arith) in
    omega (arith, next, bit_and-bitwise (suc x) y, bit_and-bitwise (suc x / 2) (y / 2))

bit_and_ones : (w x : ℕ) → x < 2 ^ w → bit_and x (2 ^ w - 1) ≡ x
bit_and_ones zero zero h = refl
bit_and_ones zero (suc x) h = absurd (omega arith)
bit_and_ones (suc w) x h =
    let double = pow-suc 2 w in
    let positive = one-le-pow w 2 (omega arith) in
    let e : (2 ^ suc w - 1) / 2 ≡ 2 ^ w - 1 = omega (arith, double, positive) in
    let half : bit_and (x / 2) ((2 ^ suc w - 1) / 2) ≡ x / 2 =
      ap (bit_and (x / 2)) e ∙ bit_and_ones w (x / 2) (omega (arith, double)) in
    omega (arith, bit_and-halves x (2 ^ suc w - 1), half, double, positive)

-- The top `w` bits of a number below `2 ^ (k + w)`.
pub bit_and_top :
    (k w x : ℕ) → x < 2 ^ k * 2 ^ w → bit_and x ((2 ^ w - 1) * 2 ^ k) ≡ x / 2 ^ k * 2 ^ k
bit_and_top zero w x h = ap (bit_and x) (omega arith) ∙ bit_and_ones w x (omega arith) ∙ omega arith
bit_and_top (suc k) w x h =
    let double = pow-suc 2 k in
    let mask : (2 ^ w - 1) * 2 ^ suc k ≡ 2 * ((2 ^ w - 1) * 2 ^ k) = rw double (omega arith) in
    let e : (2 ^ w - 1) * 2 ^ suc k / 2 ≡ (2 ^ w - 1) * 2 ^ k = omega (arith, mask) in
    let small : x < 2 * (2 ^ k * 2 ^ w) = omega (arith, ap (λ (t : ℕ). t * 2 ^ w) double) in
    let half = ap (bit_and (x / 2)) e ∙ bit_and_top k w (x / 2) (omega (arith, small)) in
    let quotient : x / 2 ^ suc k ≡ x / 2 / 2 ^ k =
      rw (double, mul_comm) (sym (div-div-eq-div-mul x 2 (2 ^ k))) in
    let scaled : x / 2 ^ suc k * 2 ^ suc k ≡ 2 * (x / 2 / 2 ^ k * 2 ^ k) =
      rw (quotient, double) (omega arith) in
    omega (arith, bit_and-halves x ((2 ^ w - 1) * 2 ^ suc k), half, mask, scaled)
