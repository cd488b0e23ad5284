-- ===== src/Common/Bits.antt =====
-- `|` and `^` on words: a disjunction of two fields is their sum, and `^` stays within its width.
-- Both are shown on the recursion over binary digits that the native operations stand for.
use Prim.Native.Nat.{ℕ, zero, suc, ◌+◌, ◌*◌, ◌/◌, ◌%◌, ◌^◌, ◌≤◌, ◌<◌, max}
use Prim.Native.Nat.{bit_or, bit_xor, digits, differ, bit_or-bitwise, bit_xor-bitwise}
use mathlib.Core.Path.{◌≡◌, ap}
use native.Mathlib.Nat.{le_refl, pow-suc}
use native.Mathlib.Omega.{arith}

-- The digits of `r` lie below those of `q`, with any fuel that reaches past `r`.
or_digits :
    (fuel r q k : ℕ) → r ≤ fuel → r < 2 ^ k → digits (λ y. y) max fuel r (q * 2 ^ k) ≡ r + q * 2 ^ k
or_digits zero r q k le lt = omega arith
or_digits (suc fuel) zero q k le lt = omega arith
or_digits (suc fuel) (suc r) q zero le lt = absurd (omega arith)
or_digits (suc fuel) (suc r) q (suc k) le lt =
    let twice = ap (λ (t : ℕ). q * t) (pow-suc 2 k) in
    let halved : q * 2 ^ suc k / 2 ≡ q * 2 ^ k = omega (arith, twice) in
    let higher = or_digits fuel (suc r / 2) q k (omega arith) (omega (arith, pow-suc 2 k)) in
    rw (halved, higher) (omega (arith, twice))

-- `r | (q << k)` is a sum if `r` fits `k` bits.
pub bit_or_fields : (k r q : ℕ) → r < 2 ^ k → bit_or r (q * 2 ^ k) ≡ r + q * 2 ^ k
bit_or_fields k r q h = simp bit_or-bitwise (or_digits r r q k (le_refl r) h)

differ_bit : (x y : ℕ) → x ≤ 1 → y ≤ 1 → differ x y ≤ 1
differ_bit zero y hx hy = hy
differ_bit (suc x) zero hx hy = hx
differ_bit (suc zero) (suc zero) hx hy = omega arith
differ_bit (suc (suc x)) (suc y) hx hy = absurd (omega arith)
differ_bit (suc zero) (suc (suc y)) hx hy = absurd (omega arith)

differ_digit : (a b : ℕ) → differ (a % 2) (b % 2) < 2
differ_digit a b = omega (arith, differ_bit (a % 2) (b % 2) (omega arith) (omega arith))

xor_digits : (fuel a b k : ℕ) → a < 2 ^ k → b < 2 ^ k → digits (λ y. y) differ fuel a b < 2 ^ k
xor_digits zero a b k ha hb = hb
xor_digits (suc fuel) zero b k ha hb = hb
xor_digits (suc fuel) (suc a) b zero ha hb = absurd (omega arith)
xor_digits (suc fuel) (suc a) b (suc k) ha hb =
    let higher =
      xor_digits fuel (suc a / 2) (b / 2) k (omega (arith, pow-suc 2 k))
        (omega (arith, pow-suc 2 k)) in
    omega (arith, higher, pow-suc 2 k, differ_digit (suc a) b)

-- `a ^ b` stays within the width of its arguments.
pub bit_xor-lt : (k a b : ℕ) → a < 2 ^ k → b < 2 ^ k → bit_xor a b < 2 ^ k
bit_xor-lt k a b ha hb = simp bit_xor-bitwise (xor_digits a a b k ha hb)
