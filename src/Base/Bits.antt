-- ===== src/Base/Bits.antt =====
-- Shifts by 40 places, and the masks and joins of the words that they make.
use Prim.Native.Nat.{
  ℕ, zero, suc, ◌+◌, ◌-◌, ◌*◌, ◌/◌, ◌%◌, ◌^◌, ◌≤◌, ◌<◌, min, max, digits, bit_and, bit_or,
  bit_and-bitwise, bit_or-bitwise,
}
use mathlib.Core.Path.{◌≡◌, refl, sym, ap, ap₂, ◌∙◌}
use native.Mathlib.Nat.{
  pow-suc, one-le-pow, div-add-mod, mod-lt, mod-eq_of_lt, add-mul-mod_self_left,
}
use native.Mathlib.Omega.{arith}

-- The count of digits may be any that is not below the number.
module _ (rest : ℕ → ℕ) (digit : ℕ → ℕ → ℕ) where
  digits_count : (w c d x : ℕ) → w ≤ c → w ≤ d → digits rest digit c w x ≡ digits rest digit d w x
  digits_count zero zero zero x h k = refl
  digits_count zero zero (suc d) x h k = refl
  digits_count zero (suc c) zero x h k = refl
  digits_count zero (suc c) (suc d) x h k = refl
  digits_count (suc w) zero d x h k = absurd (omega arith)
  digits_count (suc w) (suc c) zero x h k = absurd (omega arith)
  digits_count (suc w) (suc c) (suc d) x h k =
      omega (arith, digits_count (suc w / 2) c d (x / 2) (omega arith) (omega arith))

lowest_and : (a b : ℕ) → bit_and a b ≡ bit_and (a / 2) (b / 2) * 2 + min (a % 2) (b % 2)
lowest_and zero b = omega (arith, bit_and-bitwise 0 b, bit_and-bitwise 0 (b / 2))
lowest_and (suc a) b =
    let fewer =
      digits_count (λ y. 0) min (suc a / 2) a (suc a / 2) (b / 2) (omega arith) (omega arith) in
    omega (arith, fewer, bit_and-bitwise (suc a) b, bit_and-bitwise (suc a / 2) (b / 2))

lowest_or : (a b : ℕ) → bit_or a b ≡ bit_or (a / 2) (b / 2) * 2 + max (a % 2) (b % 2)
lowest_or zero b = omega (arith, bit_or-bitwise 0 b, bit_or-bitwise 0 (b / 2))
lowest_or (suc a) b =
    let fewer =
      digits_count (λ y. y) max (suc a / 2) a (suc a / 2) (b / 2) (omega arith) (omega arith) in
    omega (arith, fewer, bit_or-bitwise (suc a) b, bit_or-bitwise (suc a / 2) (b / 2))

and-one : (a m : ℕ) → bit_and a (2 * m + 1) ≡ 2 * bit_and (a / 2) m + a % 2
and-one a m =
    let half : (2 * m + 1) / 2 ≡ m = omega arith in
    rw (lowest_and a (2 * m + 1), half) (omega arith)

or-bit : (a b r : ℕ) → r < 2 → bit_or (2 * a) (2 * b + r) ≡ 2 * bit_or a b + r
or-bit a b r h =
    let half : 2 * a / 2 ≡ a = omega arith in
    let half' : (2 * b + r) / 2 ≡ b = omega arith in
    rw (lowest_or (2 * a) (2 * b + r), half, half') (omega arith)

or-zero : (n a : ℕ) → a ≤ n → bit_or a 0 ≡ a
or-zero n zero h = refl
or-zero zero (suc a) h = absurd (omega arith)
or-zero (suc n) (suc a) h = omega (arith, lowest_or (suc a) 0, or-zero n (suc a / 2) (omega arith))

and-zero : (n a : ℕ) → a ≤ n → bit_and a 0 ≡ 0
and-zero n zero h = refl
and-zero zero (suc a) h = absurd (omega arith)
and-zero (suc n) (suc a) h =
    omega (arith, lowest_and (suc a) 0, and-zero n (suc a / 2) (omega arith))

-- a % (2 * p), from the digits.
mod-double : (a p : ℕ) → 0 < p → a % (2 * p) ≡ 2 * (a / 2 % p) + a % 2
mod-double a p h =
    let x : ℕ = 2 * (a / 2 % p) + a % 2 in
    let split : a ≡ x + 2 * p * (a / 2 / p) = omega (arith, div-add-mod (a / 2) p) in
    let small : x < 2 * p = omega (arith, mod-lt (a / 2) h) in
    ap (λ t. t % (2 * p)) split ∙ add-mul-mod_self_left x (2 * p) (a / 2 / p) ∙ mod-eq_of_lt small

-- `(q << k) | r` where `r` has no more than `k` digits.
pub or-shift : (k q r : ℕ) → r < 2 ^ k → bit_or (q * 2 ^ k) r ≡ q * 2 ^ k + r
or-shift zero q r h =
    let none : r ≡ 0 = omega arith in
    let once : q * 1 ≡ q = omega arith in rw (none, once, or-zero q q (omega arith)) (omega arith)
or-shift (suc k) q r h =
    let twice : 2 ^ suc k ≡ 2 * 2 ^ k = omega (arith, pow-suc 2 k) in
    let shifted : q * 2 ^ suc k ≡ 2 * (q * 2 ^ k) = rw twice (omega arith) in
    let parts : r ≡ 2 * (r / 2) + r % 2 = omega arith in
    ap₂ bit_or shifted parts
    ∙ or-bit (q * 2 ^ k) (r / 2) (r % 2) (omega arith)
    ∙ omega (arith, or-shift k q (r / 2) (omega (arith, twice)), shifted)

-- `a & (2 ^ k - 1)` is the remainder by `2 ^ k`.
pub and-mask : (k a : ℕ) → bit_and a (2 ^ k - 1) ≡ a % 2 ^ k
and-mask zero a = let one : a % 1 ≡ 0 = omega arith in rw one (and-zero a a (omega arith))
and-mask (suc k) a =
    let twice : 2 ^ suc k ≡ 2 * 2 ^ k = omega (arith, pow-suc 2 k) in
    let ones : 2 ^ suc k - 1 ≡ 2 * (2 ^ k - 1) + 1 =
      omega (arith, twice, one-le-pow k 2 (omega arith)) in
    rw (ones, and-one a (2 ^ k - 1), and-mask k (a / 2), twice)
      (sym (mod-double a (2 ^ k) (one-le-pow k 2 (omega arith))))
