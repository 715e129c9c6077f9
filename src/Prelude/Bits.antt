-- ===== src/Prelude/Bits.antt =====
-- `&` with a low mask and `|` of disjoint bit fields, as arithmetic, at every width.
use Prim.Native.Nat.{
  ℕ, zero, suc, ◌+◌, ◌-◌, ◌*◌, ◌/◌, ◌%◌, ◌^◌, ◌≤◌, ◌<◌, min, max, bit_and, bit_or, digits,
  bit_and-bitwise, bit_or-bitwise,
}
use mathlib.Core.Path.{◌≡◌, refl, ap, sym, ◌∙◌}
use native.Mathlib.Omega.{arith}
use native.Mathlib.Nat.{
  two-pow-succ, one-le-pow, mod-lt, mod-eq_of_lt, mul-add-mod_self_right, div-add-mod',
}

-- More fuel than the first number changes nothing.
digits_fuel :
    (z : ℕ → ℕ) (f : ℕ → ℕ → ℕ) (n m a b : ℕ) → a ≤ n → a ≤ m → digits z f n a b ≡ digits z f m a b
digits_fuel z f zero zero a b p q = refl
digits_fuel z f zero (suc m) zero b p q = refl
digits_fuel z f zero (suc m) (suc a) b p q = absurd (omega arith)
digits_fuel z f (suc n) zero zero b p q = refl
digits_fuel z f (suc n) zero (suc a) b p q = absurd (omega arith)
digits_fuel z f (suc n) (suc m) zero b p q = refl
digits_fuel z f (suc n) (suc m) (suc a) b p q =
    ap (λ (t : ℕ). t * 2 + f (suc a % 2) (b % 2))
      (digits_fuel z f n m (suc a / 2) (b / 2) (omega arith) (omega arith))

and_low : (a b : ℕ) → bit_and a b ≡ bit_and (a / 2) (b / 2) * 2 + min (a % 2) (b % 2)
and_low zero b = omega (arith, bit_and-bitwise 0 b, bit_and-bitwise 0 (b / 2))
and_low (suc a) b = omega (
  arith,
  bit_and-bitwise (suc a) b,
  bit_and-bitwise (suc a / 2) (b / 2),
  digits_fuel (λ b. zero) min a (suc a / 2) (suc a / 2) (b / 2) (omega arith) (omega arith),
)

or_low : (a b : ℕ) → bit_or a b ≡ bit_or (a / 2) (b / 2) * 2 + max (a % 2) (b % 2)
or_low zero b = omega (arith, bit_or-bitwise 0 b, bit_or-bitwise 0 (b / 2))
or_low (suc a) b = omega (
  arith,
  bit_or-bitwise (suc a) b,
  bit_or-bitwise (suc a / 2) (b / 2),
  digits_fuel (λ b. b) max a (suc a / 2) (suc a / 2) (b / 2) (omega arith) (omega arith),
)

and_zero_below : (n a : ℕ) → a ≤ n → bit_and a 0 ≡ 0
and_zero_below n zero h = refl
and_zero_below zero (suc a) h = absurd (omega arith)
and_zero_below (suc n) (suc a) h =
    omega (arith, and_low (suc a) 0, and_zero_below n (suc a / 2) (omega arith))

or_zero_below : (n a : ℕ) → a ≤ n → bit_or a 0 ≡ a
or_zero_below n zero h = refl
or_zero_below zero (suc a) h = absurd (omega arith)
or_zero_below (suc n) (suc a) h =
    omega (arith, or_low (suc a) 0, or_zero_below n (suc a / 2) (omega arith))

half_of_mask : (k : ℕ) → ((2 ^ suc k - 1) / 2 ≡ 2 ^ k - 1) × ((2 ^ suc k - 1) % 2 ≡ 1)
half_of_mask k = omega (arith, two-pow-succ k, one-le-pow k 2)

low_bit_mod : (x m : ℕ) → 0 < m → x % (m + m) ≡ x / 2 % m * 2 + x % 2
low_bit_mod x m h =
    ap (λ (t : ℕ). t % (m + m)) whole
    ∙ mul-add-mod_self_right (x / 2 / m) (m + m) _
    ∙ mod-eq_of_lt (omega (arith, mod-lt (x / 2) h))
  where
    whole : x ≡ x / 2 / m * (m + m) + (x / 2 % m * 2 + x % 2)
    whole = omega (arith, div-add-mod' (x / 2) m)

-- `x & (2 ^ k - 1)` is the remainder by `2 ^ k`.
pub bit_and_mask : (k x : ℕ) → bit_and x (2 ^ k - 1) ≡ x % 2 ^ k
bit_and_mask zero x = omega (arith, and_zero_below x x (omega arith))
bit_and_mask (suc k) x = omega (
  arith,
  and_low x (2 ^ suc k - 1),
  half_of_mask k,
  ap (λ (t : ℕ). bit_and (x / 2) t) (half_of_mask k).0,
  bit_and_mask k (x / 2),
  low_bit_mod x (2 ^ k) (one-le-pow k 2 (omega arith)),
  ap (λ (t : ℕ). x % t) (two-pow-succ k),
)

half_of_field : (k c : ℕ) → (c * 2 ^ suc k / 2 ≡ c * 2 ^ k) × (c * 2 ^ suc k % 2 ≡ 0)
half_of_field k c = omega (arith, ap (λ (t : ℕ). c * t) (two-pow-succ k))

-- `(c << k) | t` is a sum where `t` fits `k` bits.
pub bit_or_field : (k c t : ℕ) → t < 2 ^ k → bit_or (c * 2 ^ k) t ≡ c * 2 ^ k + t
bit_or_field zero c t h = omega (
  arith,
  or_zero_below (c * 1) (c * 1) (omega arith),
  ap (λ (s : ℕ). bit_or (c * 1) s) (let e : t ≡ 0 = omega arith in e),
)
bit_or_field (suc k) c t h = omega (
  arith,
  or_low (c * 2 ^ suc k) t,
  half_of_field k c,
  ap (λ (s : ℕ). bit_or s (t / 2)) (half_of_field k c).0,
  bit_or_field k c (t / 2) (omega (arith, two-pow-succ k)),
  ap (λ (s : ℕ). c * s) (two-pow-succ k),
)

two-pow-add : (d k : ℕ) → 2 ^ (d + k) ≡ 2 ^ d * 2 ^ k
two-pow-add zero k = omega (arith, ap (λ (t : ℕ). 2 ^ t) (let e : 0 + k ≡ k = omega arith in e))
two-pow-add (suc d) k = omega (
  arith,
  two-pow-succ (d + k),
  two-pow-add d k,
  ap (λ (t : ℕ). t * 2 ^ k) (two-pow-succ d),
  ap (λ (t : ℕ). 2 ^ t) (let e : suc d + k ≡ suc (d + k) = omega arith in e),
)

-- A wrap at a wider power of two is lost under a narrower one.
pub mod-mod_pow : (w k x : ℕ) → k ≤ w → x % 2 ^ w % 2 ^ k ≡ x % 2 ^ k
mod-mod_pow w k x h = sym (
    ap (λ (t : ℕ). t % 2 ^ k) whole
    ∙ mul-add-mod_self_right (x / 2 ^ w * 2 ^ (w - k)) (2 ^ k) (x % 2 ^ w))
  where
    split : 2 ^ w ≡ 2 ^ (w - k) * 2 ^ k
    split = ap (λ (t : ℕ). 2 ^ t) (let e : w ≡ w - k + k = omega arith in e) ∙ two-pow-add (w - k) k

    whole : x ≡ x / 2 ^ w * 2 ^ (w - k) * 2 ^ k + x % 2 ^ w
    whole = omega (arith, div-add-mod' x (2 ^ w), ap (λ (t : ℕ). x / 2 ^ w * t) split)
