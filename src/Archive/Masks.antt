-- ===== src/Archive/Masks.antt =====
-- The `|` of disjoint fields and the `&` with a low mask, which the bit reader of
-- backend/src/archive.rs is built from, as arithmetic.
use Prim.Native.Nat.{min, max, digits, bit_and, bit_or, bit_and-bitwise, bit_or-bitwise}
use native.Mathlib.Nat.{pow-suc, one-le-pow}
use dbx_plugin_files.Prelude.{
  ℕ, zero, suc, ◌+◌, ◌*◌, ◌/◌, ◌%◌, ◌^◌, ◌-◌, ◌≤◌, ◌<◌, ◌≡◌, refl, ap, arith,
}

-- Fuel beyond the first number's value changes nothing.
module _ (last : ℕ → ℕ) (digit : ℕ → ℕ → ℕ) where
  same_digits : (m n a b : ℕ) → a ≤ m → a ≤ n → digits last digit m a b ≡ digits last digit n a b
  same_digits zero zero a b p q = refl
  same_digits zero (suc n) zero b p q = refl
  same_digits (suc m) zero zero b p q = refl
  same_digits (suc m) (suc n) zero b p q = refl
  same_digits zero n (suc a) b p q = absurd (omega arith)
  same_digits (suc m) zero (suc a) b p q = absurd (omega arith)
  same_digits (suc m) (suc n) (suc a) b p q =
      rw (same_digits m n (suc a / 2) (b / 2) (omega arith) (omega arith))

or_digit : (a b : ℕ) → bit_or a b ≡ bit_or (a / 2) (b / 2) * 2 + max (a % 2) (b % 2)
or_digit zero b = omega (arith, bit_or-bitwise 0 b, bit_or-bitwise 0 (b / 2))
or_digit (suc a) b = omega (
  arith,
  bit_or-bitwise (suc a) b,
  bit_or-bitwise (suc a / 2) (b / 2),
  same_digits (λ y. y) max a (suc a / 2) (suc a / 2) (b / 2) (omega arith) (omega arith),
)

and_digit : (a b : ℕ) → bit_and a b ≡ bit_and (a / 2) (b / 2) * 2 + min (a % 2) (b % 2)
and_digit zero b = omega (arith, bit_and-bitwise 0 b, bit_and-bitwise 0 (b / 2))
and_digit (suc a) b = omega (
  arith,
  bit_and-bitwise (suc a) b,
  bit_and-bitwise (suc a / 2) (b / 2),
  same_digits (λ y. 0) min a (suc a / 2) (suc a / 2) (b / 2) (omega arith) (omega arith),
)

and_zero : (n a : ℕ) → a ≤ n → bit_and a 0 ≡ 0
and_zero n zero h = refl
and_zero zero (suc a) h = absurd (omega arith)
and_zero (suc n) (suc a) h =
    omega (arith, and_digit (suc a) 0, and_zero n (suc a / 2) (omega arith))

twice : (q k : ℕ) → q * 2 ^ suc k ≡ q * 2 ^ k * 2
twice q k = omega (arith, ap (λ (t : ℕ). q * t) (pow-suc 2 k))

-- A field that is put above `k` bits is added.
pub or_above : (k low q : ℕ) → low < 2 ^ k → bit_or low (q * 2 ^ k) ≡ low + q * 2 ^ k
or_above zero zero q fits = omega (arith, bit_or-bitwise 0 (q * 2 ^ 0))
or_above zero (suc low) q fits = absurd (omega arith)
or_above (suc k) low q fits = ground (
  arith,
  or_digit low (q * 2 ^ suc k),
  twice q k,
  pow-suc 2 k,
  or_above k (low / 2) q (omega (arith, pow-suc 2 k)),
)

and_field : (k q low : ℕ) → low < 2 ^ k → bit_and (q * 2 ^ k + low) (2 ^ k - 1) ≡ low
and_field zero q low fits =
    omega (arith, and_zero (q * 2 ^ 0 + low) (q * 2 ^ 0 + low) (omega arith))
and_field (suc k) q low fits = ground (
  arith,
  and_digit (q * 2 ^ suc k + low) (2 ^ suc k - 1),
  twice q k,
  pow-suc 2 k,
  and_field k q (low / 2) (omega (arith, pow-suc 2 k)),
)

-- The mask of `k` ones keeps the remainder by `2 ^ k`.
pub and_low : (k a : ℕ) → bit_and a (2 ^ k - 1) ≡ a % 2 ^ k
and_low k a = ground (arith, one-le-pow k 2, and_field k (a / 2 ^ k) (a % 2 ^ k))
