-- ===== src/Cron/Bits.antt =====
-- Bit masks, as backend/src/scheduler/cron.rs uses a `u64`: `mask & (1 << k) != 0` and
-- `mask |= 1 << k`, by recursion on the binary digits.
use Prim.Native.Nat.{bit_or}
use dbx_plugin_files.Prelude.{
  ℕ, zero, suc, ◌+◌, ◌*◌, ◌/◌, ◌%◌, ◌^◌, Bool, false, not, ◌&&◌, ◌||◌, ◌==◌, ◌≡◌, refl, arith,
}

unfoldable pub has_bit : ℕ → ℕ → Bool
has_bit mask zero = mask % 2 == 1
has_bit mask (suc k) = has_bit (mask / 2) k

unfoldable pub set_bit : ℕ → ℕ → ℕ
set_bit mask zero = mask / 2 * 2 + 1
set_bit mask (suc k) = set_bit (mask / 2) k * 2 + mask % 2

-- `mask & !(1 << k)`.
unfoldable pub clear_bit : ℕ → ℕ → ℕ
clear_bit mask zero = mask / 2 * 2
clear_bit mask (suc k) = clear_bit (mask / 2) k * 2 + mask % 2

-- Setting a bit adds that bit and no other.
pub has_bit-set_bit : (mask k j : ℕ) → has_bit (set_bit mask k) j ≡ (k == j || has_bit mask j)
unfolding has_bit set_bit
has_bit-set_bit mask zero zero = ground arith
has_bit-set_bit mask zero (suc j) =
    let e : (mask / 2 * 2 + 1) / 2 ≡ mask / 2 = omega arith in rw e (ground arith)
has_bit-set_bit mask (suc k) zero = ground arith
has_bit-set_bit mask (suc k) (suc j) =
    let e : (set_bit (mask / 2) k * 2 + mask % 2) / 2 ≡ set_bit (mask / 2) k = omega arith in
    rw (e, has_bit-set_bit (mask / 2) k j) (ground arith)

-- Clearing a bit removes that bit and no other.
pub has_bit-clear_bit :
    (mask k j : ℕ) → has_bit (clear_bit mask k) j ≡ (not (k == j) && has_bit mask j)
unfolding has_bit clear_bit
has_bit-clear_bit mask zero zero = ground arith
has_bit-clear_bit mask zero (suc j) =
    let e : mask / 2 * 2 / 2 ≡ mask / 2 = omega arith in rw e (ground arith)
has_bit-clear_bit mask (suc k) zero = ground arith
has_bit-clear_bit mask (suc k) (suc j) =
    let e : (clear_bit (mask / 2) k * 2 + mask % 2) / 2 ≡ clear_bit (mask / 2) k = omega arith in
    rw (e, has_bit-clear_bit (mask / 2) k j) (ground arith)

pub has_bit-zero : (k : ℕ) → has_bit 0 k ≡ false
unfolding has_bit
has_bit-zero zero = refl
has_bit-zero (suc k) = has_bit-zero k

set_bit_or : set_bit 0x2a5 7 ≡ bit_or 0x2a5 (2 ^ 7)
unfolding set_bit
set_bit_or = refl
