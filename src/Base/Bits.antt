-- ===== src/Base/Bits.antt =====
-- Laws of the native `bit_or` and `bit_and` at variables.
use Prim.Native.Nat.{
  ℕ, zero, suc, ◌+◌, ◌-◌, ◌*◌, ◌/◌, ◌%◌, ◌^◌, ◌≤◌, ◌<◌, min, max, bit_and, bit_or, digits,
  bit_and-bitwise, bit_or-bitwise,
}
use mathlib.Core.Path.{◌≡◌, refl, ap}
use mathlib.Core.Bool.{Bool, true, false, not, ◌&&◌}
use native.Mathlib.Nat.{pow-suc, one-le-pow}
use native.Mathlib.Omega.{arith}

-- A statement about every number below a bound, checked by evaluation.
unfoldable pub all_below : ℕ → (ℕ → Bool) → Bool
all_below zero test = true
all_below (suc bound) test = test bound && all_below bound test

pub all_below_sound :
    (bound : ℕ) (test : ℕ → Bool) (c : ℕ) → all_below bound test ≡ true → c < bound → test c ≡ true
unfolding all_below
all_below_sound zero test c holds inside = absurd (omega arith)
all_below_sound (suc bound) test c holds inside = ground (arith, all_below_sound bound test c)

abbrev pub same : Bool → Bool → Bool
same true b = b
same false b = not b

same-eq : (a b : Bool) → same a b ≡ true → a ≡ b
same-eq a b h = ground arith

-- Two tests that agree on every byte.
pub agree_tests :
    (f g : ℕ → Bool) → all_below 256 (λ x. same (f x) (g x)) ≡ true → (x : ℕ) → x < 256 → f x ≡ g x
agree_tests f g t x h = same-eq (f x) (g x) (all_below_sound 256 (λ x. same (f x) (g x)) x t h)

-- The recursion behind the two operations does not depend on its fuel.
module _ (rest : ℕ → ℕ) (join : ℕ → ℕ → ℕ) where
  digits-enough :
      (fuel0 more u w : ℕ)
      → u ≤ fuel0
      → u ≤ more
      → digits rest join fuel0 u w ≡ digits rest join more u w
  digits-enough zero zero u w below hi = refl
  digits-enough zero (suc more) zero w below hi = refl
  digits-enough zero (suc more) (suc u) w below hi = absurd (omega arith)
  digits-enough (suc fuel0) zero zero w below hi = refl
  digits-enough (suc fuel0) zero (suc u) w below hi = absurd (omega arith)
  digits-enough (suc fuel0) (suc more) zero w below hi = refl
  digits-enough (suc fuel0) (suc more) (suc u) w below hi =
      omega (arith, digits-enough fuel0 more (suc u / 2) (w / 2) (omega arith) (omega arith))

-- `|` digit by digit.
bit_or-last_digit : (u w : ℕ) → bit_or u w ≡ bit_or (u / 2) (w / 2) * 2 + max (u % 2) (w % 2)
bit_or-last_digit zero w = omega (arith, bit_or-bitwise 0 w, bit_or-bitwise 0 (w / 2))
bit_or-last_digit (suc u) w = omega (
  arith,
  bit_or-bitwise (suc u) w,
  bit_or-bitwise (suc u / 2) (w / 2),
  digits-enough (λ t0. t0) max u (suc u / 2) (suc u / 2) (w / 2) (omega arith) (omega arith),
)

shift_one_more : (hi k : ℕ) → hi * 2 ^ suc k ≡ 2 * (hi * 2 ^ k)
shift_one_more hi k = omega (arith, ap (λ (t : ℕ). hi * t) (pow-suc 2 k))

-- `lo | (hi << k)` is a sum where `lo` fits into the low `k` bits.
pub bit_or_low_high : (k lo hi : ℕ) → lo < 2 ^ k → bit_or lo (hi * 2 ^ k) ≡ lo + hi * 2 ^ k
bit_or_low_high zero lo hi fits = ground (arith, bit_or-bitwise 0 hi)
bit_or_low_high (suc k) lo hi fits = ground (
  arith,
  bit_or-last_digit lo (hi * 2 ^ suc k),
  shift_one_more hi k,
  pow-suc 2 k,
  bit_or_low_high k (lo / 2) hi,
)

-- `w | 0x80` sets the top bit of a group of seven bits.
pub bit_or_128 : (w : ℕ) → w < 128 → bit_or w 0x80 ≡ w + 128
bit_or_128 w fits = bit_or_low_high 7 w 1 fits

-- `&` digit by digit, and with a mask of `k` low bits.
bit_and-last_digit : (u w : ℕ) → bit_and u w ≡ bit_and (u / 2) (w / 2) * 2 + min (u % 2) (w % 2)
bit_and-last_digit zero w = omega (arith, bit_and-bitwise 0 w, bit_and-bitwise 0 (w / 2))
bit_and-last_digit (suc u) w = omega (
  arith,
  bit_and-bitwise (suc u) w,
  bit_and-bitwise (suc u / 2) (w / 2),
  digits-enough (λ t0. zero) min u (suc u / 2) (suc u / 2) (w / 2) (omega arith) (omega arith),
)

bit_and-zero : (fuel u : ℕ) → u ≤ fuel → bit_and u 0 ≡ 0
bit_and-zero fuel zero fits = refl
bit_and-zero zero (suc u) fits = absurd (omega arith)
bit_and-zero (suc fuel) (suc u) fits =
    omega (arith, bit_and-last_digit (suc u) 0, bit_and-zero fuel (suc u / 2) (omega arith))

-- A mask of low bits leaves the low field.
bit_and-low : (k lo hi : ℕ) → lo < 2 ^ k → bit_and (lo + hi * 2 ^ k) (2 ^ k - 1) ≡ lo
bit_and-low zero lo hi fits = omega (arith, bit_and-zero (lo + hi * 1) (lo + hi * 1) (omega arith))
bit_and-low (suc k) lo hi fits = ground (
  arith,
  bit_and-last_digit (lo + hi * 2 ^ suc k) (2 ^ suc k - 1),
  shift_one_more hi k,
  pow-suc 2 k,
  one-le-pow k 2,
  bit_and-low k (lo / 2) hi,
)

pub bit_and_127 : (u : ℕ) → bit_and u 0x7F ≡ u % 128
bit_and_127 u = ground (arith, bit_and-low 7 (u % 128) (u / 128) (omega arith))
