-- ===== src/Prelude/Words.antt =====
-- Bitwise operations on machine words, from the lowest bit on, and the bits of their results.
use Prim.Native.Nat.{ℕ, zero, suc, ◌+◌, ◌*◌, ◌/◌, ◌%◌, ◌<◌}
use mathlib.Core.Path.{◌≡◌, refl, ap, sym, ◌∙◌}
use mathlib.Core.Logic.{◌≢◌, inl, inr}
use mathlib.Core.Bool.{Bool, true, false, ◌&&◌, ◌||◌, not}
use native.Mathlib.Omega.{arith}
use basearch.Prelude.Tests.{◌==◌, if◌then◌else◌, Bool-cases}

-- `w & 1`, as a truth value
abbrev pub odd : ℕ → Bool
odd a = a % 2 == 1

-- Bit `i` of a word
abbrev pub bit_at : ℕ → ℕ → Bool
bit_at zero a = odd a
bit_at (suc i) a = bit_at i (a / 2)

-- The word of `w` bits whose bits are `f` of those of `a` and `b`.
unfoldable pub zip_bits : (Bool → Bool → Bool) → ℕ → ℕ → ℕ → ℕ
zip_bits f zero a b = 0
zip_bits f (suc w) a b =
    let rest = zip_bits f w (a / 2) (b / 2) in (if f (odd a) (odd b) then 1 else 0) + 2 * rest

-- `a & b`, `a | b` and `a & ~b` on 32 bits
abbrev pub and32 : ℕ → ℕ → ℕ
and32 a b = zip_bits (λ x y. x && y) 32 a b

abbrev pub or32 : ℕ → ℕ → ℕ
or32 a b = zip_bits (λ x y. x || y) 32 a b

abbrev pub and_not32 : ℕ → ℕ → ℕ
and_not32 a b = zip_bits (λ x y. x && not y) 32 a b

pub odd-cons : (c : Bool) (r : ℕ) → odd ((if c then 1 else 0) + 2 * r) ≡ c
odd-cons true r = ground arith
odd-cons false r = ground arith

half-cons : (c : Bool) (r : ℕ) → ((if c then 1 else 0) + 2 * r) / 2 ≡ r
half-cons true r = omega arith
half-cons false r = omega arith

pub bit_at-zip_bits :
    (f : Bool → Bool → Bool) (w i a b : ℕ)
    → i < w
    → bit_at i (zip_bits f w a b) ≡ f (bit_at i a) (bit_at i b)
unfolding zip_bits
bit_at-zip_bits f zero i a b lt = absurd (omega arith)
bit_at-zip_bits f (suc w) zero a b lt = odd-cons (f (odd a) (odd b)) (zip_bits f w (a / 2) (b / 2))
bit_at-zip_bits f (suc w) (suc i) a b lt =
    ap (bit_at i) (half-cons (f (odd a) (odd b)) (zip_bits f w (a / 2) (b / 2)))
    ∙ bit_at-zip_bits f w i (a / 2) (b / 2) (omega arith)

pub bit_at-zero : (i : ℕ) → bit_at i 0 ≡ false
bit_at-zero zero = refl
bit_at-zero (suc i) = bit_at-zero i

-- A word with no bit is 0.
pub zip_bits-zero :
    (f : Bool → Bool → Bool) (w a b : ℕ)
    → ((i : ℕ) → i < w → f (bit_at i a) (bit_at i b) ≡ false)
    → zip_bits f w a b ≡ 0
unfolding zip_bits
zip_bits-zero f zero a b h = refl
zip_bits-zero f (suc w) a b h =
    let low : f (odd a) (odd b) ≡ false = h 0 (omega arith) in
    let rest : zip_bits f w (a / 2) (b / 2) ≡ 0 =
      zip_bits-zero f w (a / 2) (b / 2) (λ i lt. h (suc i) (omega arith)) in
    rw (low, rest)

-- A word that is not 0 has a bit.
pub zip_bits-some :
    (f : Bool → Bool → Bool) (w a b : ℕ)
    → zip_bits f w a b ≢ 0
    → (i : ℕ) × (i < w) × (f (bit_at i a) (bit_at i b) ≡ true)
unfolding zip_bits
zip_bits-some f zero a b ne = absurd (ne refl)
zip_bits-some f (suc w) a b ne = elim (Bool-cases (f (odd a) (odd b))) [
  | inl low ↦ (0, omega arith, low)
  | inr low ↦
      let rest : zip_bits f w (a / 2) (b / 2) ≢ 0 = λ e. ne (rw (low, e)) in
      let (i, lt, bit) = zip_bits-some f w (a / 2) (b / 2) rest in (suc i, omega arith, bit)
]

-- Words whose common part is 0 have no bit in common.
pub no_common : (a b : ℕ) → and32 a b ≡ 0 → (i : ℕ) → i < 32 → (bit_at i a && bit_at i b) ≡ false
no_common a b e i lt =
    sym (bit_at-zip_bits (λ x y. x && y) 32 i a b lt) ∙ ap (bit_at i) e ∙ bit_at-zero i
