-- ===== src/Timer/Due.antt =====
-- How a turn of the wheel by one spoke moves when a timer is due (the advance of the index in
-- `stw_timer_tick` of src/timer/base_timer.c).
use basearch.Prelude.{
  ℕ, zero, suc, ◌+◌, ◌-◌, ◌*◌, ◌%◌, ◌^◌, ◌≤◌, ◌<◌, ◌≡◌, ◌≢◌, ap, ◌∙◌, inl, inr, ◌⊎◌, false, arith,
  subst, ltb,
}
use native.Mathlib.Nat.{mod-eq_of_lt, mod_self}
use native.Mathlib.Decide.{ℕ_discrete}
use basearch.Timer.Invariant.{due}

-- The spoke behind `i`.
pub next_index :
    (n i : ℕ)
    → i < n
    → n ≤ 2 ^ 31
    → ((i + 1) % 2 ^ 32 % n ≡ i + 1) × (i + 1 < n) ⊎ ((i + 1) % 2 ^ 32 % n ≡ 0) × (i + 1 ≡ n)
next_index n i lt fits =
    let f : (i + 1) % 2 ^ 32 ≡ i + 1 = omega arith in
    elim (ℕ_discrete (i + 1) n) [
      | yes e ↦ inr (ap (λ x. x % n) (f ∙ e) ∙ mod_self n, e)
      | no ne ↦ let k : i + 1 < n = omega arith in inl (ap (λ x. x % n) f ∙ mod-eq_of_lt k, k)
    ]

-- How the tick moves what is due.
module _ (n i i' : ℕ) (lt : i < n) (fits : n ≤ 2 ^ 31) (next : i' ≡ (i + 1) % 2 ^ 32 % n) where
  pub due_far : (j r : ℕ) → j < n → j ≢ i' → due n i j r ≡ suc (due n i' j r)
  due_far j r lj ne = elim (next_index n i lt fits) [
    | inl (e, k) ↦ ground (arith, next, e)
    | inr (e, k) ↦ ground (arith, next, e)
  ]

  pub due_near : (j r : ℕ) → j ≡ i' → due n i j r ≡ suc (r * n)
  due_near j r q = elim (next_index n i lt fits) [
    | inl (e, k) ↦ ground (arith, next, e)
    | inr (e, k) ↦ ground (arith, next, e)
  ]

-- On the spoke where the wheel stands a timer waits whole turns.
pub due_here : (n i r : ℕ) → 0 < r → due n i i (r - 1) ≡ r * n
due_here n i (suc r) lt = let q : ltb i i ≡ false = ground arith in rw q (grind arith)
due_here n i zero lt = absurd (omega arith)

pub due_one : (n r d : ℕ) → r ≡ 0 → suc (r * n) ≡ d → d ≡ 1
due_one n r d z e = let q : suc (0 * n) ≡ d = subst (λ u. suc (u * n) ≡ d) z e in omega arith

pub due_pos : (n i j r : ℕ) → i < n → 0 < due n i j r
due_pos n i j r lt = ground arith
