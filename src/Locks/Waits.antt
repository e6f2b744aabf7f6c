-- ===== src/Locks/Waits.antt =====
-- Timeouts of src/linux/base_mutex.c: the time that one is turned into, and the attempts of a take.
use basearch.Prelude.{
  ℕ, zero, suc, ◌+◌, ◌-◌, ◌*◌, ◌/◌, ◌%◌, ◌≤◌, ◌<◌, ◌≡◌, ◌≢◌, ◌↔◌, ap, ◌∙◌, inl, inr, true, false,
  some, arith, ltb, ◌==◌, ==_iff, eq_false_of_ne, Bool-cases,
}
use native.Mathlib.Decide.{ℕ_discrete}
use basearch.Locks.{pos, Code, rc, e_internal, e_full, e_param}
use basearch.Locks.Times.{Timespec, second, fwk_ms_to_ts, take_loop, fwk_take_semaphore}

-- A time in nanoseconds
abbrev pub nanos : Timespec → ℕ
nanos t = t.sec * second + t.nsec

-- The time that is returned is later than now by a second for each second and for each
-- millisecond that is left.
ms_to_ts-nanos :
    (timeout : ℕ) (now ts : Timespec)
    → fwk_ms_to_ts timeout now ≡ some ts
    → nanos ts ≡ nanos now + (timeout / 1000 + timeout % 1000) * second
unfolding fwk_ms_to_ts
ms_to_ts-nanos timeout now ts e = ground arith

ms_to_ts-defined :
    (timeout : ℕ) (now : Timespec)
    → timeout % 1000 ≡ 0
    → (ts : Timespec) × (fwk_ms_to_ts timeout now ≡ some ts)
unfolding fwk_ms_to_ts
ms_to_ts-defined timeout now z =
    let q : ltb 2 (timeout % 1000) ≡ false = ground arith in
    let ns = now.nsec + timeout % 1000 * second in
    let s = now.sec + timeout / 1000 in
    elim (Bool-cases (ltb ns second)) [
      | inl e ↦ (record { sec = s; nsec = ns }, rw (fwk_ms_to_ts, q, e))
      | inr e ↦ (record { sec = s + 1; nsec = ns - second }, rw (fwk_ms_to_ts, q, e))
    ]

-- The time for a timeout of milliseconds is the one that is meant, so many milliseconds from now,
-- exactly when the timeout is a whole number of seconds.
pub ms_to_ts_iff :
    (timeout : ℕ) (now : Timespec)
    → ((ts : Timespec) × (fwk_ms_to_ts timeout now ≡ some ts)
        × (nanos ts ≡ nanos now + timeout * 1000000))
      ↔ (timeout % 1000 ≡ 0)
ms_to_ts_iff timeout now = (
  λ (ts, e, right). let k = ms_to_ts-nanos timeout now ts e in omega arith,
  λ z.
      let (ts, e) = ms_to_ts-defined timeout now z in
      let k = ms_to_ts-nanos timeout now ts e in (ts, e, omega arith),
)

code_of : Code → ℕ
code_of (rc n) = n
code_of e_full = 1
code_of e_internal = 1
code_of e_param = 1

later : (i k : ℕ) (rcs : ℕ → ℕ) → i ≤ k → rcs i ≢ 0 → rcs k ≡ 0 → i + 1 ≤ k
later i k rcs le nz z = elim (ℕ_discrete i k) [
  | yes e ↦ absurd (nz (ap rcs e ∙ z))
  | no ne ↦ omega arith
]

take_loop_iff :
    (n i : ℕ) (rcs : ℕ → ℕ) (last : Code)
    → last ≢ rc 0
    → (take_loop n i rcs last ≡ rc 0) ↔ ((k : ℕ) × (i ≤ k) × (k < i + n) × (rcs k ≡ 0))
unfolding take_loop code_of
take_loop_iff zero i rcs last bad = (λ e. absurd (bad e), λ (k, a, b, _). absurd (omega arith))
take_loop_iff (suc n) i rcs last bad = elim (ℕ_discrete (rcs i) 0) [
  | yes z ↦
      let q : (rcs i == 0) ≡ true = (==_iff _ _).1 z in
      (λ e. (i, omega arith, omega arith, z), λ w. rw q)
  | no nz ↦
      let q : (rcs i == 0) ≡ false = eq_false_of_ne _ _ nz in
      let ih = take_loop_iff n (i + 1) rcs (rc (rcs i)) (λ e. nz (ap code_of e)) in
      rw q (
        λ e. let (k, a, b, c) = ih.0 e in (k, omega arith, omega arith, c),
        λ (k, a, b, c). ih.1 (k, later i k rcs a nz c, omega arith, c),
      )
]

-- A take with a timeout succeeds exactly when one of the attempts that it makes succeeds, of which
-- there is one for each 10 ms of the timeout: with less than 10 ms it makes none and fails.
pub take_semaphore_iff :
    (wait_rc : ℕ) (rcs : ℕ → ℕ) (sid timeout : ℕ)
    → 0 < timeout
    → (fwk_take_semaphore wait_rc rcs (some sid) (pos timeout) ≡ rc 0)
      ↔ ((k : ℕ) × (k < timeout / 10) × (rcs k ≡ 0))
unfolding fwk_take_semaphore
take_semaphore_iff wait_rc rcs sid zero h = absurd (omega arith)
take_semaphore_iff wait_rc rcs sid (suc n) h =
    let k = take_loop_iff (suc n / 10) 0 rcs e_internal (λ e. cc) in
    (
      λ e. let (j, _, b, c) = k.0 e in (j, omega arith, c),
      λ (j, b, c). k.1 (j, omega arith, omega arith, c),
    )
