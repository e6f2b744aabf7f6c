-- ===== src/Timer/Visit.antt =====
-- One timer met by the wheel: the body of the loop of `stw_timer_tick` (src/timer/base_timer.c).
pub mod Keeps
pub mod Step
pub mod Own
use basearch.Prelude.{
  ℕ, zero, suc, ◌+◌, ◌-◌, ◌/◌, ◌%◌, ◌^◌, ◌≤◌, ◌<◌, ◌≡◌, ◌≢◌, refl, sym, ap, ◌∙◌, inl, inr, ◌⊎◌,
  Bool, true, false, not, List, [], ◌∷◌, ◌++◌, append-nil, arith, subst, ◌==◌, ==_iff, ==_refl,
  eq_false_of_ne, ltb, lt→ltb, if◌then◌else◌, Bool-cases,
}
use native.Mathlib.Decide.{ℕ_discrete, dec_lt}
use basearch.Timer.{
  Cell, Store, State, Call, Wheel, incr, decr, set_active, write, set_next, set_prev, set_rotation,
  expire_links, expire, call_back, rearm, visit, tmr_enqueue_unlocked, ticks_of, cursor_of,
}
use basearch.Timer.Store.{
  count, job, asked, write-same, next-set_same, next-set_prev, next-set_rotation, prev-set_rotation,
  set_rotation-other,
}
use basearch.Timer.Splice.{Bypass, expire_links-Bypass}
use basearch.Timer.Rings.{Spokes, Rings, IsTimer}
use basearch.Timer.Lists.{
  without, total, add, without-Rings, total-without, total-add, count-without_self,
  count-without_other, count-add_self, count-add_other,
}
use basearch.Timer.Invariant.{IsWheel, Same, Same-trans, shape, moved, calls_of, calls_of-append}
use basearch.Timer.Enqueue.{
  spoke_of, turns_of, spoke_lt, enqueue-Rings, enqueue-Same, enqueue-rotation, enqueue-asked,
}
use basearch.Timer.Unlink.{
  Rings-frame, neighbours_of, Bypass-Same, job-expire_links, decr_total, incr_total,
}
use basearch.Timer.Start.{place-shape}

-- The call-back that a timer makes when it expires.
abbrev pub call_of : ℕ → Cell → List Call
call_of t c =
    if c.func_ptr == 0 then [] else record { func = c.func_ptr; tmr = t; parm = c.parm } ∷ []

abbrev pub expired : ℕ → State → State
expired x s = call_back x (expire x s)

-- The spokes after the timer is met.
unfoldable pub visited : ℕ → State → Spokes → Spokes
visited x s l =
    if (s.mem x).rotation_count == 0
    then (if ltb 0 (s.mem x).periodic_delay
        then add (spoke_of s (s.mem x).periodic_delay) x (without x l)
        else without x l)
    else l

pub expired-mem : (x : ℕ) (s : State) → (expired x s).mem ≡ expire_links x s.mem
unfolding call_back expire
expired-mem x s = elim (Bool-cases ((expire_links x s.mem x).func_ptr == 0)) [
  | inl e ↦ rw e
  | inr e ↦ rw e
]

pub expired-stw :
    (x : ℕ) (s : State)
    → (expired x s).stw ≡ record s.stw {
      timer_active = decr s.stw.timer_active;
      timer_expired = incr s.stw.timer_expired;
    }
unfolding call_back expire
expired-stw x s = elim (Bool-cases ((expire_links x s.mem x).func_ptr == 0)) [
  | inl e ↦ rw e
  | inr e ↦ rw e
]

call_back-calls : (t : ℕ) (s : State) → (call_back t s).calls ≡ s.calls ++ call_of t (s.mem t)
unfolding call_back
call_back-calls t s = elim (Bool-cases ((s.mem t).func_ptr == 0)) [
  | inl e ↦ rw e (sym (append-nil s.calls))
  | inr e ↦ rw e
]

pub expired-calls : (x : ℕ) (s : State) → (expired x s).calls ≡ s.calls ++ call_of x (s.mem x)
unfolding expire
expired-calls x s =
    call_back-calls x (expire x s) ∙ ap (λ c. s.calls ++ call_of x c) (job-expire_links x x s.mem)

-- The call-backs of a timer, and of another, after one.
pub calls_of-call : (t : ℕ) (c : Cell) → calls_of t (call_of t c) ≡ call_of t c
unfolding calls_of
calls_of-call t c =
    let q = ==_refl t in elim (Bool-cases (c.func_ptr == 0)) [ inl e ↦ rw e | inr e ↦ rw (e, q) ]

pub calls_of-other : (t u : ℕ) (c : Cell) → t ≢ u → calls_of u (call_of t c) ≡ []
unfolding calls_of
calls_of-other t u c ne =
    let q : (t == u) ≡ false = eq_false_of_ne t u ne in
    elim (Bool-cases (c.func_ptr == 0)) [ inl e ↦ rw e | inr e ↦ rw (e, q) ]

module _ (x : ℕ) (s : State) where
  -- The three ways in which a timer is met: it has rotations left, it is done, it is put back.
  pub visit_keep :
      (s.mem x).rotation_count ≢ 0
      → visit x s ≡ record s { mem = set_rotation x ((s.mem x).rotation_count - 1) s.mem }
  unfolding visit
  visit_keep ne = let q : ((s.mem x).rotation_count == 0) ≡ false = eq_false_of_ne _ _ ne in rw q

  visit_fires : (s.mem x).rotation_count ≡ 0 → visit x s ≡ rearm x (expired x s)
  unfolding visit
  visit_fires e = let q : ((s.mem x).rotation_count == 0) ≡ true = (==_iff _ _).1 e in rw q

  expired-period : ((expired x s).mem x).periodic_delay ≡ (s.mem x).periodic_delay
  expired-period =
      ap (λ m. (m x).periodic_delay) (expired-mem x s)
      ∙ ap (λ c. c.periodic_delay) (job-expire_links x x s.mem)

  pub visit_once :
      (s.mem x).rotation_count ≡ 0 → (s.mem x).periodic_delay ≡ 0 → visit x s ≡ expired x s
  unfolding rearm
  visit_once e z =
      let p = expired-period ∙ z in
      let q : ltb 0 ((expired x s).mem x).periodic_delay ≡ false = ground arith in
      visit_fires e ∙ rw (rearm, q)

  abbrev pub back : State
  back = tmr_enqueue_unlocked (expired x s) x (s.mem x).periodic_delay

  pub visit_again :
      (s.mem x).rotation_count ≡ 0
      → 0 < (s.mem x).periodic_delay
      → visit x s ≡ set_active (incr back.stw.timer_active) back
  unfolding rearm
  visit_again e lt =
      let p = expired-period in
      let q : ltb 0 ((expired x s).mem x).periodic_delay ≡ true = lt→ltb _ _ (omega arith) in
      visit_fires e
      ∙ rw (rearm, q)
          (ap
            (λ d.
              let t = tmr_enqueue_unlocked (expired x s) x d in
              set_active (incr t.stw.timer_active) t)
            p)

  module _ (l : Spokes) where
    pub visited_keep : (s.mem x).rotation_count ≢ 0 → visited x s l ≡ l
    unfolding visited
    visited_keep ne =
        let q : ((s.mem x).rotation_count == 0) ≡ false = eq_false_of_ne _ _ ne in rw q

    pub visited_once :
        (s.mem x).rotation_count ≡ 0 → (s.mem x).periodic_delay ≡ 0 → visited x s l ≡ without x l
    unfolding visited
    visited_once e z =
        let q : ((s.mem x).rotation_count == 0) ≡ true = (==_iff _ _).1 e in
        let p : ltb 0 (s.mem x).periodic_delay ≡ false = ground arith in rw (q, p)

    pub visited_again :
        (s.mem x).rotation_count ≡ 0
        → 0 < (s.mem x).periodic_delay
        → visited x s l ≡ add (spoke_of s (s.mem x).periodic_delay) x (without x l)
    unfolding visited
    visited_again e lt =
        let q : ((s.mem x).rotation_count == 0) ≡ true = (==_iff _ _).1 e in
        let p : ltb 0 (s.mem x).periodic_delay ≡ true = lt→ltb _ _ lt in rw (q, p)
