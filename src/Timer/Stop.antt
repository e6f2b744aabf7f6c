-- ===== src/Timer/Stop.antt =====
-- Timers taken off their spoke: `stw_timer_stop`, and what `stw_timer_start` begins with, of
-- src/timer/base_timer.c.
use basearch.Prelude.{
  ℕ, ◌%◌, ◌^◌, ◌<◌, ◌≡◌, ◌≢◌, refl, sym, ap, ◌∙◌, inl, inr, true, false, arith, subst, ◌==◌, ==_iff,
  eq_false_of_ne, Bool-cases,
}
use basearch.Timer.{
  Store, State, ok, magic, incr, decr, set_active, set_next, set_prev, unlink, restart, check,
  stop_checked, stw_timer_stop, stw_timer_running,
}
use basearch.Timer.Store.{asked, count, next-set_same, next-set_prev}
use basearch.Timer.Splice.{Bypass, unlink-Bypass, Bypass-clear}
use basearch.Timer.Rings.{Spokes, IsTimer}
use basearch.Timer.Lists.{without, total, without-Rings, without_absent, total-without}
use basearch.Timer.Invariant.{IsWheel, Same, Placed, shape, moved}
use basearch.Timer.Unlink.{neighbours_of, next_set, Bypass-Same, job-unlink, job-clear, decr_total}

pub check_passes :
    (stw tmr : ℕ) (s : State) (l : Spokes)
    → stw ≢ 0
    → 0 < tmr
    → IsWheel s l
    → check stw tmr s.stw ≡ ok
unfolding check
check_passes stw tmr s l a b v =
    let p : (stw == 0) ≡ false = eq_false_of_ne _ _ a in
    let q : (tmr == 0) ≡ false = eq_false_of_ne _ _ (λ e. absurd (omega arith)) in
    let t : (s.stw.magic_tag == magic) ≡ true = (==_iff _ _).1 v.tagged in rw (p, q, t)

-- A timer taken off its spoke, if it is on one.
module _ (s : State) (l : Spokes) (t : ℕ) (v : IsWheel s l) where
  pub restart_idle : (s.mem t).next ≡ 0 → restart t s ≡ s
  unfolding restart
  restart_idle e = let q : ((s.mem t).next == 0) ≡ true = (==_iff _ _).1 e in rw q

  pub restart_on :
      (s.mem t).next ≢ 0
      → restart t s ≡ record (set_active (decr s.stw.timer_active) s) { mem = unlink t s.mem }
  unfolding restart
  restart_on ne = let q : ((s.mem t).next == 0) ≡ false = eq_false_of_ne _ _ ne in rw q

  off_active :
      (j : ℕ)
      → 0 < count t (l j)
      → decr s.stw.timer_active ≡ total s.stw.wheel_size (without t l) % 2 ^ 32
  off_active j on = decr_total _ _ _ (total-without v.rings j t on) v.active

  pub restart-IsWheel : Placed t s l → IsWheel (restart t s) (without t l)
  restart-IsWheel (inl (j, on)) = rw (restart_on (next_set v.rings j t on)) (
      moved _ (without t l) v refl
        (without-Rings s.mem (unlink t s.mem) _ _ l j t v.rings on (unlink-Bypass t s.mem))
        (off_active j on))
  restart-IsWheel (inr (z, o)) =
      rw (restart_idle z) (subst (λ k. IsWheel s k) (sym (without_absent t l o)) v)

  pub restart-Same :
      (u : ℕ)
      → Placed t s l
      → IsTimer s.stw.spokes s.stw.wheel_size u
      → t ≢ u
      → Same u s (restart t s) l (without t l)
  restart-Same u (inl (j, on)) new ne = rw (restart_on (next_set v.rings j t on)) (
      Bypass-Same s _ l j t u v.rings on new ne (unlink-Bypass t s.mem) (job-unlink t u s.mem) refl)
  restart-Same u (inr (z, o)) new ne =
      rw (restart_idle z, without_absent t l o)
        (record { kept = refl; called = refl; place = λ k. refl; idle = λ p q. p })

  stop_idle : (s.mem t).next ≡ 0 → stop_checked t s ≡ s
  unfolding stop_checked
  stop_idle e = let q : ((s.mem t).next == 0) ≡ true = (==_iff _ _).1 e in rw q

  abbrev stopped : State
  stopped = record s {
    mem = set_prev t 0 (set_next t 0 (unlink t s.mem));
    stw = record s.stw {
      timer_active = decr s.stw.timer_active;
      timer_cancelled = incr s.stw.timer_cancelled;
    };
  }

  stop_on : (s.mem t).next ≢ 0 → stop_checked t s ≡ stopped
  unfolding stop_checked
  stop_on ne = let q : ((s.mem t).next == 0) ≡ false = eq_false_of_ne _ _ ne in rw q

  stopped-Bypass :
      (j : ℕ) → 0 < count t (l j) → Bypass s.mem stopped.mem t (s.mem t).prev (s.mem t).next
  stopped-Bypass j on =
      let (_, _, p, q) = neighbours_of v.rings j t on in
      Bypass-clear s.mem (unlink t s.mem) t _ _ p q (unlink-Bypass t s.mem)

  pub stop-IsWheel : Placed t s l → IsWheel (stop_checked t s) (without t l)
  stop-IsWheel (inl (j, on)) = rw (stop_on (next_set v.rings j t on)) (
      moved _ (without t l) v refl
        (without-Rings s.mem stopped.mem _ _ l j t v.rings on (stopped-Bypass j on))
        (off_active j on))
  stop-IsWheel (inr (z, o)) =
      rw (stop_idle z) (subst (λ k. IsWheel s k) (sym (without_absent t l o)) v)

  pub stop-Same :
      (u : ℕ)
      → Placed t s l
      → IsTimer s.stw.spokes s.stw.wheel_size u
      → t ≢ u
      → Same u s (stop_checked t s) l (without t l)
  stop-Same u (inl (j, on)) new ne = rw (stop_on (next_set v.rings j t on)) (
      Bypass-Same s _ l j t u v.rings on new ne (stopped-Bypass j on)
        (job-clear t u (unlink t s.mem) ∙ job-unlink t u s.mem) refl)
  stop-Same u (inr (z, o)) new ne =
      rw (stop_idle z, without_absent t l o)
        (record { kept = refl; called = refl; place = λ k. refl; idle = λ p q. p })

  pub stop_next : Placed t s l → ((stop_checked t s).mem t).next ≡ 0
  stop_next (inl (j, on)) =
      rw (stop_on (next_set v.rings j t on))
        (next-set_prev t 0 t _ ∙ next-set_same t 0 t (unlink t s.mem) refl)
  stop_next (inr (z, o)) = rw (stop_idle z) z

pub stop-shape : (t : ℕ) (s : State) → shape (stop_checked t s).stw ≡ shape s.stw
unfolding stop_checked
stop-shape t s = elim (Bool-cases ((s.mem t).next == 0)) [ inl e ↦ rw e | inr e ↦ rw e ]

pub stop-asked : (t u : ℕ) (s : State) → asked ((stop_checked t s).mem u) ≡ asked (s.mem u)
unfolding stop_checked
stop-asked t u s = elim (Bool-cases ((s.mem t).next == 0)) [
  | inl e ↦ rw e
  | inr e ↦ rw e (ap asked (job-clear t u (unlink t s.mem) ∙ job-unlink t u s.mem))
]

pub not_running : (t : ℕ) (m : Store) → (m t).next ≡ 0 → stw_timer_running t m ≡ false
unfolding stw_timer_running
not_running t m e =
    let q : ((m t).next == 0) ≡ true = (==_iff _ _).1 e in
    elim (Bool-cases (t == 0)) [ inl z ↦ rw z | inr z ↦ rw (z, q) ]

-- A stop of a timer that is on a spoke, or is prepared and on none, succeeds: the timer is on no
-- spoke and does not run, the other timers stay in their order, the lists are whole and the count
-- of active timers is that of the timers on the spokes.
pub stop_lem :
    (stw t : ℕ) (s : State) (l : Spokes)
    → stw ≢ 0
    → IsTimer s.stw.spokes s.stw.wheel_size t
    → Placed t s l
    → IsWheel s l
    → (stw_timer_stop stw t s ≡ (ok, stop_checked t s))
      × IsWheel (stop_checked t s) (without t l)
      × (stw_timer_running t (stop_checked t s).mem ≡ false)
unfolding stw_timer_stop
stop_lem stw t s l a new place v =
    let c = check_passes stw t s l a new.nonnull v in
    (rw (stw_timer_stop, c), stop-IsWheel s l t v place, not_running t _ (stop_next s l t v place))
