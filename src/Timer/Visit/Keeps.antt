-- ===== src/Timer/Visit/Keeps.antt =====
-- What meeting one timer leaves: the wheel whole, and the other timers as they were
-- (`stw_timer_tick` of src/timer/base_timer.c).
use basearch.Prelude.{ℕ, ◌-◌, ◌<◌, ◌≡◌, ◌≢◌, refl, sym, ap, ◌∙◌, ◌++◌, append-nil, arith, subst}
use native.Mathlib.Decide.{ℕ_discrete}
use basearch.Timer.{State, incr, set_active, set_rotation, visit, tmr_enqueue_unlocked}
use basearch.Timer.Store.{count, job, next-set_rotation, prev-set_rotation, set_rotation-other}
use basearch.Timer.Splice.{Bypass, expire_links-Bypass}
use basearch.Timer.Rings.{Spokes, IsTimer}
use basearch.Timer.Lists.{without, add, without-Rings, total-without, total-add, count-without_self}
use basearch.Timer.Invariant.{IsWheel, Same, Same-trans, shape, moved, calls_of, calls_of-append}
use basearch.Timer.Enqueue.{spoke_of, spoke_lt, enqueue-Rings, enqueue-Same}
use basearch.Timer.Unlink.{
  Rings-frame, neighbours_of, Bypass-Same, job-expire_links, decr_total, incr_total,
}
use basearch.Timer.Start.{place-shape}
use basearch.Timer.Visit.{
  call_of, expired, visited, expired-mem, expired-stw, expired-calls, calls_of-other, visit_keep,
  visit_once, back, visit_again, visited_keep, visited_once, visited_again,
}

module _ (x : ℕ) (s : State) (l : Spokes) (v : IsWheel s l) (j : ℕ) (on : 0 < count x (l j)) where
  met : IsTimer s.stw.spokes s.stw.wheel_size x
  met = record { outer = λ k lt. v.rings.outer j x k on lt; nonnull = v.rings.nonnull j x on }

  expired-Bypass : Bypass s.mem (expired x s).mem x (s.mem x).prev (s.mem x).next
  expired-Bypass =
      let (_, _, p, q) = neighbours_of v.rings j x on in
      subst (λ m. Bypass s.mem m x (s.mem x).prev (s.mem x).next) (sym (expired-mem x s))
        (expire_links-Bypass x s.mem p q)

  pub expired-shape : shape (expired x s).stw ≡ shape s.stw
  expired-shape = ap shape (expired-stw x s)

  expired-IsWheel : IsWheel (expired x s) (without x l)
  expired-IsWheel =
      moved (expired x s) (without x l) v expired-shape
        (without-Rings s.mem (expired x s).mem _ _ l j x v.rings on expired-Bypass)
        (ap (λ w. w.timer_active) (expired-stw x s)
          ∙ decr_total _ _ _ (total-without v.rings j x on) v.active)

  expired-Same :
      (u : ℕ)
      → IsTimer s.stw.spokes s.stw.wheel_size u
      → x ≢ u
      → Same u s (expired x s) l (without x l)
  expired-Same u other ne =
      let b : Same u s (record (expired x s) { calls = s.calls }) l (without x l) =
        Bypass-Same s _ l j x u v.rings on other ne expired-Bypass
          (ap (λ m. job (m u)) (expired-mem x s) ∙ job-expire_links x u s.mem) refl in
      record {
        kept = b.kept;
        called =
            ap (calls_of u) (expired-calls x s)
            ∙ calls_of-append u s.calls (call_of x (s.mem x))
            ∙ ap (λ c. calls_of u s.calls ++ c) (calls_of-other x u (s.mem x) ne)
            ∙ append-nil (calls_of u s.calls);
        place = b.place;
        idle = b.idle;
      }

  met' : IsTimer (expired x s).stw.spokes (expired x s).stw.wheel_size x
  met' = subst (λ w. IsTimer w.spokes w.wheel_size x) (sym expired-shape) met

  gone : (k : ℕ) → count x (without x l k) ≡ 0
  gone k = count-without_self x k l

  pub spoke_same : (d : ℕ) → spoke_of (expired x s) d ≡ spoke_of s d
  spoke_same d = place-shape (expired x s).stw s.stw d expired-shape

  abbrev again : Spokes
  again = add (spoke_of s (s.mem x).periodic_delay) x (without x l)

  abbrev after : State
  after = set_active (incr (back x s).stw.timer_active) (back x s)

  again-IsWheel : IsWheel after again
  unfolding tmr_enqueue_unlocked
  again-IsWheel =
      let w = expired-IsWheel in
      let d = (s.mem x).periodic_delay in
      let e = expired x s in
      let r =
        moved after (add (spoke_of e d) x (without x l)) w refl
          (enqueue-Rings e x d w.rings w.index_lt met' gone)
          (incr_total _ _ _
            (total-add e.stw.wheel_size (spoke_of e d) x (without x l) (spoke_lt e x d w.index_lt))
            w.active) in
      subst (λ c. IsWheel after (add c x (without x l))) (spoke_same d) r

  again-Same : (u : ℕ) → IsTimer s.stw.spokes s.stw.wheel_size u → x ≢ u → Same u s after l again
  unfolding tmr_enqueue_unlocked
  again-Same u other ne =
      let w = expired-IsWheel in
      let d = (s.mem x).periodic_delay in
      let e = expired x s in
      let other' = subst (λ w. IsTimer w.spokes w.wheel_size u) (sym expired-shape) other in
      let b = enqueue-Same e x d w.rings w.index_lt met' gone u ne other' in
      let c = Same-trans (expired-Same u other ne) b in
      let r : Same u s after l (add (spoke_of e d) x (without x l)) = record {
        kept = c.kept;
        called = c.called;
        place = c.place;
        idle = c.idle;
      } in
      subst (λ c. Same u s after l (add c x (without x l))) (spoke_same d) r

  abbrev kept : State
  kept = record s { mem = set_rotation x ((s.mem x).rotation_count - 1) s.mem }

  kept-IsWheel : IsWheel kept l
  kept-IsWheel =
      let d = (s.mem x).rotation_count - 1 in
      moved kept l v refl
        (Rings-frame kept.mem (λ y. next-set_rotation x d y s.mem)
          (λ y. prev-set_rotation x d y s.mem) v.rings)
        v.active

  kept-Same : (u : ℕ) → x ≢ u → Same u s kept l l
  kept-Same u ne =
      let d = (s.mem x).rotation_count - 1 in
      record {
        kept = ap job (set_rotation-other x d u s.mem ne);
        called = refl;
        place = λ k. refl;
        idle = λ z o. next-set_rotation x d u s.mem ∙ z;
      }

  -- A property of the state and the spokes that the three ways establish.
  pub visit_rule :
      (P : State → Spokes → Type 0)
      → ((s.mem x).rotation_count ≢ 0 → P kept l)
      → ((s.mem x).rotation_count ≡ 0
          → (s.mem x).periodic_delay ≡ 0
          → P (expired x s) (without x l))
      → ((s.mem x).rotation_count ≡ 0 → 0 < (s.mem x).periodic_delay → P after again)
      → P (visit x s) (visited x s l)
  visit_rule P a b c = elim (ℕ_discrete (s.mem x).rotation_count 0) [
    | no ne ↦
        subst (λ t. P t (visited x s l)) (sym (visit_keep x s ne))
          (subst (λ k. P kept k) (sym (visited_keep x s l ne)) (a ne))
    | yes e ↦ elim (ℕ_discrete (s.mem x).periodic_delay 0) [
      | yes z ↦
          subst (λ t. P t (visited x s l)) (sym (visit_once x s e z))
            (subst (λ k. P (expired x s) k) (sym (visited_once x s l e z)) (b e z))
      | no nz ↦
          let lt : 0 < (s.mem x).periodic_delay = omega arith in
          subst (λ t. P t (visited x s l)) (sym (visit_again x s e lt))
            (subst (λ k. P after k) (sym (visited_again x s l e lt)) (c e lt))
    ]
  ]

  pub visit-IsWheel : IsWheel (visit x s) (visited x s l)
  visit-IsWheel =
      visit_rule IsWheel (λ _. kept-IsWheel) (λ _ _. expired-IsWheel) (λ _ _. again-IsWheel)

  pub visit-shape : shape (visit x s).stw ≡ shape s.stw
  unfolding tmr_enqueue_unlocked
  visit-shape =
      visit_rule (λ t _. shape t.stw ≡ shape s.stw) (λ _. refl) (λ _ _. expired-shape)
        (λ _ _. expired-shape)

  pub visit-Same :
      (u : ℕ)
      → IsTimer s.stw.spokes s.stw.wheel_size u
      → x ≢ u
      → Same u s (visit x s) l (visited x s l)
  visit-Same u other ne =
      visit_rule (λ t k. Same u s t l k) (λ _. kept-Same u ne) (λ _ _. expired-Same u other ne)
        (λ _ _. again-Same u other ne)
