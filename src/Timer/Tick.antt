-- ===== src/Timer/Tick.antt =====
-- A turn of the wheel by one spoke (`stw_timer_tick` of src/timer/base_timer.c): it ends, it leaves
-- a wheel, and each timer that is due fires.
use basearch.Prelude.{
  ℕ, ◌-◌, ◌*◌, ◌/◌, ◌<◌, ◌≡◌, ◌≢◌, refl, sym, ap, ◌∙◌, inl, inr, ◌⊎◌, some, List, [], ◌++◌, arith,
}
use native.Mathlib.Nat.{div-add-mod'}
use basearch.Timer.{State, Cell, Call, advance, stw_timer_tick, ticks_of}
use basearch.Timer.Store.{count_nil, asked}
use basearch.Timer.Rings.{Spokes, IsTimer}
use basearch.Timer.Lists.{total}
use basearch.Timer.Invariant.{IsWheel, shape, due, arrival, Armed, calls_of}
use basearch.Timer.Enqueue.{due_new, whole_turns}
use basearch.Timer.Visit.{call_of}
use basearch.Timer.Visit.Own.{At, Idle}
use basearch.Timer.Phase.{Phase, elsewhere, waiting, counted, fired, put_back, put_back_counted}
use basearch.Timer.Due.{due_far, due_near, due_here, due_one, due_pos}
use basearch.Timer.Follow.{advance-IsWheel, Ticked, ticked}

-- What a tick makes of a timer that is due after `d` ticks.
pub data Met (t d : ℕ) (s : State) (l : Spokes) (s' : State) (l' : Spokes) : Type 0 where
  waits :
      1 < d
      → Armed s' l' t (d - 1)
      → asked (s'.mem t) ≡ asked (s.mem t)
      → calls_of t s'.calls ≡ calls_of t s.calls
      → Met t d s l s' l'
  fires :
      d ≡ 1
      → (s.mem t).periodic_delay ≡ 0
      → Idle t s' l' (calls_of t s.calls ++ call_of t (s.mem t))
      → Met t d s l s' l'
  repeats :
      (d' : ℕ)
      → d ≡ 1
      → 0 < (s.mem t).periodic_delay
      → Armed s' l' t d'
      → (d' ≡ arrival s.stw (s.mem t).periodic_delay)
        ⊎ (d' ≡ ticks_of s.stw.granularity (s.mem t).periodic_delay)
      → asked (s'.mem t) ≡ asked (s.mem t)
      → calls_of t s'.calls ≡ calls_of t s.calls ++ call_of t (s.mem t)
      → Met t d s l s' l'

pub Armed-At :
    {t j r : ℕ} {c : Cell} {cs : List Call} {s : State} {l : Spokes} (a : State) (d : ℕ)
    → shape s.stw ≡ shape a.stw
    → At t s l j r c cs
    → due a.stw.wheel_size a.stw.spoke_index j r ≡ d
    → Armed s l t d
Armed-At {t} {j} {r} a d e p time = record {
  spoke = j;
  on = p.on;
  time = ap (due _ _ j) p.left ∙ ap (λ w. due w.wheel_size w.spoke_index j r) e ∙ time;
}

-- The timer after the loop, by what the loop made of it.
module _ (t d : ℕ) (s : State) (l : Spokes) (v : IsWheel s l) (p : Armed s l t d) (s' : State)
    (l' : Spokes) (e : shape s'.stw ≡ shape (advance s).stw) where
  abbrev n : ℕ
  n = s.stw.wheel_size

  abbrev r : ℕ
  r = (s.mem t).rotation_count

  abbrev per : ℕ
  per = (s.mem t).periodic_delay

  met_by :
      Phase t (advance s) p.spoke r (asked (s.mem t)) (calls_of t s.calls) s' l' []
      → Met t d s l s' l'
  unfolding advance
  met_by (elsewhere ne z q) =
      let i' = (advance s).stw.spoke_index in
      let w = advance-IsWheel s l v in
      let far =
        due_far n s.stw.spoke_index i' v.index_lt v.size_fits refl p.spoke r
          (v.rings.within p.spoke t p.on) ne in
      let pos = due_pos n i' p.spoke r w.index_lt in
      waits (omega (arith, p.time)) (Armed-At (advance s) (d - 1) e q (omega (arith, p.time)))
        q.wants q.made
  met_by (waiting q c x) = absurd (omega (arith, count_nil t))
  met_by (counted q z ne x) =
      let i' = (advance s).stw.spoke_index in
      let w = advance-IsWheel s l v in
      let near = due_near n s.stw.spoke_index i' v.index_lt v.size_fits refl p.spoke r q in
      let here = due_here n i' r (omega arith) in
      let pos = due_pos n i' i' (r - 1) w.index_lt in
      waits (omega (arith, p.time))
        (Armed-At (advance s) (d - 1) e x (ap (λ j. due n i' j (r - 1)) q ∙ omega (arith, p.time)))
        x.wants x.made
  met_by (fired q z zero_r once x) =
      let i' = (advance s).stw.spoke_index in
      let near = due_near n s.stw.spoke_index i' v.index_lt v.size_fits refl p.spoke r q in
      fires (due_one n r d zero_r (sym near ∙ p.time)) once x
  met_by (put_back q zero_r lt x) =
      let i' = (advance s).stw.spoke_index in
      let w = advance-IsWheel s l v in
      let near = due_near n s.stw.spoke_index i' v.index_lt v.size_fits refl p.spoke r q in
      repeats (arrival s.stw per) (due_one n r d zero_r (sym near ∙ p.time)) lt
        (Armed-At (advance s) (arrival s.stw per) e x
          (due_new (advance s) t per w.index_lt w.size_fits))
        (inl refl) x.wants x.made
  met_by (put_back_counted q z zero_r lt same pos x) =
      let i' = (advance s).stw.spoke_index in
      let w = advance-IsWheel s l v in
      let k = ticks_of s.stw.granularity per in
      let near = due_near n s.stw.spoke_index i' v.index_lt v.size_fits refl p.spoke r q in
      let here = due_here n i' (k / n) pos in
      let whole = whole_turns (advance s) per w.index_lt w.size_fits same in
      let parts = div-add-mod' k n in
      repeats k (due_one n r d zero_r (sym near ∙ p.time)) lt
        (Armed-At (advance s) k e x (omega arith)) (inr refl) x.wants x.made

  where_ : At t (advance s) l p.spoke r (asked (s.mem t)) (calls_of t s.calls)
  unfolding advance
  where_ = record { on = p.on; left = refl; wants = refl; made = refl }

pub met_at :
    (fuel stw t d : ℕ) (s : State) (l : Spokes)
    → IsTimer s.stw.spokes s.stw.wheel_size t
    → Armed s l t d
    → IsWheel s l
    → (k : Ticked fuel stw s l) → Met t d s l k.last k.lists
unfolding advance
met_at fuel stw t d s l new p v k =
    let (e, timers, _) = k.follows in
    met_by t d s l v p k.last k.lists e
      (timers t p.spoke _ _ _ new (where_ t d s l v p k.last k.lists e))

pub tick_lem :
    (fuel stw t d : ℕ) (s : State) (l : Spokes)
    → stw ≢ 0
    → 2 * total s.stw.wheel_size l < fuel
    → IsTimer s.stw.spokes s.stw.wheel_size t
    → Armed s l t d
    → IsWheel s l
    → (s' : State) × (l' : Spokes) × (stw_timer_tick fuel stw s ≡ some s')
      × IsWheel s' l'
      × Met t d s l s' l'
tick_lem fuel stw t d s l ne enough new p v =
    let k = ticked fuel stw s l ne v enough in
    (k.last, k.lists, k.runs, k.valid, met_at fuel stw t d s l new p v k)
