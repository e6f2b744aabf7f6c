-- ===== src/Timer/History.antt =====
-- Ticks, and starts and stops of other timers, in any order: when a timer fires
-- (src/timer/base_timer.c).
use basearch.Prelude.{
  ℕ, suc, ◌-◌, ◌*◌, ◌≤◌, ◌<◌, ◌≡◌, ◌≢◌, refl, sym, ap, ap₂, ◌∙◌, inl, inr, Option, none, some, ◌++◌,
  arith, subst, ◌==◌, Bool-cases,
}
use basearch.Timer.{
  State, Request, ok, stw_timer_start, stw_timer_stop, stw_timer_tick, start_checked, stop_checked,
  count_start, tmr_enqueue, tmr_enqueue_unlocked, advance, restart,
}
use basearch.Timer.Store.{asked}
use basearch.Timer.Rings.{Spokes, IsTimer}
use basearch.Timer.Lists.{total}
use basearch.Timer.Invariant.{IsWheel, Same, Placed, shape, Armed, calls_of}
use basearch.Timer.Stop.{stop-Same, stop_lem, stop-shape}
use basearch.Timer.Start.{start_lem, start-Same}
use basearch.Timer.Visit.{call_of}
use basearch.Timer.Visit.Own.{At, Idle}
use basearch.Timer.Phase.{At-Same, Idle-Same}
use basearch.Timer.Follow.{Ticked, ticked}
use basearch.Timer.Tick.{met_at, waits, fires, repeats, Armed-At}
use basearch.Timer.Unique.{lists_unique}

start-shape : (t : ℕ) (q : Request) (s : State) → shape (start_checked t q s).stw ≡ shape s.stw
unfolding start_checked count_start tmr_enqueue tmr_enqueue_unlocked restart
start-shape t q s = elim (Bool-cases ((s.mem t).next == 0)) [ inl e ↦ rw e | inr e ↦ rw e ]

-- Calls on the wheel at `stw` that start or stop timers other than `t`, and `k` ticks among them.
pub data Moves (stw t : ℕ) (s0 : State) (l0 : Spokes) : ℕ → State → Spokes → Type 0 where
  here : Moves stw t s0 l0 0 s0 l0
  starts :
      {k : ℕ} {s s' : State} {l l' : Spokes} (u : ℕ) (q : Request)
      → Moves stw t s0 l0 k s l
      → u ≢ t
      → IsTimer s.stw.spokes s.stw.wheel_size u
      → Placed u s l
      → stw_timer_start stw u q s ≡ (ok, s')
      → IsWheel s' l'
      → Moves stw t s0 l0 k s' l'
  stops :
      {k : ℕ} {s s' : State} {l l' : Spokes} (u : ℕ)
      → Moves stw t s0 l0 k s l
      → u ≢ t
      → IsTimer s.stw.spokes s.stw.wheel_size u
      → Placed u s l
      → stw_timer_stop stw u s ≡ (ok, s')
      → IsWheel s' l'
      → Moves stw t s0 l0 k s' l'
  ticks :
      {k : ℕ} {s s' : State} {l l' : Spokes} (fuel : ℕ)
      → Moves stw t s0 l0 k s l
      → 2 * total s.stw.wheel_size l < fuel
      → stw_timer_tick fuel stw s ≡ some s'
      → IsWheel s' l'
      → Moves stw t s0 l0 (suc k) s' l'

-- A timer that was due after `d` ticks, after `k` of them.
pub data Life (t d k : ℕ) (s0 s : State) (l : Spokes) : Type 0 where
  still :
      k < d
      → Armed s l t (d - k)
      → asked (s.mem t) ≡ asked (s0.mem t)
      → calls_of t s.calls ≡ calls_of t s0.calls
      → Life t d k s0 s l
  over : d ≤ k → Idle t s l (calls_of t s0.calls ++ call_of t (s0.mem t)) → Life t d k s0 s l

Life-Same :
    {t d k : ℕ} {s0 s s' : State} {l l' : Spokes}
    → shape s'.stw ≡ shape s.stw
    → Same t s s' l l'
    → Life t d k s0 s l
    → Life t d k s0 s' l'
Life-Same {t} {d} {k} {s = s} e a (still lt p w m) =
    let at : At t s _ p.spoke (s.mem t).rotation_count (asked (s.mem t)) (calls_of t s.calls) =
      record { on = p.on; left = refl; wants = refl; made = refl } in
    let b = At-Same a at in still lt (Armed-At s (d - k) e b p.time) (b.wants ∙ w) (b.made ∙ m)
Life-Same e a (over le p) = over le (Idle-Same a p)

-- What the steps preserve.
pub record Lives (t d k : ℕ) (s0 s : State) (l : Spokes) : Type 0 where
  pub valid : IsWheel s l
  pub spokes : s.stw.spokes ≡ s0.stw.spokes
  pub size : s.stw.wheel_size ≡ s0.stw.wheel_size
  pub life : Life t d k s0 s l

state_of : Option State → State → State
state_of none s = s
state_of (some r) s = r

minus_zero : (d : ℕ) → d ≡ d - 0
minus_zero d = omega arith

minus_minus : (d k : ℕ) → d - k - 1 ≡ d - suc k
minus_minus d k = omega arith

module _ (stw t d : ℕ) (s0 : State) (l0 : Spokes) (ne : stw ≢ 0)
    (new : IsTimer s0.stw.spokes s0.stw.wheel_size t) (once : (s0.mem t).periodic_delay ≡ 0) where
  IsTimer-at :
      {k : ℕ} {s : State} {l : Spokes}
      → Lives t d k s0 s l
      → IsTimer s.stw.spokes s.stw.wheel_size t
  IsTimer-at {s = s} h =
      let a = subst (λ x. IsTimer x s0.stw.wheel_size t) (sym h.spokes) new in
      subst (λ x. IsTimer s.stw.spokes x t) (sym h.size) a

  -- A call on another timer keeps it.
  lives_on :
      {k : ℕ} (s : State) (l : Spokes) (s' : State) (l' : Spokes) (k' : Spokes)
      → Lives t d k s0 s l
      → shape s'.stw ≡ shape s.stw
      → IsWheel s' l'
      → IsWheel s' k'
      → Same t s s' l k'
      → Lives t d k s0 s' l'
  lives_on {k} s l s' l' k' h e v w a =
      let same = lists_unique s' k' l' w v in
      record {
        valid = v;
        spokes = ap (λ w. w.spokes) e ∙ h.spokes;
        size = ap (λ w. w.wheel_size) e ∙ h.size;
        life = subst (λ x. Life t d k s0 s' x) same (Life-Same e a h.life);
      }

  started :
      {k : ℕ} (s : State) (l : Spokes) (s' : State) (l' : Spokes) (u : ℕ) (q : Request)
      → Lives t d k s0 s l
      → u ≢ t
      → IsTimer s.stw.spokes s.stw.wheel_size u
      → Placed u s l
      → stw_timer_start stw u q s ≡ (ok, s')
      → IsWheel s' l'
      → Lives t d k s0 s' l'
  started {k} s l s' l' u q h nu other place run v =
      let (r, w, _, _) = start_lem stw u q s l ne other place h.valid in
      let e : start_checked u q s ≡ s' = ap (λ p. p.1) (sym r ∙ run) in
      let a = start-Same s l u q h.valid place other t (IsTimer-at h) nu in
      subst (λ x. Lives t d k s0 x l') e
        (lives_on s l (start_checked u q s) l' _ h (start-shape u q s)
          (subst (λ x. IsWheel x l') (sym e) v) w a)

  stopped :
      {k : ℕ} (s : State) (l : Spokes) (s' : State) (l' : Spokes) (u : ℕ)
      → Lives t d k s0 s l
      → u ≢ t
      → IsTimer s.stw.spokes s.stw.wheel_size u
      → Placed u s l
      → stw_timer_stop stw u s ≡ (ok, s')
      → IsWheel s' l'
      → Lives t d k s0 s' l'
  stopped {k} s l s' l' u h nu other place run v =
      let (r, w, _) = stop_lem stw u s l ne other place h.valid in
      let e : stop_checked u s ≡ s' = ap (λ p. p.1) (sym r ∙ run) in
      let a = stop-Same s l u h.valid t place (IsTimer-at h) nu in
      subst (λ x. Lives t d k s0 x l') e
        (lives_on s l (stop_checked u s) l' _ h (stop-shape u s)
          (subst (λ x. IsWheel x l') (sym e) v) w a)

  -- A tick brings it nearer, or it fires.
  tick-Life :
      (k fuel : ℕ) (s : State) (l : Spokes) (r : Ticked fuel stw s l)
      → Lives t d k s0 s l
      → IsTimer s.stw.spokes s.stw.wheel_size t
      → Life t d k s0 s l
      → Life t d (suc k) s0 r.last r.lists
  unfolding advance
  tick-Life k fuel s l r h at (still lt p w m) =
      elim (met_at fuel stw t (d - k) s l at p h.valid r) [
        | waits lt' p' w' m' ↦
            still (omega arith) (subst (λ x. Armed r.last r.lists t x) (minus_minus d k) p')
              (w' ∙ w) (m' ∙ m)
        | fires e z i ↦
            over (omega arith)
              (subst (Idle t r.last r.lists) (ap₂ (λ a b. a ++ b) m (ap (call_of t) w)) i)
        | repeats d' e lt' p' o w' m' ↦
            let z = ap (λ c. c.periodic_delay) w ∙ once in absurd (omega arith)
      ]
  tick-Life k fuel s l r h at (over le p) =
      let (_, _, idles) = r.follows in
      let (_, q) = idles t _ at (record { off = p.off; null_next = p.null_next; made = p.made }) in
      over (omega arith) q

  ticked_on :
      {k : ℕ} (s : State) (l : Spokes) (s' : State) (l' : Spokes) (fuel : ℕ)
      → Lives t d k s0 s l
      → 2 * total s.stw.wheel_size l < fuel
      → stw_timer_tick fuel stw s ≡ some s'
      → IsWheel s' l'
      → Lives t d (suc k) s0 s' l'
  unfolding advance state_of
  ticked_on {k} s l s' l' fuel h enough run v =
      let r = ticked fuel stw s l ne h.valid enough in
      let e : r.last ≡ s' = ap (λ o. state_of o s') (sym r.runs ∙ run) in
      let same = lists_unique s' r.lists l' (subst (λ x. IsWheel x r.lists) e r.valid) v in
      let sh = r.follows.0 in
      let sp = ap (λ w. w.spokes) sh ∙ h.spokes in
      let n = ap (λ w. w.wheel_size) sh ∙ h.size in
      let x = tick-Life k fuel s l r h (IsTimer-at h) h.life in
      record {
        valid = v;
        spokes = subst (λ u. u.stw.spokes ≡ s0.stw.spokes) e sp;
        size = subst (λ u. u.stw.wheel_size ≡ s0.stw.wheel_size) e n;
        life =
            subst (λ y. Life t d (suc k) s0 s' y) same
              (subst (λ y. Life t d (suc k) s0 y r.lists) e x);
      }

  lives :
      {k : ℕ} {s : State} {l : Spokes}
      → Moves stw t s0 l0 k s l
      → Lives t d 0 s0 s0 l0
      → Lives t d k s0 s l
  lives here h = h
  lives (starts {s = s} {s' = s'} {l = l} {l' = l'} u q m nu other place run v) h =
      started s l s' l' u q (lives m h) nu other place run v
  lives (stops {s = s} {s' = s'} {l = l} {l' = l'} u m nu other place run v) h =
      stopped s l s' l' u (lives m h) nu other place run v
  lives (ticks {s = s} {s' = s'} {l = l} {l' = l'} fuel m enough run v) h =
      ticked_on s l s' l' fuel (lives m h) enough run v

-- A timer without a period that is due after `d` ticks, through any ticks and any starts and stops
-- of other timers: before the `d`-th tick it is on a spoke, due after the ticks that are left,
-- and has made no call-back; from that tick on it has made its call-back just once, if it has one,
-- and is on no spoke.
pub Moves-fires :
    (stw t d k : ℕ) (s0 s : State) (l0 l : Spokes)
    → stw ≢ 0
    → 0 < d
    → IsTimer s0.stw.spokes s0.stw.wheel_size t
    → (s0.mem t).periodic_delay ≡ 0
    → Armed s0 l0 t d
    → IsWheel s0 l0
    → Moves stw t s0 l0 k s l
    → IsWheel s l × Life t d k s0 s l
Moves-fires stw t d k s0 s l0 l ne pos new once p v m =
    let h = lives stw t d s0 l0 ne new once m (record {
      valid = v;
      spokes = refl;
      size = refl;
      life = still pos (subst (Armed s0 l0 t) (minus_zero d) p) refl refl;
    }) in
    (h.valid, h.life)
