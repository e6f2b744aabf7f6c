-- ===== src/Timer/Start.antt =====
-- Timers started (`stw_timer_start` of src/timer/base_timer.c).
use basearch.Prelude.{
  ℕ, ◌+◌, ◌%◌, ◌≤◌, ◌<◌, ◌≡◌, ◌≢◌, refl, sym, ap, ◌∙◌, inl, inr, arith, subst, ◌==◌, Bool-cases,
  ltb, ltb→lt, ◌*◌,
}
use native.Mathlib.Nat.{lt-div-mul-add, div-add-mod', add-mul, one-mul}
use basearch.Timer.{
  Cell, Store, State, Wheel, Request, ok, restart, set_request, count_start, start_checked,
  stw_timer_start, tmr_enqueue, tmr_enqueue_unlocked, ticks_of, cursor_of,
}
use basearch.Timer.Store.{count, job, asked, write-same, write-other, write_keeps}
use basearch.Timer.Rings.{Spokes, IsTimer}
use basearch.Timer.Lists.{without, add, total-add, count-without_self, count-add_self}
use basearch.Timer.Invariant.{IsWheel, Same, Same-trans, Placed, Armed, arrival, shape, moved, due}
use basearch.Timer.Enqueue.{
  spoke_of, spoke_lt, due_new, enqueue-Rings, enqueue-Same, enqueue-rotation, enqueue-asked,
}
use basearch.Timer.Unlink.{Rings-frame, incr_total}
use basearch.Timer.Stop.{check_passes, restart-IsWheel, restart-Same}

restart-shape : (t : ℕ) (s : State) → shape (restart t s).stw ≡ shape s.stw
unfolding restart
restart-shape t s = elim (Bool-cases ((s.mem t).next == 0)) [ inl e ↦ rw e | inr e ↦ rw e ]

module _ (t : ℕ) (q : Request) (m : Store) (y : ℕ) where
  request-next : (set_request t q m y).next ≡ (m y).next
  unfolding set_request
  request-next = write_keeps (λ c. c.next) t _ y m refl

  request-prev : (set_request t q m y).prev ≡ (m y).prev
  unfolding set_request
  request-prev = write_keeps (λ c. c.prev) t _ y m refl

  request-other : t ≢ y → set_request t q m y ≡ m y
  unfolding set_request
  request-other ne = write-other t _ y m ne

-- Where a timer of a delay goes depends on the shape of the wheel.
abbrev pub place_in : Wheel → ℕ → ℕ
place_in w d = cursor_of w (ticks_of w.granularity d)

pub place-shape : (w w' : Wheel) (d : ℕ) → shape w ≡ shape w' → place_in w d ≡ place_in w' d
unfolding cursor_of
place-shape w w' d e = ap (λ v. place_in v d) e

-- What a caller asked of a timer, as the cell then holds it.
abbrev pub wanted : Request → Cell
wanted q = record {
  next = 0;
  prev = 0;
  rotation_count = 0;
  delay = q.delay;
  periodic_delay = q.periodic_delay;
  tid = q.tid;
  func_ptr = q.user_cb;
  parm = q.parm;
}

module _ (s : State) (l : Spokes) (t : ℕ) (q : Request) (v : IsWheel s l)
    (place : Placed t s l) where
  abbrev off : Spokes
  off = without t l

  abbrev asks : State
  asks = let r = restart t s in record r { mem = set_request t q r.mem }

  asks-IsWheel : IsWheel asks off
  unfolding set_request
  asks-IsWheel =
      let w = restart-IsWheel s l t v place in
      let r =
        Rings-frame asks.mem (request-next t q (restart t s).mem)
          (request-prev t q (restart t s).mem) w.rings in
      moved asks off w refl r w.active

  asks-shape : shape asks.stw ≡ shape s.stw
  asks-shape = restart-shape t s

  gone : (k : ℕ) → count t (off k) ≡ 0
  gone k = count-without_self t k l

  module _ (new : IsTimer s.stw.spokes s.stw.wheel_size t) where
    new' : IsTimer asks.stw.spokes asks.stw.wheel_size t
    new' = subst (λ w. IsTimer w.spokes w.wheel_size t) (sym asks-shape) new

    abbrev target : ℕ
    target = spoke_of asks q.delay

    here-eq : target ≡ spoke_of s q.delay
    here-eq = place-shape asks.stw s.stw q.delay asks-shape

    start-IsWheel' : IsWheel (start_checked t q s) (add target t off)
    unfolding start_checked count_start tmr_enqueue tmr_enqueue_unlocked
    start-IsWheel' =
        let w = asks-IsWheel in
        moved (start_checked t q s) (add target t off) w refl
          (enqueue-Rings asks t q.delay w.rings w.index_lt new' gone)
          (incr_total _ _ _
            (total-add asks.stw.wheel_size target t off (spoke_lt asks t q.delay w.index_lt))
            w.active)

    start-Armed' : Armed (start_checked t q s) (add target t off) t (arrival asks.stw q.delay)
    unfolding start_checked count_start tmr_enqueue tmr_enqueue_unlocked
    start-Armed' =
        let w = asks-IsWheel in
        record {
          spoke = target;
          on = count-add_self target t off;
          time =
              ap (due asks.stw.wheel_size asks.stw.spoke_index target)
                (enqueue-rotation asks t q.delay)
              ∙ due_new asks t q.delay w.index_lt w.size_fits;
        }

    start-asked : asked ((start_checked t q s).mem t) ≡ wanted q
    unfolding start_checked count_start tmr_enqueue tmr_enqueue_unlocked set_request
    start-asked = enqueue-asked asks t q.delay ∙ ap asked (write-same t _ t (restart t s).mem refl)

    start-IsWheel : IsWheel (start_checked t q s) (add (spoke_of s q.delay) t off)
    start-IsWheel = subst (λ c. IsWheel (start_checked t q s) (add c t off)) here-eq start-IsWheel'

    start-Armed :
        Armed (start_checked t q s) (add (spoke_of s q.delay) t off) t (arrival s.stw q.delay)
    start-Armed =
        let a =
          subst (λ c. Armed (start_checked t q s) (add c t off) t (arrival asks.stw q.delay))
            here-eq start-Armed' in
        subst
          (λ w. Armed (start_checked t q s) (add (spoke_of s q.delay) t off) t (arrival w q.delay))
          asks-shape a

    -- The other timers are where they were.
    pub start-Same :
        (u : ℕ)
        → IsTimer s.stw.spokes s.stw.wheel_size u
        → t ≢ u
        → Same u s (start_checked t q s) l (add (spoke_of s q.delay) t off)
    unfolding start_checked count_start tmr_enqueue tmr_enqueue_unlocked
    start-Same u other ne =
        let w = asks-IsWheel in
        let other' = subst (λ w. IsTimer w.spokes w.wheel_size u) (sym asks-shape) other in
        let a = restart-Same s l t v u place other ne in
        let b : Same u (restart t s) asks off off = record {
          kept = ap job (request-other t q (restart t s).mem u ne);
          called = refl;
          place = λ k. refl;
          idle = λ z o. request-next t q (restart t s).mem u ∙ z;
        } in
        let c = enqueue-Same asks t q.delay w.rings w.index_lt new' gone u ne other' in
        let d = Same-trans a (Same-trans b c) in
        let e : Same u s (start_checked t q s) l (add target t off) = record {
          kept = d.kept;
          called = d.called;
          place = d.place;
          idle = d.idle;
        } in
        subst (λ c. Same u s (start_checked t q s) l (add c t off)) here-eq e

-- A start of a timer that is on a spoke, or is prepared and on none, succeeds: the timer is at the
-- end of the spoke that its delay selects and nowhere else, with what the caller asked for, the
-- lists are whole and the count of active timers is that of the timers on the spokes. It is due
-- after the ticks of its delay, but one turn of the wheel later where these are whole turns.
pub start_lem :
    (stw t : ℕ) (q : Request) (s : State) (l : Spokes)
    → stw ≢ 0
    → IsTimer s.stw.spokes s.stw.wheel_size t
    → Placed t s l
    → IsWheel s l
    → (stw_timer_start stw t q s ≡ (ok, start_checked t q s))
      × IsWheel (start_checked t q s) (add (spoke_of s q.delay) t (without t l))
      × Armed
          (start_checked t q s)
          (add (spoke_of s q.delay) t (without t l))
          t
          (arrival s.stw q.delay)
      × (asked ((start_checked t q s).mem t) ≡ wanted q)
unfolding stw_timer_start
start_lem stw t q s l a new place v =
    let c = check_passes stw t s l a new.nonnull v in
    (
      rw (stw_timer_start, c),
      start-IsWheel s l t q v place new,
      start-Armed s l t q v place new,
      start-asked s l t q v place new,
    )

-- The ticks of a delay cover it but for less than one tick, and exceed it by one tick at most.
ticks_bounds : (g d : ℕ) → 0 < g → (d < ticks_of g d * g + g) × (ticks_of g d * g ≤ d + g)
unfolding ticks_of
ticks_bounds g d pos = elim (Bool-cases (ltb d g)) [
  | inl e ↦ let k = ltb→lt d g e in rw e (omega (arith, one-mul g), omega (arith, one-mul g))
  | inr e ↦
      let above = lt-div-mul-add {a = d} pos in
      let whole = div-add-mod' d g in rw e (above, omega arith)
]

-- A timer that is started fires at a tick by which all of its delay but less than one tick has
-- passed, and at most one tick and one turn of the wheel after its delay.
pub start_bounds :
    (t : ℕ) (q : Request) (s : State) (l : Spokes)
    → IsTimer s.stw.spokes s.stw.wheel_size t
    → Placed t s l
    → IsWheel s l
    → (d : ℕ) × Armed (start_checked t q s) (add (spoke_of s q.delay) t (without t l)) t d
      × (q.delay < d * s.stw.granularity + s.stw.granularity)
      × (d * s.stw.granularity ≤ q.delay + s.stw.granularity + s.stw.wheel_size * s.stw.granularity)
start_bounds t q s l new place v =
    let g = s.stw.granularity in
    let n = s.stw.wheel_size in
    let k = ticks_of g q.delay in
    let (lo, hi) = ticks_bounds g q.delay v.grain in
    let a = start-Armed s l t q v place new in
    let more : (k + n) * g ≡ k * g + n * g = add-mul k n g in
    elim (Bool-cases (k % n == 0)) [
      | inl e ↦
          let f : arrival s.stw q.delay ≡ k + n = rw e in
          (
            k + n,
            subst (Armed (start_checked t q s) (add (spoke_of s q.delay) t (without t l)) t) f a,
            omega arith,
            omega arith,
          )
      | inr e ↦
          let f : arrival s.stw q.delay ≡ k = rw e in
          (
            k,
            subst (Armed (start_checked t q s) (add (spoke_of s q.delay) t (without t l)) t) f a,
            lo,
            omega arith,
          )
    ]
