-- ===== src/Tests/Timer.antt =====
-- A wheel of four spokes and 100 ms with one or two timers (src/timer/base_timer.c).
use basearch.Prelude.{
  ℕ, zero, suc, ◌+◌, ◌*◌, ◌≤◌, ◌<◌, ◌≡◌, ◌≢◌, refl, ap, inl, inr, ◌⊎◌, ◌↔◌, false, Option, none,
  some, List, [], ◌∷◌, arith,
}
use basearch.Timer.{
  Store, State, Call, Request, ok, write, set_next, set_prev, set_rotation, ticks_of, cursor_of,
  append_links, tmr_enqueue_unlocked, tmr_enqueue, stw_timer_running, restart, set_request,
  count_start, start_checked, stw_timer_start, stop_checked, stw_timer_stop, expire_links, expire,
  call_back, rearm, visit, walk, advance, stw_timer_tick, no_resources,
}
use basearch.Timer.Store.{count, asked}
use basearch.Timer.Rings.{Spokes, IsTimer, put}
use basearch.Timer.Lists.{without, add, total, remove}
use basearch.Timer.Invariant.{IsWheel, Placed, Armed, arrival}
use basearch.Timer.Enqueue.{spoke_of}
use basearch.Timer.Stop.{stop_lem}
use basearch.Timer.Start.{start_lem, start_bounds, wanted}
use basearch.Timer.Tick.{Met, tick_lem}
use basearch.Timer.History.{Life, here, ticks, Moves-fires}
use basearch.Timer.Create.{
  Limits, stw_timer_create, new_wheel, empty_spokes, no_timers, empty-Rings, create-IsWheel,
  create_failure,
}
use basearch.Timer.Destroy.{destroyed, stw_timer_destroy, destroy_lem}

abbrev pub limits : Limits
limits = record {
  min_wheel_size = 4;
  max_wheel_size = 4096;
  min_granularity = 1;
  max_granularity = 100;
  name_length = 32;
}

abbrev pub blank : Store
blank = λ q. record {
  next = 0;
  prev = 0;
  rotation_count = 0;
  delay = 0;
  periodic_delay = 0;
  tid = 0;
  func_ptr = 0;
  parm = 0;
}

abbrev pub wheel : State
wheel = record {
  stw = new_wheel limits 4 100 (119 ∷ []) 10;
  mem = empty_spokes 4 10 blank;
  calls = [];
}

pub wheel-IsWheel : IsWheel wheel no_timers
unfolding new_wheel total
wheel-IsWheel = record {
  rings = empty-Rings 4 10 blank (omega arith);
  index_lt = omega arith;
  size_fits = omega arith;
  grain = omega arith;
  tagged = refl;
  active = refl;
}

abbrev pub asks : ℕ → ℕ → Request
asks delay period = record {
  delay = delay;
  periodic_delay = period;
  tid = 0;
  user_cb = 7;
  parm = 9;
}

-- The call-backs that `n` ticks make.
calls_after : ℕ → State → Option (List Call)
calls_after zero s = some s.calls
calls_after (suc n) s = elim (stw_timer_tick 9 1 s) [ none ↦ none | some t ↦ calls_after n t ]

abbrev call : ℕ → Call
call t = record { func = 7; tmr = t; parm = 9 }

-- A delay of 250 ms fires at the second tick.
fires_second :
    (calls_after 1 (start_checked 100 (asks 250 0) wheel) ≡ some [])
    × (calls_after 2 (start_checked 100 (asks 250 0) wheel) ≡ some (call 100 ∷ []))
unfolding calls_after stw_timer_tick walk visit rearm call_back expire expire_links advance
    start_checked restart set_request count_start tmr_enqueue tmr_enqueue_unlocked append_links
    ticks_of cursor_of set_next set_prev set_rotation write new_wheel empty_spokes
fires_second = (refl, refl)

-- A delay of 400 ms, one turn of the wheel, fires at the eighth.
fires_late :
    (calls_after 7 (start_checked 100 (asks 400 0) wheel) ≡ some [])
    × (calls_after 8 (start_checked 100 (asks 400 0) wheel) ≡ some (call 100 ∷ []))
unfolding calls_after stw_timer_tick walk visit rearm call_back expire expire_links advance
    start_checked restart set_request count_start tmr_enqueue tmr_enqueue_unlocked append_links
    ticks_of cursor_of set_next set_prev set_rotation write new_wheel empty_spokes
fires_late = (refl, refl)

-- Two timers on one spoke keep a period of 400 ms. A timer that is alone there repeats after 800.
repeats_late :
    (calls_after 5 (start_checked 101 (asks 100 400) (start_checked 100 (asks 100 400) wheel))
      ≡ some (call 100 ∷ call 101 ∷ call 100 ∷ call 101 ∷ []))
    × (calls_after 8 (start_checked 100 (asks 100 400) wheel) ≡ some (call 100 ∷ []))
    × (calls_after 9 (start_checked 100 (asks 100 400) wheel) ≡ some (call 100 ∷ call 100 ∷ []))
unfolding calls_after stw_timer_tick walk visit rearm call_back expire expire_links advance
    start_checked restart set_request count_start tmr_enqueue tmr_enqueue_unlocked append_links
    ticks_of cursor_of set_next set_prev set_rotation write new_wheel empty_spokes
repeats_late = (refl, refl, refl)

pub ours-IsTimer : IsTimer 10 4 100
ours-IsTimer = record { outer = λ k lt. λ e. absurd (omega arith); nonnull = omega arith }

pub timer-Placed : Placed 100 wheel no_timers
unfolding empty_spokes set_next set_prev write count
timer-Placed = inr (refl, λ k. refl)

abbrev pub started : State
started = start_checked 100 (asks 250 0) wheel

abbrev pub one_timer : Spokes
one_timer = add (spoke_of wheel 250) 100 (without 100 no_timers)

pub started_facts :
    (stw_timer_start 1 100 (asks 250 0) wheel ≡ (ok, started))
    × IsWheel started one_timer
    × Armed started one_timer 100 (arrival wheel.stw 250)
    × (asked (started.mem 100) ≡ wanted (asks 250 0))
unfolding new_wheel
started_facts =
    start_lem 1 100 (asks 250 0) wheel no_timers (λ e. absurd (omega arith)) ours-IsTimer
      timer-Placed wheel-IsWheel

start_lem_example :
    (stw_timer_start 1 100 (asks 250 0) wheel ≡ (ok, started))
    × IsWheel started one_timer
    × Armed started one_timer 100 (arrival wheel.stw 250)
    × (asked (started.mem 100) ≡ wanted (asks 250 0))
unfolding new_wheel
start_lem_example =
    start_lem 1 100 (asks 250 0) wheel no_timers (λ e. absurd (omega arith)) ours-IsTimer
      timer-Placed wheel-IsWheel

start_bounds_example :
    (d : ℕ) × Armed started one_timer 100 d
    × (250 < d * wheel.stw.granularity + wheel.stw.granularity)
    × (d * wheel.stw.granularity
        ≤ 250 + wheel.stw.granularity + wheel.stw.wheel_size * wheel.stw.granularity)
unfolding new_wheel
start_bounds_example =
    start_bounds 100 (asks 250 0) wheel no_timers ours-IsTimer timer-Placed wheel-IsWheel

stop_lem_example :
    (stw_timer_stop 1 100 wheel ≡ (ok, stop_checked 100 wheel))
    × IsWheel (stop_checked 100 wheel) (without 100 no_timers)
    × (stw_timer_running 100 (stop_checked 100 wheel).mem ≡ false)
unfolding new_wheel
stop_lem_example =
    stop_lem 1 100 wheel no_timers (λ e. absurd (omega arith)) ours-IsTimer timer-Placed
      wheel-IsWheel

pub started-Armed : Armed started one_timer 100 2
unfolding ticks_of new_wheel
started-Armed = started_facts.2

started-IsTimer : IsTimer started.stw.spokes started.stw.wheel_size 100
unfolding start_checked restart count_start tmr_enqueue tmr_enqueue_unlocked new_wheel empty_spokes
    set_prev set_next write
started-IsTimer = ours-IsTimer

one_timer-total : 2 * total started.stw.wheel_size one_timer < 9
unfolding start_checked restart count_start tmr_enqueue tmr_enqueue_unlocked new_wheel total add put
    cursor_of ticks_of without remove empty_spokes set_prev set_next write
one_timer-total = omega arith

-- The wheel after one tick.
abbrev turned :
    (s' : State) × (l' : Spokes) × (stw_timer_tick 9 1 started ≡ some s')
    × IsWheel s' l'
    × Met 100 2 started one_timer s' l'
turned =
    tick_lem 9 1 100 2 started one_timer (λ e. absurd (omega arith)) one_timer-total started-IsTimer
      started-Armed started_facts.1

started-once : (started.mem 100).periodic_delay ≡ 0
started-once = ap (λ c. c.periodic_delay) started_facts.3

Moves-fires_example : IsWheel turned.0 turned.1 × Life 100 2 1 started turned.0 turned.1
Moves-fires_example =
    Moves-fires 1 100 2 1 started turned.0 one_timer turned.1 (λ e. absurd (omega arith))
      (omega arith) started-IsTimer started-once started-Armed started_facts.1
      (ticks 9 here one_timer-total turned.2 turned.3)

create-IsWheel_example :
    (s : State) × (stw_timer_create limits 4 100 (119 ∷ []) 1 8 10 blank
      ≡ record { rc = ok; handle = some 8; wheel = some s; freed = [] })
    × IsWheel s no_timers
    × (s.stw.wheel_size ≡ 4)
    × (s.stw.granularity ≡ 100)
    × (s.stw.spokes ≡ 10)
create-IsWheel_example =
    create-IsWheel limits 4 100 (119 ∷ []) 1 8 10 blank (omega arith) (omega arith) (omega arith)
      (λ e. absurd (omega arith)) (omega arith, omega arith) (omega arith, omega arith)
      (λ e. absurd (omega arith)) (λ e. absurd (omega arith))

create_failure_example :
    (((stw_timer_create limits 3 100 (119 ∷ []) 1 8 10 blank).rc ≢ ok) ↔ (
      (◌≡◌ {A = ℕ} 1 0)
      ⊎ (3 < limits.min_wheel_size)
      ⊎ (limits.max_wheel_size < 3)
      ⊎ (100 < limits.min_granularity)
      ⊎ (limits.max_granularity < 100)
      ⊎ (◌≡◌ {A = ℕ} 8 0)
      ⊎ (◌≡◌ {A = ℕ} 10 0)))
    × (((stw_timer_create limits 3 100 (119 ∷ []) 1 8 10 blank).rc ≢ ok)
        ↔ ((stw_timer_create limits 3 100 (119 ∷ []) 1 8 10 blank).wheel ≡ none))
    × (((stw_timer_create limits 3 100 (119 ∷ []) 1 8 10 blank).freed ≡ 8 ∷ []) ↔ (
        ((stw_timer_create limits 3 100 (119 ∷ []) 1 8 10 blank).rc ≡ no_resources)
        × (◌≢◌ {A = ℕ} 8 0)))
create_failure_example = create_failure limits 3 100 (119 ∷ []) 1 8 10 blank

destroy_lem_example :
    (m : Store) × (stw_timer_destroy 9 1 started
      ≡ some (destroyed 0 m (started.stw.spokes ∷ 1 ∷ [])))
    × (stw_timer_running 100 m ≡ false)
destroy_lem_example =
    destroy_lem 9 1 100 started one_timer (λ e. absurd (omega arith))
      (omega (arith, one_timer-total)) started-IsTimer (inl (started-Armed.spoke, started-Armed.on))
      started_facts.1
