-- ===== src/Timer.antt =====
-- The timer wheel of src/timer/base_timer.c: spokes that head circular doubly linked lists of
-- timers, over an explicit store. An address is a number and NULL is 0; `&stw->spokes[j]` is
-- `spokes + j`, so the unit of an address is one `stw_links_t`. The links stand first in a timer,
-- so the same address is that of its links. The fields of the wheel and its counters are 32 bits.
pub mod Store
pub mod Links
pub mod Splice
pub mod Rings
pub mod Lists
pub mod Invariant
pub mod Enqueue
pub mod Unlink
pub mod Stop
pub mod Start
pub mod Visit
pub mod Walk
pub mod Phase
pub mod Due
pub mod Follow
pub mod Tick
pub mod Unique
pub mod History
pub mod Create
pub mod Destroy
use basearch.Prelude.{
  ℕ, zero, suc, ◌+◌, ◌-◌, ◌/◌, ◌%◌, ◌^◌, ◌≡◌, Bool, true, false, not, ◌&&◌, ◌||◌, Option, none,
  some, List, [], ◌∷◌, ◌++◌, ltb, ◌==◌, if◌then◌else◌,
}

-- MAGIC_TAG
abbrev pub magic : ℕ
magic = 0x0FEDCA3BA

-- `x++` and `x--` on 32 bits
abbrev pub incr : ℕ → ℕ
incr x = (x + 1) % 2 ^ 32

abbrev pub decr : ℕ → ℕ
decr x = (x + 2 ^ 32 - 1) % 2 ^ 32

-- What the calls return: RC_STW_OK and the errors.
pub data Rc : Type 0 where
  ok null_wheel null_tmr invalid_wheel invalid_wheel_size invalid_granularity no_resources : Rc

-- stw_tmr_t: its links, and the rest. Of a spoke only the links are used.
pub record Cell : Type 0 where
  pub next : ℕ
  pub prev : ℕ
  pub rotation_count : ℕ
  pub delay : ℕ
  pub periodic_delay : ℕ
  pub tid : ℕ
  pub func_ptr : ℕ
  pub parm : ℕ

abbrev pub Store : Type 0
Store = ℕ → Cell

unfoldable pub write : ℕ → Cell → Store → Store
write p c m = λ q. if q == p then c else m q

unfoldable pub set_next : ℕ → ℕ → Store → Store
unfolding write
set_next p v m = write p (record (m p) { next = v }) m

unfoldable pub set_prev : ℕ → ℕ → Store → Store
unfolding write
set_prev p v m = write p (record (m p) { prev = v }) m

unfoldable pub set_rotation : ℕ → ℕ → Store → Store
unfolding write
set_rotation p v m = write p (record (m p) { rotation_count = v }) m

-- stw_t
pub record Wheel : Type 0 where
  pub wheel_name : List ℕ
  pub magic_tag : ℕ
  pub spokes : ℕ
  pub wheel_size : ℕ
  pub granularity : ℕ
  pub ticks : ℕ
  pub spoke_index : ℕ
  pub timer_active : ℕ
  pub timer_expired : ℕ
  pub timer_cancelled : ℕ
  pub timer_starts : ℕ
  pub timer_hiwater_mark : ℕ

-- A call-back that a tick has made: `(*func) (tmr, parm)`.
pub record Call : Type 0 where
  pub func : ℕ
  pub tmr : ℕ
  pub parm : ℕ

-- The wheel that `stw` points to, the links and timers, and the call-backs made, the first first.
pub record State : Type 0 where
  pub stw : Wheel
  pub mem : Store
  pub calls : List Call

abbrev pub set_active : ℕ → State → State
set_active n s = record s { stw = record s.stw { timer_active = n } }

-- The ticks that a delay in milliseconds takes: at least one.
unfoldable pub ticks_of : ℕ → ℕ → ℕ
ticks_of granularity delay = if ltb delay granularity then 1 else delay / granularity

-- The spoke that a timer of so many ticks is put on.
unfoldable pub cursor_of : Wheel → ℕ → ℕ
cursor_of w ticks = ((w.spoke_index + ticks % w.wheel_size) % 2 ^ 32) % w.wheel_size

-- The four writes that append a timer to the end of a spoke's list.
unfoldable pub append_links : ℕ → ℕ → Store → Store
append_links spoke tmr m =
    let prev = (m spoke).prev in
    set_prev spoke tmr (set_next prev tmr (set_prev tmr prev (set_next tmr spoke m)))

unfoldable pub tmr_enqueue_unlocked : State → ℕ → ℕ → State
tmr_enqueue_unlocked s tmr delay =
    let w = s.stw in
    let ticks = ticks_of w.granularity delay in
    let m = set_rotation tmr (ticks / w.wheel_size) s.mem in
    record s { mem = append_links (w.spokes + cursor_of w ticks) tmr m }

-- The interrupts are locked around it. In `stw_timer_start` they are unlocked before, behind the
-- unlinking of a timer that runs: what another thread does between the two is not modelled.
unfoldable pub tmr_enqueue : State → ℕ → ℕ → State
tmr_enqueue s tmr delay = tmr_enqueue_unlocked s tmr delay

unfoldable pub stw_timer_running : ℕ → Store → Bool
stw_timer_running tmr m = if tmr == 0 then false else not ((m tmr).next == 0)

unfoldable pub stw_timer_prepare : ℕ → Store → Store
stw_timer_prepare tmr m = if tmr == 0 then m else set_prev tmr 0 (set_next tmr 0 m)

-- `next->stw_prev = prev; prev->stw_next = next;`
unfoldable pub unlink : ℕ → Store → Store
unlink tmr m = set_next (m tmr).prev (m tmr).next (set_prev (m tmr).next (m tmr).prev m)

-- The start of `stw_timer_start`: a timer that runs is taken off its spoke. Its links are left.
unfoldable pub restart : ℕ → State → State
restart tmr s =
    if (s.mem tmr).next == 0
    then s
    else record (set_active (decr s.stw.timer_active) s) { mem = unlink tmr s.mem }

-- What a caller asks for.
pub record Request : Type 0 where
  pub delay : ℕ
  pub periodic_delay : ℕ
  pub tid : ℕ
  pub user_cb : ℕ
  pub parm : ℕ

unfoldable pub set_request : ℕ → Request → Store → Store
set_request tmr q m =
    write tmr
      (record (m tmr) {
        delay = q.delay;
        periodic_delay = q.periodic_delay;
        tid = q.tid;
        func_ptr = q.user_cb;
        parm = q.parm;
      })
      m

-- The counts after a start, and the mark they leave.
unfoldable pub count_start : Wheel → Wheel
count_start w =
    let active = incr w.timer_active in
    record w {
      timer_starts = incr w.timer_starts;
      timer_active = active;
      timer_hiwater_mark = if ltb w.timer_hiwater_mark active then active else w.timer_hiwater_mark;
    }

-- The tests that the calls begin with.
unfoldable pub check : ℕ → ℕ → Wheel → Rc
check stw tmr w =
    if stw == 0
    then null_wheel
    else if tmr == 0
    then null_tmr
    else if not (w.magic_tag == magic)
    then invalid_wheel
    else ok

unfoldable pub start_checked : ℕ → Request → State → State
start_checked tmr q s =
    let r = restart tmr s in
    let t = tmr_enqueue (record r { mem = set_request tmr q r.mem }) tmr q.delay in
    record t { stw = count_start t.stw }

unfoldable pub stw_timer_start : ℕ → ℕ → Request → State → Rc × State
stw_timer_start stw tmr q s = elim (check stw tmr s.stw) [
  | ok ↦ (ok, start_checked tmr q s)
  | error ↦ (error, s)
]

unfoldable pub stop_checked : ℕ → State → State
stop_checked tmr s = if (s.mem tmr).next == 0 then s else record s {
  mem = set_prev tmr 0 (set_next tmr 0 (unlink tmr s.mem));
  stw = record s.stw {
    timer_active = decr s.stw.timer_active;
    timer_cancelled = incr s.stw.timer_cancelled;
  };
}

unfoldable pub stw_timer_stop : ℕ → ℕ → State → Rc × State
stw_timer_stop stw tmr s = elim (check stw tmr s.stw) [
  | ok ↦ (ok, stop_checked tmr s)
  | error ↦ (error, s)
]

-- A timer whose rotations are over leaves its spoke: here `prev->stw_next` is written first.
unfoldable pub expire_links : ℕ → Store → Store
expire_links tmr m =
    set_prev tmr 0
      (set_next tmr 0 (set_prev (m tmr).next (m tmr).prev (set_next (m tmr).prev (m tmr).next m)))

unfoldable pub expire : ℕ → State → State
expire tmr s = record s {
  mem = expire_links tmr s.mem;
  stw = record s.stw {
    timer_active = decr s.stw.timer_active;
    timer_expired = incr s.stw.timer_expired;
  };
}

-- `if (tmr->func_ptr) (*user_call_back) (tmr, tmr->parm);` The interrupts stay locked, so that a
-- call-back which calls the wheel would wait for ever: it leaves the wheel alone.
unfoldable pub call_back : ℕ → State → State
call_back tmr s =
    let c = s.mem tmr in
    if c.func_ptr == 0
    then s
    else record s { calls = s.calls ++ record { func = c.func_ptr; tmr = tmr; parm = c.parm } ∷ [] }

-- A periodic timer is put on a spoke again.
unfoldable pub rearm : ℕ → State → State
rearm tmr s =
    if ltb 0 (s.mem tmr).periodic_delay
    then (let t = tmr_enqueue_unlocked s tmr (s.mem tmr).periodic_delay in
        set_active (incr t.stw.timer_active) t)
    else s

-- The body of the loop over a spoke's timers, but for the step to the next.
unfoldable pub visit : ℕ → State → State
visit tmr s =
    if not ((s.mem tmr).rotation_count == 0)
    then record s { mem = set_rotation tmr ((s.mem tmr).rotation_count - 1) s.mem }
    else rearm tmr (call_back tmr (expire tmr s))

-- The loop: `next` is read before the body runs. `none` means that the fuel ran out.
unfoldable pub walk : ℕ → ℕ → ℕ → State → Option State
walk zero spoke tmr s = none
walk (suc fuel) spoke tmr s = elim (tmr == spoke) [
  | true ↦ some s
  | false ↦ walk fuel spoke (s.mem tmr).next (visit tmr s)
]

-- The wheel turned by one spoke.
unfoldable pub advance : State → State
advance s = record s {
  stw = record s.stw {
    ticks = incr s.stw.ticks;
    spoke_index = ((s.stw.spoke_index + 1) % 2 ^ 32) % s.stw.wheel_size;
  };
}

unfoldable pub stw_timer_tick : ℕ → ℕ → State → Option State
stw_timer_tick fuel stw s =
    if (stw == 0) || not (s.stw.magic_tag == magic)
    then some s
    else (let t = advance s in
        let spoke = t.stw.spokes + t.stw.spoke_index in walk fuel spoke (t.mem spoke).next t)
