-- ===== src/TimerTable.antt =====
-- The table of named timers over one wheel (src/timer/base_mgmt.c). A call holds the mutex of the
-- table from its search to its return, so it is one step; what the mutex's calls return is not
-- tested in the source. A string is the characters before its NUL or the end of the list, and a
-- pointer to one may be NULL, `none`.
pub mod Text
pub mod Start
pub mod Delete
pub mod Init
use basearch.Prelude.{
  ℕ, zero, suc, ◌+◌, ◌-◌, Bool, true, false, not, ◌&&◌, ◌||◌, Option, none, some, List, [], ◌∷◌,
  ◌++◌, ltb, ◌==◌, if◌then◌else◌, length, get_elem?, modify, replicate, map,
}
use basearch.Registry.Slots.{scan}
use basearch.Timer.{
  Cell, Store, State, Request, Rc, ok, null_wheel, null_tmr, invalid_wheel, invalid_wheel_size,
  invalid_granularity, no_resources, write, stw_timer_running, stw_timer_prepare, stw_timer_start,
  stw_timer_stop, stw_timer_tick,
}
use basearch.Timer.Create.{Limits, strncpy, stw_timer_create}

-- What the header fwk/timer/stw_mgmt.h fixes: STW_NAME_LENGTH, and where `tmr_list[i].tmr` lies.
pub record Layout : Type 0 where
  pub name_length : ℕ
  pub tmr_at : ℕ → ℕ

-- stw_tmr_Node_t, but for its `tmr`, which lies in the wheel's store.
pub record Node : Type 0 where
  pub used : Bool
  pub timer_name : List ℕ
  pub tid : ℕ
  pub parm : ℕ

-- stw_sys_handle, tmr_list and the wheel.
pub record Table : Type 0 where
  pub stw_sys_handle : ℕ
  pub nodes : List Node
  pub wheel : State

-- The characters before the NUL.
unfoldable pub text : List ℕ → List ℕ
text [] = []
text (c ∷ s) = let rest = text s in if c == 0 then [] else c ∷ rest

unfoldable pub strlen : List ℕ → ℕ
unfolding text
strlen s = length (text s)

unfoldable pub same_chars : List ℕ → List ℕ → Bool
same_chars [] [] = true
same_chars (x ∷ a) (y ∷ b) = (x == y) && same_chars a b
same_chars [] (y ∷ b) = false
same_chars (x ∷ a) [] = false

-- `strcmp (a, b) == 0`
abbrev pub strcmp_eq : List ℕ → List ℕ → Bool
strcmp_eq a b = same_chars (text a) (text b)

-- The first node that is not used, if no node, used or not, has the name.
unfoldable pub tmr_find_free_tmr_node : Option (List ℕ) → List Node → Option ℕ
tmr_find_free_tmr_node none nodes = none
tmr_find_free_tmr_node (some name) nodes = elim (scan (λ n. strcmp_eq name n.timer_name) nodes 0) [
  | some _ ↦ none
  | none ↦ scan (λ n. not n.used) nodes 0
]

-- The used node of that name.
abbrev pub is_used_as : List ℕ → Node → Bool
is_used_as name n = n.used && strcmp_eq name n.timer_name

unfoldable pub tmr_find_tmr_node : Layout → Option (List ℕ) → List Node → Option ℕ
tmr_find_tmr_node lay none nodes = none
tmr_find_tmr_node lay (some name) nodes =
    if ltb (lay.name_length - 1) (strlen name) then none else scan (is_used_as name) nodes 0

abbrev pub zero_cell : Cell
zero_cell = record {
  next = 0;
  prev = 0;
  rotation_count = 0;
  delay = 0;
  periodic_delay = 0;
  tid = 0;
  func_ptr = 0;
  parm = 0;
}

abbrev pub zero_node : Layout → Node
zero_node lay = record { used = false; timer_name = replicate lay.name_length 0; tid = 0; parm = 0 }

-- `memset (tmr_list, 0, …)`: the nodes from `i` on.
unfoldable pub clear_cells : Layout → ℕ → List Node → Store → Store
clear_cells lay i [] m = m
clear_cells lay i (n ∷ ns) m = clear_cells lay (i + 1) ns (write (lay.tmr_at i) zero_cell m)

unfoldable pub tmr_timer_list_init : Layout → Table → Table
tmr_timer_list_init lay t = record t {
  nodes = map (λ n. zero_node lay) t.nodes;
  wheel = record t.wheel { mem = clear_cells lay 0 t.nodes t.wheel.mem };
}

-- "Demo Timer Wheel"
abbrev pub demo_name : List ℕ
demo_name =
    68 ∷ 101 ∷ 109 ∷ 111 ∷ 32 ∷ 84 ∷ 105 ∷ 109 ∷ 101 ∷ 114 ∷ 32 ∷ 87 ∷ 104 ∷ 101 ∷ 101 ∷ 108 ∷ []

abbrev pub handle_or : ℕ → Option ℕ → ℕ
handle_or old none = old
handle_or old (some p) = p

abbrev pub wheel_or : State → Option State → State
wheel_or old none = old
wheel_or old (some s) = s

-- The wheel is created, with STW_NUMBER_BUCKETS and STW_RESOLUTION, and the table zeroed. What the
-- creation returns is not tested.
unfoldable pub tmr_timer_init :
    Layout → Limits → (buckets resolution p2stw spokes : ℕ) → Table → Table
tmr_timer_init lay limits buckets resolution p2stw spokes t =
    let c = stw_timer_create limits buckets resolution demo_name 1 p2stw spokes t.wheel.mem in
    tmr_timer_list_init lay (record t {
      stw_sys_handle = handle_or t.stw_sys_handle c.handle;
      wheel = wheel_or t.wheel c.wheel;
    })

unfoldable pub fill_node : Layout → List ℕ → Request → Node → Node
fill_node lay name q n = record {
  used = true;
  timer_name = strncpy (lay.name_length - 1) name ++ 0 ∷ [];
  tid = q.tid;
  parm = q.parm;
}

unfoldable pub fill_timer : ℕ → Request → Store → Store
fill_timer p q m = stw_timer_prepare p (
    write p
      (record (m p) { delay = q.delay; periodic_delay = q.periodic_delay; func_ptr = q.user_cb }) m)

unfoldable pub add_at : Layout → ℕ → List ℕ → Request → Table → Table
add_at lay i name q t = record t {
  nodes = modify t.nodes i (fill_node lay name q);
  wheel = record t.wheel { mem = fill_timer (lay.tmr_at i) q t.wheel.mem };
}

-- The tests on the arguments: a thread or a call-back, and a parameter with a thread.
unfoldable pub refuses : Layout → List ℕ → Request → Bool
refuses lay name q =
    ltb (lay.name_length - 1) (strlen name)
    || ((q.tid == 0) && (q.user_cb == 0))
    || (not (q.tid == 0) && (q.parm == 0))

unfoldable pub tmr_add_timer_node : Layout → Option (List ℕ) → Request → Table → Bool × Table
tmr_add_timer_node lay none q t = (false, t)
tmr_add_timer_node lay (some name) q t =
    if refuses lay name q then (false, t) else elim (tmr_find_free_tmr_node (some name) t.nodes) [
      | none ↦ (false, t)
      | some i ↦ (true, add_at lay i name q t)
    ]

-- The node is zeroed whole, the links of its timer included, whether the timer runs or not.
unfoldable pub delete_at : Layout → ℕ → Table → Table
delete_at lay i t = record t {
  nodes = modify t.nodes i (λ n. zero_node lay);
  wheel = record t.wheel { mem = write (lay.tmr_at i) zero_cell t.wheel.mem };
}

unfoldable pub tmr_delete_timer_node : Layout → Option (List ℕ) → Table → Bool × Table
tmr_delete_timer_node lay name t = elim (tmr_find_tmr_node lay name t.nodes) [
  | none ↦ (false, t)
  | some i ↦ (true, delete_at lay i t)
]

-- What a node asks of the wheel.
unfoldable pub request_of : Node → Cell → Request
request_of n c = record {
  delay = c.delay;
  periodic_delay = c.periodic_delay;
  tid = n.tid;
  user_cb = c.func_ptr;
  parm = n.parm;
}

-- `== RC_STW_OK`
abbrev pub is_ok : Rc → Bool
is_ok ok = true
is_ok null_wheel = false
is_ok null_tmr = false
is_ok invalid_wheel = false
is_ok invalid_wheel_size = false
is_ok invalid_granularity = false
is_ok no_resources = false

-- A timer that runs is stopped first.
unfoldable pub stop_running : ℕ → ℕ → State → Rc × State
stop_running stw p s = if stw_timer_running p s.mem then stw_timer_stop stw p s else (ok, s)

unfoldable pub start_prepared : ℕ → ℕ → Node → State → Bool × State
start_prepared stw p n s =
    let w = record s { mem = stw_timer_prepare p s.mem } in
    let (rc, w') = stw_timer_start stw p (request_of n (w.mem p)) w in (is_ok rc, w')

unfoldable pub start_node : ℕ → ℕ → Node → State → Bool × State
start_node stw p n s =
    let (rc, w) = stop_running stw p s in if is_ok rc then start_prepared stw p n w else (false, w)

unfoldable pub tmr_start_timer : Layout → Option (List ℕ) → Table → Bool × Table
tmr_start_timer lay name t = elim (tmr_find_tmr_node lay name t.nodes) [
  | none ↦ (false, t)
  | some i ↦ elim (get_elem? t.nodes i) [
    | none ↦ (false, t)
    | some n ↦
        let (done, w) = start_node t.stw_sys_handle (lay.tmr_at i) n t.wheel in
        (done, record t { wheel = w })
  ]
]

unfoldable pub tmr_stop_timer : Layout → Option (List ℕ) → Table → Bool × Table
tmr_stop_timer lay name t = elim (tmr_find_tmr_node lay name t.nodes) [
  | none ↦ (false, t)
  | some i ↦
      let (rc, w) = stw_timer_stop t.stw_sys_handle (lay.tmr_at i) t.wheel in
      (is_ok rc, record t { wheel = w })
]

-- The handler of the alarm drives the wheel.
unfoldable pub timer_handler : ℕ → Table → Option Table
timer_handler fuel t = elim (stw_timer_tick fuel t.stw_sys_handle t.wheel) [
  | none ↦ none
  | some w ↦ some (record t { wheel = w })
]
