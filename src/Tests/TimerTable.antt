-- ===== src/Tests/TimerTable.antt =====
-- A table of named timers over the wheel of the tests (src/timer/base_mgmt.c).
use basearch.Prelude.{
  ℕ, ◌+◌, ◌≡◌, ◌≢◌, refl, true, false, none, some, List, [], ◌∷◌, arith, get_elem?, replicate,
}
use basearch.Registry.Slots.{scan}
use basearch.Timer.{State}
use basearch.Timer.Store.{count, asked}
use basearch.Timer.Rings.{Spokes, IsTimer}
use basearch.Timer.Invariant.{IsWheel, Placed, Armed, arrival}
use basearch.Timer.Start.{wanted}
use basearch.Timer.Create.{no_timers, new_wheel}
use basearch.TimerTable.{
  Layout, Node, Table, text, strlen, same_chars, tmr_find_free_tmr_node, tmr_find_tmr_node,
  zero_cell, zero_node, add_at, refuses, tmr_add_timer_node, delete_at, tmr_delete_timer_node,
  request_of, tmr_start_timer, tmr_timer_init,
}
use basearch.TimerTable.Init.{init-IsWheel}
use basearch.TimerTable.Text.{add_timer-find}
use basearch.TimerTable.Start.{start_timer_lem}
use basearch.TimerTable.Delete.{delete_breaks, delete_idle}
use basearch.Tests.Timer.{
  limits, wheel, wheel-IsWheel, ours-IsTimer, timer-Placed, asks, started, one_timer, started_facts,
  started-Armed,
}

abbrev lay : Layout
lay = record { name_length = 4; tmr_at = λ i. 100 + i }

abbrev node : Node
node = record { used = true; timer_name = 84 ∷ 0 ∷ 0 ∷ 0 ∷ []; tid = 0; parm = 9 }

abbrev table : State → List Node → Table
table w ns = record { stw_sys_handle = 1; nodes = ns; wheel = w }

found : (w : State) → tmr_find_tmr_node lay (some (84 ∷ [])) (table w (node ∷ [])).nodes ≡ some 0
unfolding tmr_find_tmr_node scan strlen text same_chars
found w = refl

start_timer_lem_example :
    (w : State) × (l' : Spokes) × (tmr_start_timer lay (some (84 ∷ [])) (table wheel (node ∷ []))
      ≡ (true, table w (node ∷ [])))
    × IsWheel w l'
    × Armed w l' 100 (arrival wheel.stw (wheel.mem 100).delay)
    × (asked (w.mem 100) ≡ wanted (request_of node (wheel.mem 100)))
unfolding new_wheel
start_timer_lem_example =
    start_timer_lem lay (some (84 ∷ [])) 0 node (table wheel (node ∷ [])) no_timers (found wheel)
      refl (λ e. absurd (omega arith)) ours-IsTimer timer-Placed wheel-IsWheel

delete_breaks_example :
    (tmr_delete_timer_node lay (some (84 ∷ [])) (table started (node ∷ []))
      ≡ (true, delete_at lay 0 (table started (node ∷ []))))
    × (¬ ((l' : Spokes) × IsWheel (delete_at lay 0 (table started (node ∷ []))).wheel l'))
delete_breaks_example =
    delete_breaks lay (some (84 ∷ [])) 0 started-Armed.spoke (table started (node ∷ [])) one_timer
      (found started) started-Armed.on started_facts.1

delete_idle_example :
    (t' : Table) × (tmr_delete_timer_node lay (some (84 ∷ [])) (table wheel (node ∷ []))
      ≡ (true, t'))
    × (IsWheel t'.wheel no_timers × (t'.wheel.stw ≡ wheel.stw) × (t'.wheel.calls ≡ wheel.calls))
    × (Placed 100 t'.wheel no_timers
        × (t'.wheel.mem 100 ≡ zero_cell)
        × ((a : ℕ) → a ≢ 100 → t'.wheel.mem a ≡ wheel.mem a))
    × ((get_elem? t'.nodes 0
          ≡ some (record {
            used = false;
            timer_name = replicate lay.name_length 0;
            tid = 0;
            parm = 0;
          }))
        × ((j : ℕ) → 0 ≢ j → get_elem? t'.nodes j ≡ get_elem? (node ∷ []) j))
unfolding new_wheel count
delete_idle_example =
    delete_idle lay (some (84 ∷ [])) 0 node (table wheel (node ∷ [])) no_timers (found wheel) refl
      ours-IsTimer (λ k. refl) wheel-IsWheel

abbrev empty : Table
empty = table wheel (zero_node lay ∷ zero_node lay ∷ [])

abbrev added : Table
added = add_at lay 0 (85 ∷ []) (asks 250 0) empty

adds : tmr_add_timer_node lay (some (85 ∷ [])) (asks 250 0) empty ≡ (true, added)
unfolding tmr_add_timer_node refuses tmr_find_free_tmr_node scan strlen text same_chars replicate
adds = refl

names_differ : text (84 ∷ []) ≢ text (85 ∷ [])
unfolding text
names_differ e = absurd (ground arith)

add_timer-find_example :
    (i : ℕ) × (n : Node) × (tmr_find_tmr_node lay (some (85 ∷ [])) empty.nodes ≡ none)
    × (tmr_find_tmr_node lay (some (85 ∷ [])) added.nodes ≡ some i)
    × (get_elem? added.nodes i ≡ some n)
    × ((added.wheel.mem (lay.tmr_at i)).next ≡ 0)
    × (request_of n (added.wheel.mem (lay.tmr_at i)) ≡ asks 250 0)
    × (tmr_find_tmr_node lay (some (84 ∷ [])) added.nodes
        ≡ tmr_find_tmr_node lay (some (84 ∷ [])) empty.nodes)
add_timer-find_example =
    add_timer-find lay (85 ∷ []) (84 ∷ []) (asks 250 0) empty added (λ i. omega arith) names_differ
      adds

away : (k : ℕ) → IsTimer 10 4 (lay.tmr_at k)
away k = record { outer = λ j lt. λ e. absurd (omega arith); nonnull = omega arith }

init-IsWheel_example :
    ((tmr_timer_init lay limits 4 100 8 10 (table started (node ∷ []))).stw_sys_handle ≡ 8)
    × IsWheel (tmr_timer_init lay limits 4 100 8 10 (table started (node ∷ []))).wheel no_timers
    × (tmr_find_tmr_node lay
          (some (84 ∷ []))
          (tmr_timer_init lay limits 4 100 8 10 (table started (node ∷ []))).nodes
        ≡ none)
init-IsWheel_example =
    init-IsWheel lay limits 4 100 8 10 (table started (node ∷ [])) (84 ∷ []) (omega arith)
      (omega arith) (omega arith) (omega arith, omega arith) (omega arith, omega arith)
      (λ e. absurd (omega arith)) (λ e. absurd (omega arith)) away
