-- ===== src/TimerTable/Init.antt =====
-- The start of timer management (`tmr_timer_init` of src/timer/base_mgmt.c).
use basearch.Prelude.{
  ℕ, ◌+◌, ◌^◌, ◌≤◌, ◌<◌, ◌≡◌, ◌≢◌, refl, sym, ap, none, some, List, [], ◌∷◌, arith, ◌-◌, inl, inr,
  subst, ltb, map, get_elem?-map, Bool-cases,
}
use basearch.Registry.Slots.{scan-none}
use basearch.Timer.{Store, write}
use basearch.Timer.Store.{count, write-other}
use basearch.Timer.Rings.{Rings, IsTimer}
use basearch.Timer.Invariant.{IsWheel, moved}
use basearch.Timer.Create.{Limits, no_timers, create-IsWheel}
use basearch.TimerTable.{
  Layout, Node, Table, zero_cell, zero_node, clear_cells, is_used_as, tmr_timer_list_init,
  tmr_timer_init, tmr_find_tmr_node, strlen, demo_name,
}
use basearch.TimerTable.Start.{Rings-off}

clear-Rings :
    (lay : Layout) (sp n i : ℕ) (ns : List Node) (m : Store)
    → ((k : ℕ) → IsTimer sp n (lay.tmr_at k))
    → Rings m sp n no_timers
    → Rings (clear_cells lay i ns m) sp n no_timers
unfolding clear_cells count
clear-Rings lay sp n i [] m away r = r
clear-Rings lay sp n i (x ∷ ns) m away r =
    let p = lay.tmr_at i in
    clear-Rings lay sp n (i + 1) ns (write p zero_cell m) away (
      Rings-off (write p zero_cell m) p (away i) (λ k. refl)
        (λ y ne. ap (λ c. c.next) (write-other p zero_cell y m (λ e. ne (sym e))))
        (λ y ne. ap (λ c. c.prev) (write-other p zero_cell y m (λ e. ne (sym e)))) r)

-- No zeroed node is found.
none_used :
    (lay : Layout) (name : List ℕ) (nodes : List Node)
    → tmr_find_tmr_node lay (some name) (map (λ n. zero_node lay) nodes) ≡ none
unfolding tmr_find_tmr_node
none_used lay name nodes =
    let z = scan-none (is_used_as name) (map (λ n. zero_node lay) nodes) 0 (λ i x g.
      let (v, _, e) = get_elem?-map nodes i (λ n. zero_node lay) x g in
      ap (λ n. is_used_as name n) e) in
    elim (Bool-cases (ltb (lay.name_length - 1) (strlen name))) [
      | inl e ↦ rw (tmr_find_tmr_node, e)
      | inr e ↦ rw (tmr_find_tmr_node, e, z)
    ]

-- Timer management that is started with numbers of buckets and milliseconds within the limits, and
-- gets its memory, has an empty wheel at its handle, as each call on a wheel wants it, and finds no
-- timer by any name, whatever the table held.
pub init-IsWheel :
    (lay : Layout) (limits : Limits) (buckets resolution p2stw spokes : ℕ) (t : Table)
    (name : List ℕ)
    → 0 < limits.min_wheel_size
    → limits.max_wheel_size ≤ 2 ^ 31
    → 0 < limits.min_granularity
    → (limits.min_wheel_size ≤ buckets) × (buckets ≤ limits.max_wheel_size)
    → (limits.min_granularity ≤ resolution) × (resolution ≤ limits.max_granularity)
    → p2stw ≢ 0
    → spokes ≢ 0
    → ((k : ℕ) → IsTimer spokes buckets (lay.tmr_at k))
    → ((tmr_timer_init lay limits buckets resolution p2stw spokes t).stw_sys_handle ≡ p2stw)
      × IsWheel (tmr_timer_init lay limits buckets resolution p2stw spokes t).wheel no_timers
      × (tmr_find_tmr_node lay
            (some name)
            (tmr_timer_init lay limits buckets resolution p2stw spokes t).nodes
          ≡ none)
unfolding tmr_timer_init tmr_timer_list_init
init-IsWheel lay limits buckets resolution p2stw spokes t name a b c size res mem1 mem2 away =
    let (s, run, v, n, _, sp) =
      create-IsWheel limits buckets resolution demo_name 1 p2stw spokes t.wheel.mem a b c
        (λ e. absurd (omega arith)) size res mem1 mem2 in
    let m = clear_cells lay 0 t.nodes s.mem in
    let away' : (k : ℕ) → IsTimer s.stw.spokes s.stw.wheel_size (lay.tmr_at k) = λ k.
      let x = subst (λ q. IsTimer q buckets (lay.tmr_at k)) (sym sp) (away k) in
      subst (λ q. IsTimer s.stw.spokes q (lay.tmr_at k)) (sym n) x in
    let w =
      moved (record s { mem = m }) no_timers v refl
        (clear-Rings lay s.stw.spokes s.stw.wheel_size 0 t.nodes s.mem away' v.rings) v.active in
    rw run (refl, w, none_used lay name t.nodes)
