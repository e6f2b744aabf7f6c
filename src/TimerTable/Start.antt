-- ===== src/TimerTable/Start.antt =====
-- A named timer started (`tmr_start_timer` of src/timer/base_mgmt.c): the table's call on the
-- wheel.
use basearch.Prelude.{
  ℕ, ◌+◌, ◌<◌, ◌≡◌, ◌≢◌, refl, sym, ap, ◌∙◌, inl, inr, true, false, Option, some, List, ◌∷◌, arith,
  subst, ◌==◌, ==_iff, eq_false_of_ne, Bool-cases, get_elem?,
}
use native.Mathlib.Decide.{ℕ_discrete}
use basearch.Timer.{
  Store, State, ok, set_next, set_prev, stw_timer_running, stw_timer_prepare, stop_checked,
  start_checked,
}
use basearch.Timer.Store.{
  count, count-other, asked, job-set_next, job-set_prev, next-set_same, next-set_ne, next-set_prev,
  prev-set_ne, prev-set_next,
}
use basearch.Timer.Links.{Seg-frame}
use basearch.Timer.Splice.{uncounted}
use basearch.Timer.Rings.{Spokes, Rings, IsTimer}
use basearch.Timer.Lists.{without, add, count-without_self}
use basearch.Timer.Invariant.{IsWheel, Placed, Armed, arrival, shape, moved}
use basearch.Timer.Enqueue.{spoke_of}
use basearch.Timer.Unlink.{next_set}
use basearch.Timer.Stop.{stop_lem, stop_next, stop-shape, stop-asked}
use basearch.Timer.Start.{start_lem, wanted}
use basearch.TimerTable.{
  Layout, Node, Table, tmr_find_tmr_node, request_of, stop_running, start_prepared, start_node,
  tmr_start_timer,
}

-- A change of the cell of a timer that is on no spoke leaves the lists.
pub Rings-off :
    {m : Store} (m' : Store) {sp n : ℕ} {l : Spokes} (p : ℕ)
    → IsTimer sp n p
    → ((k : ℕ) → count p (l k) ≡ 0)
    → ((y : ℕ) → y ≢ p → (m' y).next ≡ (m y).next)
    → ((y : ℕ) → y ≢ p → (m' y).prev ≡ (m y).prev)
    → Rings m sp n l
    → Rings m' sp n l
Rings-off m' {sp} {n} {l} p new out hn hp r =
    let off : (j y : ℕ) → j < n → 0 < count y ((sp + j) ∷ l j) → y ≢ p = λ j y lt c.
      uncounted p y ((sp + j) ∷ l j) c
        (count-other p (sp + j) (l j) (λ e. new.outer j lt (sym e)) ∙ out j) in
    record {
      base = r.base;
      ring = λ j lt.
          Seg-frame m' (λ y c. hn y (off j y lt c)) (λ y c. hp y (off j y lt c)) (r.ring j lt);
      once = r.once;
      apart = r.apart;
      outer = r.outer;
      nonnull = r.nonnull;
      within = r.within;
    }

-- A wheel where the timer stands on no spoke, with what was asked of it.
record Ready (p : ℕ) (s s' : State) (l : Spokes) : Type 0 where
  valid : IsWheel s' l
  null_next : (s'.mem p).next ≡ 0
  off : (k : ℕ) → count p (l k) ≡ 0
  shaped : shape s'.stw ≡ shape s.stw
  wants : asked (s'.mem p) ≡ asked (s.mem p)

runs_not : (p : ℕ) (m : Store) → (m p).next ≡ 0 → stw_timer_running p m ≡ false
unfolding stw_timer_running
runs_not p m e =
    let q : ((m p).next == 0) ≡ true = (==_iff _ _).1 e in
    elim (Bool-cases (p == 0)) [ inl z ↦ rw z | inr z ↦ rw (z, q) ]

runs : (p : ℕ) (m : Store) → 0 < p → (m p).next ≢ 0 → stw_timer_running p m ≡ true
unfolding stw_timer_running
runs p m pos ne =
    let q : ((m p).next == 0) ≡ false = eq_false_of_ne _ _ ne in
    let z : (p == 0) ≡ false = eq_false_of_ne _ _ (λ e. absurd (omega arith)) in rw (z, q)

stop_running-Ready :
    (stw p : ℕ) (s : State) (l : Spokes)
    → stw ≢ 0
    → IsTimer s.stw.spokes s.stw.wheel_size p
    → Placed p s l
    → IsWheel s l
    → (s' : State) × (l' : Spokes) × (stop_running stw p s ≡ (ok, s')) × Ready p s s' l'
unfolding stop_running
stop_running-Ready stw p s l ne new place v = elim (ℕ_discrete (s.mem p).next 0) [
  | yes e ↦
      let q = runs_not p s.mem e in
      let out : (k : ℕ) → count p (l k) ≡ 0 = elim place [
        | inl (j, on) ↦ absurd (next_set v.rings j p on e)
        | inr (z, o) ↦ o
      ] in
      (s, l, rw q, record { valid = v; null_next = e; off = out; shaped = refl; wants = refl })
  | no nz ↦
      let q = runs p s.mem new.nonnull nz in
      let (run, w, _) = stop_lem stw p s l ne new place v in
      (
        stop_checked p s,
        without p l,
        rw q run,
        record {
          valid = w;
          null_next = stop_next s l p v place;
          off = λ k. count-without_self p k l;
          shaped = stop-shape p s;
          wants = stop-asked p p s;
        },
      )
]

prepared-Ready :
    (p : ℕ) (s s' : State) (l : Spokes)
    → IsTimer s.stw.spokes s.stw.wheel_size p
    → Ready p s s' l
    → Ready p s (record s' { mem = stw_timer_prepare p s'.mem }) l
unfolding stw_timer_prepare
prepared-Ready p s s' l new r =
    let z : (p == 0) ≡ false =
      eq_false_of_ne _ _ (λ e. let k = new.nonnull in absurd (omega arith)) in
    let new' = subst (λ w. IsTimer w.spokes w.wheel_size p) (sym r.shaped) new in
    let m = set_prev p 0 (set_next p 0 s'.mem) in
    let t = record s' { mem = m } in
    let rings =
      Rings-off m p new' r.off
        (λ y ne. next-set_prev p 0 y _ ∙ next-set_ne p 0 y s'.mem (λ e. ne (sym e)))
        (λ y ne. prev-set_ne p 0 y _ (λ e. ne (sym e)) ∙ prev-set_next p 0 y s'.mem)
        r.valid.rings in
    let w : Ready p s t l = record {
      valid = moved t l r.valid refl rings r.valid.active;
      null_next = next-set_prev p 0 p _ ∙ next-set_same p 0 p s'.mem refl;
      off = r.off;
      shaped = r.shaped;
      wants = ap asked (job-set_prev p 0 p _ ∙ job-set_next p 0 p s'.mem) ∙ r.wants;
    } in
    rw z w

-- The start of a node's timer on a wheel where it is prepared.
prepared_starts :
    (stw p : ℕ) (n : Node) (s s' : State) (l : Spokes)
    → stw ≢ 0
    → IsTimer s.stw.spokes s.stw.wheel_size p
    → Ready p s s' l
    → (w : State) × (l' : Spokes) × (start_prepared stw p n s' ≡ (true, w))
      × IsWheel w l'
      × Armed w l' p (arrival s.stw (s.mem p).delay)
      × (asked (w.mem p) ≡ wanted (request_of n (s.mem p)))
unfolding start_prepared request_of
prepared_starts stw p n s s' l ne new r0 =
    let r = prepared-Ready p s s' l new r0 in
    let t = record s' { mem = stw_timer_prepare p s'.mem } in
    let new' = subst (λ w. IsTimer w.spokes w.wheel_size p) (sym r.shaped) new in
    let q = request_of n (t.mem p) in
    let same : q ≡ request_of n (s.mem p) = ap (λ c. request_of n c) r.wants in
    let (run, v, a, b) = start_lem stw p q t l ne new' (inr (r.null_next, r.off)) r.valid in
    let d : arrival t.stw q.delay ≡ arrival s.stw (s.mem p).delay =
      ap (λ w. arrival w q.delay) r.shaped ∙ ap (λ x. arrival s.stw x.delay) same in
    (
      start_checked p q t,
      add (spoke_of t q.delay) p (without p l),
      rw (start_prepared, run),
      v,
      subst (Armed (start_checked p q t) (add (spoke_of t q.delay) p (without p l)) p) d a,
      b ∙ ap wanted same,
    )

node_starts :
    (stw p : ℕ) (n : Node) (s : State) (l : Spokes)
    → stw ≢ 0
    → IsTimer s.stw.spokes s.stw.wheel_size p
    → Placed p s l
    → IsWheel s l
    → (w : State) × (l' : Spokes) × (start_node stw p n s ≡ (true, w))
      × IsWheel w l'
      × Armed w l' p (arrival s.stw (s.mem p).delay)
      × (asked (w.mem p) ≡ wanted (request_of n (s.mem p)))
unfolding start_node
node_starts stw p n s l ne new place v =
    let (s', l1, run, r) = stop_running-Ready stw p s l ne new place v in
    let (w, l', go, x, a, b) = prepared_starts stw p n s s' l1 ne new r in
    (w, l', rw (start_node, run) go, x, a, b)

-- A start by name of a timer that the table holds succeeds, whether the timer runs or not: its
-- lists whole, the wheel holds the timer, with what its node and its cell asked for, due after the
-- ticks of the delay that it was added with, or a turn of the wheel later where these are whole
-- turns.
pub start_timer_lem :
    (lay : Layout) (name : Option (List ℕ)) (i : ℕ) (n : Node) (t : Table) (l : Spokes)
    → tmr_find_tmr_node lay name t.nodes ≡ some i
    → get_elem? t.nodes i ≡ some n
    → t.stw_sys_handle ≢ 0
    → IsTimer t.wheel.stw.spokes t.wheel.stw.wheel_size (lay.tmr_at i)
    → Placed (lay.tmr_at i) t.wheel l
    → IsWheel t.wheel l
    → (w : State) × (l' : Spokes) × (tmr_start_timer lay name t ≡ (true, record t { wheel = w }))
      × IsWheel w l'
      × Armed w l' (lay.tmr_at i) (arrival t.wheel.stw (t.wheel.mem (lay.tmr_at i)).delay)
      × (asked (w.mem (lay.tmr_at i)) ≡ wanted (request_of n (t.wheel.mem (lay.tmr_at i))))
unfolding tmr_start_timer
start_timer_lem lay name i n t l found at ne new place v =
    let p = lay.tmr_at i in
    let (w, l', run, x, a, b) = node_starts t.stw_sys_handle p n t.wheel l ne new place v in
    (w, l', rw (tmr_start_timer, found, at, run), x, a, b)
