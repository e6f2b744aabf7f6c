-- ===== src/TimerTable/Delete.antt =====
-- A named timer deleted (`tmr_delete_timerNode` of src/timer/base_mgmt.c).
use basearch.Prelude.{
  ℕ, ◌+◌, ◌<◌, ◌≡◌, ◌≢◌, refl, sym, ap, ◌∙◌, inr, true, false, replicate, get_elem?,
  get_elem?-modify_self, get_elem?-modify_ne, Option, some, List, [], ◌∷◌, arith, subst,
}
use basearch.Timer.{Store, write}
use basearch.Timer.Store.{
  count, count_self, count-cons-le, count-append, write-same, write-other, cut,
}
use basearch.Timer.Links.{Seg, end, link, Seg-before}
use basearch.Timer.Rings.{Spokes, IsTimer, full_once}
use basearch.Timer.Invariant.{IsWheel, Placed, moved}
use basearch.TimerTable.{
  Node, zero_node, Layout, Table, zero_cell, tmr_find_tmr_node, delete_at, tmr_delete_timer_node,
}
use basearch.TimerTable.Start.{Rings-off}

head_ne : (t a : ℕ) (ys : List ℕ) → count t (a ∷ ys) ≡ 0 → a ≢ t
head_ne t a ys z e =
    let k = subst (λ v. count t (v ∷ ys) ≡ 0) e z in absurd (omega (arith, count_self t ys))

-- No list goes on from a cell whose link is NULL.
null_end :
    (m : Store) (b t : ℕ) {xs : List ℕ}
    → 0 < b
    → (m t).next ≡ 0
    → Seg m b t xs
    → ((x : ℕ) → 0 < count x xs → 0 < x)
    → ⊥
null_end m b t pos z (end n p) full = absurd (omega arith)
null_end m b t pos z (link {x = x} {xs = xs} n p s) full =
    let k = full x (omega (arith, count_self x xs)) in absurd (omega arith)

-- A circular list without NULL does not reach a cell whose link is NULL.
never_null :
    (m m' : Store) (b t : ℕ)
    → 0 < b
    → (m' t).next ≡ 0
    → ((y : ℕ) → y ≢ t → (m' y).next ≡ (m y).next)
    → {a : ℕ} (ys : List ℕ) {xs : List ℕ} → Seg m t a ys
    → count t (a ∷ ys) ≡ 0
    → count b (ys) ≡ 0
    → b ≢ t
    → Seg m' b a xs
    → ((x : ℕ) → 0 < count x xs → 0 < x)
    → ⊥
never_null m m' b t pos z off {a} [] (end n p) fresh nb ne (end n' p') full =
    let e : (m' a).next ≡ (m a).next = off a (head_ne t a [] fresh) in ne (sym n' ∙ e ∙ n)
never_null m m' b t pos z off {a} [] (end n p) fresh nb ne (link {xs = xs} n' p' s') full =
    let e : (m' a).next ≡ (m a).next = off a (head_ne t a [] fresh) in
    null_end m' b t pos z (subst (λ u. Seg m' b u xs) (sym n' ∙ e ∙ n) s')
      (λ x c. full x (omega (arith, count-cons-le x _ xs)))
never_null m m' b t pos z off {a} (y ∷ ys) (link n p s) fresh nb ne (end n' p') full =
    let e : (m' a).next ≡ (m a).next = off a (head_ne t a (y ∷ ys) fresh) in
    let q : y ≡ b = sym n ∙ sym e ∙ n' in
    let k = subst (λ v. count b (v ∷ ys) ≡ 0) q nb in absurd (omega (arith, count_self b ys))
never_null m m' b t pos z off {a} (y ∷ ys) (link n p s) fresh nb ne
      (link {x = x} {xs = xs} n' p' s') full =
    let e : (m' a).next ≡ (m a).next = off a (head_ne t a (y ∷ ys) fresh) in
    let q : x ≡ y = sym n' ∙ e ∙ n in
    never_null m m' b t pos z off ys s (omega (arith, count-cons-le t a (y ∷ ys)))
      (omega (arith, count-cons-le b y ys)) ne (subst (λ u. Seg m' b u xs) q s')
      (λ w c. full w (omega (arith, count-cons-le w x xs)))

deletes :
    (lay : Layout) (name : Option (List ℕ)) (i : ℕ) (t : Table)
    → tmr_find_tmr_node lay name t.nodes ≡ some i
    → tmr_delete_timer_node lay name t ≡ (true, delete_at lay i t)
unfolding tmr_delete_timer_node
deletes lay name i t found = rw (tmr_delete_timer_node, found)

-- A timer is deleted by name while it is on a spoke: the call succeeds, and the wheel is none any
-- more, since the spoke's list runs into NULL.
pub delete_breaks :
    (lay : Layout) (name : Option (List ℕ)) (i j : ℕ) (t : Table) (l : Spokes)
    → tmr_find_tmr_node lay name t.nodes ≡ some i
    → 0 < count (lay.tmr_at i) (l j)
    → IsWheel t.wheel l
    → (tmr_delete_timer_node lay name t ≡ (true, delete_at lay i t))
      × (¬ ((l' : Spokes) × IsWheel (delete_at lay i t).wheel l'))
unfolding delete_at
delete_breaks lay name i j t l found on v =
    let p = lay.tmr_at i in
    let h = t.wheel.stw.spokes + j in
    let m = t.wheel.mem in
    let lt = v.rings.within j p on in
    let k = cut p (l j) on in
    let split : (y : ℕ) → count y (h ∷ l j) ≡ count y (h ∷ k.before) + count y (p ∷ k.after) =
      λ y. ap (λ u. count y (h ∷ u)) k.whole ∙ count-append y (h ∷ k.before) (p ∷ k.after) in
    let fresh : count p (h ∷ k.before) ≡ 0 =
      omega (arith, split p, full_once v.rings j p lt, count_self p k.after) in
    let alone : count h k.before ≡ 0 =
      omega (arith, split h, full_once v.rings j h lt, count_self h k.before) in
    let s = Seg-before k.before k.after (subst (λ u. Seg m h h u) k.whole (v.rings.ring j lt)) in
    let base = v.rings.base in
    (
      deletes lay name i t found,
      λ (l', v').
          never_null m (write p zero_cell m) h p (omega arith)
            (ap (λ c. c.next) (write-same p zero_cell p m refl))
            (λ y ne. ap (λ c. c.next) (write-other p zero_cell y m (λ e. ne (sym e)))) k.before s
            fresh alone (λ e. v.rings.outer j p j on lt (sym e)) (v'.rings.ring j lt)
            (λ x c. v'.rings.nonnull j x c),
    )

-- A timer that is on no spoke is deleted by name: the call succeeds, its node is then unused and
-- without a name and its cell zeroed, and all else is as before: the other nodes and cells, the
-- wheel with the timers on its spokes and its counters, and the call-backs made.
pub delete_idle :
    (lay : Layout) (name : Option (List ℕ)) (i : ℕ) (n : Node) (t : Table) (l : Spokes)
    → tmr_find_tmr_node lay name t.nodes ≡ some i
    → get_elem? t.nodes i ≡ some n
    → IsTimer t.wheel.stw.spokes t.wheel.stw.wheel_size (lay.tmr_at i)
    → ((k : ℕ) → count (lay.tmr_at i) (l k) ≡ 0)
    → IsWheel t.wheel l
    → (t' : Table) × (tmr_delete_timer_node lay name t ≡ (true, t'))
      × (IsWheel t'.wheel l × (t'.wheel.stw ≡ t.wheel.stw) × (t'.wheel.calls ≡ t.wheel.calls))
      × (Placed (lay.tmr_at i) t'.wheel l
          × (t'.wheel.mem (lay.tmr_at i) ≡ zero_cell)
          × ((a : ℕ) → a ≢ lay.tmr_at i → t'.wheel.mem a ≡ t.wheel.mem a))
      × ((get_elem? t'.nodes i
            ≡ some (record {
              used = false;
              timer_name = replicate lay.name_length 0;
              tid = 0;
              parm = 0;
            }))
          × ((j : ℕ) → i ≢ j → get_elem? t'.nodes j ≡ get_elem? t.nodes j))
unfolding delete_at
delete_idle lay name i n t l found at new out v =
    let p = lay.tmr_at i in
    let m = t.wheel.mem in
    (
      delete_at lay i t,
      deletes lay name i t found,
      (
        moved (record t.wheel { mem = write p zero_cell m }) l v refl
            (Rings-off (write p zero_cell m) p new out
              (λ y ne. ap (λ c. c.next) (write-other p zero_cell y m (λ e. ne (sym e))))
              (λ y ne. ap (λ c. c.prev) (write-other p zero_cell y m (λ e. ne (sym e)))) v.rings)
            v.active,
        refl,
        refl,
      ),
      (
        inr (ap (λ c. c.next) (write-same p zero_cell p m refl), out),
        write-same p zero_cell p m refl,
        λ a ne. write-other p zero_cell a m (λ e. ne (sym e)),
      ),
      (
        get_elem?-modify_self t.nodes i (λ k. zero_node lay) n at,
        λ j ne. get_elem?-modify_ne t.nodes i j (λ k. zero_node lay) ne,
      ),
    )
