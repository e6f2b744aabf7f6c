-- ===== src/TimerTable/Text.antt =====
-- The names of timers, and what the search finds after `tmr_add_timerNode` of
-- src/timer/base_mgmt.c.
use basearch.Prelude.{
  ℕ, zero, suc, ◌+◌, ◌-◌, ◌≤◌, ◌<◌, ◌≡◌, ◌≢◌, refl, sym, ap, ◌∙◌, inl, inr, Bool, true, false, not,
  none, some, List, [], ◌∷◌, ◌++◌, arith, subst, ltb, ◌==◌, ==_refl, eq_false_of_ne, if◌then◌else◌,
  Bool-cases, Option-cases, length, replicate, get_elem?, modify, get_elem?-modify_self,
  get_elem?-modify_ne,
}
use basearch.Registry.Slots.{scan, scan-some, scan-first, scan-none, scan-none_inv}
use basearch.Name.{chars_of}
use native.Mathlib.Nat.{zero-add}
use basearch.Timer.{Request, Store, write, set_next, set_prev, stw_timer_prepare}
use basearch.Timer.Store.{job, job-set_next, job-set_prev, next-set_prev, next-set_same, write-same}
use basearch.Timer.Create.{strncpy}
use basearch.TimerTable.{
  Layout, Node, Table, text, strlen, same_chars, is_used_as, tmr_find_free_tmr_node,
  tmr_find_tmr_node, fill_node, add_at, refuses, tmr_add_timer_node, fill_timer, request_of,
}

text_zeros : (n : ℕ) → text (replicate n 0 ++ 0 ∷ []) ≡ []
unfolding text replicate
text_zeros zero = refl
text_zeros (suc n) = refl

-- The buffer of a name that fits holds that name.
text_chars :
    (n k : ℕ) (s : List ℕ)
    → length (text s) ≤ n
    → text ((chars_of n s ++ replicate k 0) ++ 0 ∷ []) ≡ text s
unfolding text chars_of
text_chars zero k [] h = text_zeros k
text_chars zero k (c ∷ s) h = elim (Bool-cases (c == 0)) [
  | inl e ↦ rw e (text_zeros k)
  | inr e ↦
      let z : suc (length (text s)) ≤ 0 =
        subst (λ b. length (if b then [] else c ∷ text s) ≤ 0) e h in
      absurd (omega arith)
]
text_chars (suc n) k [] h = text_zeros k
text_chars (suc n) k (c ∷ s) h = elim (Bool-cases (c == 0)) [
  | inl e ↦ rw e (text_zeros k)
  | inr e ↦
      let z : suc (length (text s)) ≤ suc n =
        subst (λ b. length (if b then [] else c ∷ text s) ≤ suc n) e h in
      rw (e, e) (ap (λ t. c ∷ t) (text_chars n k s (omega arith)))
]

pub same_chars_refl : (s : List ℕ) → same_chars s s ≡ true
unfolding same_chars
same_chars_refl [] = refl
same_chars_refl (c ∷ s) = let e = ==_refl c in rw (e, same_chars_refl s)

same_chars-eq : (a b : List ℕ) → same_chars a b ≡ true → a ≡ b
unfolding same_chars
same_chars-eq [] [] h = refl
same_chars-eq [] (y ∷ b) h = cc
same_chars-eq (x ∷ a) [] h = cc
same_chars-eq (x ∷ a) (y ∷ b) h = ground (arith, same_chars-eq a b)

-- A change of one element that the test does not see.
pub scan-modify_at :
    {A : Type 0} (p : A → Bool) (xs : List A) (k i : ℕ) (f : A → A) (x : A)
    → get_elem? xs i ≡ some x
    → p (f x) ≡ p x
    → scan p (modify xs i f) k ≡ scan p xs k
unfolding scan
scan-modify_at p [] k i f x g e = refl
scan-modify_at p (y ∷ xs) k zero f x g e = let q : p (f y) ≡ p y = ground arith in rw q
scan-modify_at p (y ∷ xs) k (suc i) f x g e = rw (scan-modify_at p xs (k + 1) i f x g e)

-- The name of a node that was filled.
text-fill :
    (lay : Layout) (name : List ℕ) (q : Request) (n : Node)
    → strlen name ≤ lay.name_length - 1
    → text (fill_node lay name q n).timer_name ≡ text name
unfolding fill_node strncpy strlen
text-fill lay name q n le = text_chars (lay.name_length - 1) _ name le

filled :
    (lay : Layout) (name : List ℕ) (q : Request) (n : Node) (other : List ℕ)
    → strlen name ≤ lay.name_length - 1
    → is_used_as other (fill_node lay name q n) ≡ same_chars (text other) (text name)
unfolding fill_node
filled lay name q n other le = ap (same_chars (text other)) (text-fill lay name q n le)

adds_at :
    (lay : Layout) (name : List ℕ) (q : Request) (t t' : Table)
    → tmr_add_timer_node lay (some name) q t ≡ (true, t')
    → (i : ℕ) × (refuses lay name q ≡ false)
      × (tmr_find_free_tmr_node (some name) t.nodes ≡ some i)
      × (t' ≡ add_at lay i name q t)
unfolding tmr_add_timer_node
adds_at lay name q t t' run = elim (Bool-cases (refuses lay name q)) [
  | inl e ↦
      let k : tmr_add_timer_node lay (some name) q t ≡ (false, t) = rw (tmr_add_timer_node, e) in
      absurd (ground arith)
  | inr e ↦ elim (Option-cases (tmr_find_free_tmr_node (some name) t.nodes)) [
    | inl none_ ↦
        let k : tmr_add_timer_node lay (some name) q t ≡ (false, t) =
          rw (tmr_add_timer_node, e, none_) in
        absurd (ground arith)
    | inr (i, at) ↦
        let k : tmr_add_timer_node lay (some name) q t ≡ (true, add_at lay i name q t) =
          rw (tmr_add_timer_node, e, at) in
        (i, e, at, ap (λ p. p.1) (sym run ∙ k))
  ]
]

-- A free node is unused, and no node has the name.
free_node :
    (name : List ℕ) (nodes : List Node) (i : ℕ)
    → tmr_find_free_tmr_node (some name) nodes ≡ some i
    → ((n : Node) × (get_elem? nodes i ≡ some n) × (n.used ≡ false))
      × ((k : ℕ) (n : Node) → get_elem? nodes k ≡ some n → is_used_as name n ≡ false)
unfolding tmr_find_free_tmr_node
free_node name nodes i e =
    elim (Option-cases (scan (λ n. same_chars (text name) (text n.timer_name)) nodes 0)) [
      | inr (k, at) ↦
          let z : tmr_find_free_tmr_node (some name) nodes ≡ none =
            rw (tmr_find_free_tmr_node, at) in
          absurd (ground arith)
      | inl miss ↦
          let z : tmr_find_free_tmr_node (some name) nodes ≡ scan (λ n. not n.used) nodes 0 =
            rw (tmr_find_free_tmr_node, miss) in
          let (k, q, (n, g, u), _) = scan-some (λ n. not n.used) nodes 0 i (sym z ∙ e) in
          let same : k ≡ i = omega arith in
          (
            (n, subst (λ x. get_elem? nodes x ≡ some n) same g, ground arith),
            λ x m gm.
                let w =
                  scan-none_inv (λ n. same_chars (text name) (text n.timer_name)) nodes 0 x m miss
                    gm in
                ground arith,
          )
    ]

finds :
    (lay : Layout) (name : List ℕ) (nodes : List Node)
    → strlen name ≤ lay.name_length - 1
    → tmr_find_tmr_node lay (some name) nodes ≡ scan (is_used_as name) nodes 0
unfolding tmr_find_tmr_node
finds lay name nodes le =
    let q : ltb (lay.name_length - 1) (strlen name) ≡ false = ground arith in
    rw (tmr_find_tmr_node, q)

fits :
    (lay : Layout) (name : List ℕ) (q : Request)
    → refuses lay name q ≡ false
    → strlen name ≤ lay.name_length - 1
unfolding refuses
fits lay name q h = ground arith

pub differs : (a b : List ℕ) → text a ≢ text b → same_chars (text a) (text b) ≡ false
differs a b ne = elim (Bool-cases (same_chars (text a) (text b))) [
  | inl e ↦ absurd (ne (same_chars-eq (text a) (text b) e))
  | inr e ↦ e
]

idle_name : (name : List ℕ) (n : Node) → n.used ≡ false → is_used_as name n ≡ false
idle_name name n e = rw e

find_other :
    (lay : Layout) (name : List ℕ) (xs ys : List Node)
    → scan (is_used_as name) xs 0 ≡ scan (is_used_as name) ys 0
    → tmr_find_tmr_node lay (some name) xs ≡ tmr_find_tmr_node lay (some name) ys
unfolding tmr_find_tmr_node
find_other lay name xs ys e =
    ap (λ o. if ltb (lay.name_length - 1) (strlen name) then none else o) e

-- The cell of a timer that was added: prepared, with what its node then asks of the wheel.
fill_timer_lem :
    (lay : Layout) (name : List ℕ) (p : ℕ) (n : Node) (q : Request) (m : Store)
    → 0 < p
    → ((fill_timer p q m p).next ≡ 0)
      × (request_of (fill_node lay name q n) (fill_timer p q m p) ≡ q)
unfolding fill_timer stw_timer_prepare request_of fill_node
fill_timer_lem lay name p n q m pos =
    let z : (p == 0) ≡ false = eq_false_of_ne _ _ (λ e. absurd (omega arith)) in
    let c = record (m p) {
      delay = q.delay;
      periodic_delay = q.periodic_delay;
      func_ptr = q.user_cb;
    } in
    let m' = write p c m in
    let kept : job (set_prev p 0 (set_next p 0 m') p) ≡ job c =
      job-set_prev p 0 p _ ∙ job-set_next p 0 p m' ∙ ap job (write-same p c p m refl) in
    rw z (
      next-set_prev p 0 p _ ∙ next-set_same p 0 p m' refl,
      ap (λ x. request_of (fill_node lay name q n) x) kept,
    )

-- An addition by name that succeeds: no node had the name; now the search by it finds a node, whose
-- timer is prepared and asks the wheel for what the caller gave, and the search by a different
-- name finds what it found before.
pub add_timer-find :
    (lay : Layout) (name other : List ℕ) (q : Request) (t t' : Table)
    → ((i : ℕ) → 0 < lay.tmr_at i)
    → text other ≢ text name
    → tmr_add_timer_node lay (some name) q t ≡ (true, t')
    → (i : ℕ) × (n : Node) × (tmr_find_tmr_node lay (some name) t.nodes ≡ none)
      × (tmr_find_tmr_node lay (some name) t'.nodes ≡ some i)
      × (get_elem? t'.nodes i ≡ some n)
      × ((t'.wheel.mem (lay.tmr_at i)).next ≡ 0)
      × (request_of n (t'.wheel.mem (lay.tmr_at i)) ≡ q)
      × (tmr_find_tmr_node lay (some other) t'.nodes ≡ tmr_find_tmr_node lay (some other) t.nodes)
unfolding add_at
add_timer-find lay name other q t t' pos differ run =
    let (i, ok_args, at, e) = adds_at lay name q t t' run in
    let le : strlen name ≤ lay.name_length - 1 = fits lay name q ok_args in
    let ((n, g, unused), nobody) = free_node name t.nodes i at in
    let f = fill_node lay name q in
    let (null_, asks) = fill_timer_lem lay name (lay.tmr_at i) n q t.wheel.mem (pos i) in
    let here = get_elem?-modify_self t.nodes i f n g in
    let used : is_used_as name (f n) ≡ true =
      filled lay name q n name le ∙ same_chars_refl (text name) in
    let ours : scan (is_used_as name) (modify t.nodes i f) 0 ≡ some i =
      scan-first (is_used_as name) (modify t.nodes i f) 0 i (f n) here used (λ k x lt gx.
        nobody k x (sym (get_elem?-modify_ne t.nodes i k f (λ z. absurd (omega arith))) ∙ gx))
      ∙ ap some (zero-add i) in
    let theirs : is_used_as other (f n) ≡ is_used_as other n =
      filled lay name q n other le ∙ differs other name differ ∙ sym (idle_name other n unused) in
    subst
      (λ u.
        (j : ℕ) × (m : Node) × (tmr_find_tmr_node lay (some name) t.nodes ≡ none)
        × (tmr_find_tmr_node lay (some name) u.nodes ≡ some j)
        × (get_elem? u.nodes j ≡ some m)
        × ((u.wheel.mem (lay.tmr_at j)).next ≡ 0)
        × (request_of m (u.wheel.mem (lay.tmr_at j)) ≡ q)
        × (tmr_find_tmr_node lay (some other) u.nodes ≡ tmr_find_tmr_node lay (some other) t.nodes))
      (sym e)
      (
        i,
        f n,
        finds lay name t.nodes le ∙ scan-none (is_used_as name) t.nodes 0 nobody,
        finds lay name (modify t.nodes i f) le ∙ ours,
        here,
        null_,
        asks,
        find_other lay other (modify t.nodes i f) t.nodes
            (scan-modify_at (is_used_as other) t.nodes 0 i f n g theirs),
      )
