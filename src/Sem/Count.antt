-- ===== src/Sem/Count.antt =====
-- The value of a semaphore under takes and gives by name: no take succeeds without a unit, and
-- each give adds one.
use basearch.Prelude.{
  ℕ, zero, suc, ◌+◌, ◌-◌, ◌≤◌, ◌≡◌, refl, sym, ap, ◌∙◌, ◌≢◌, inl, inr, Bool, true, false, Option,
  none, some, List, arith, ◌==◌, ==_iff, eq_false_of_ne, Option-cases, get_elem?, modify,
  get_elem?-modify_self, get_elem?-modify_ne,
}
use native.Mathlib.Decide.{ℕ_discrete}
use basearch.Registry.Slots.{find_slot, find_slot-some, find_slot-modify}
use basearch.Registry.{success, failure, SemEntry, Registry, clear_first}
use basearch.Sem.{
  World, sem_pointer, base_sem_take, base_sem_give, count_at, put_count, set_count, sem_wait,
  returned, waits,
}

abbrev pub at_id : ℕ → SemEntry → Bool
at_id id s = s.sem_id == id

put_count-find :
    (id n i : ℕ) (g : Registry)
    → find_slot (at_id id) g.sems ≡ some i
    → put_count id n g ≡ record g { sems = modify g.sems i (set_count n) }
unfolding put_count clear_first
put_count-find id n i g e = rw (put_count, clear_first, e)

-- The slot whose value is read.
count_at-slot :
    (id n : ℕ) (g : Registry)
    → count_at id g ≡ some n
    → (i : ℕ) × (s : SemEntry) × (find_slot (at_id id) g.sems ≡ some i)
      × (get_elem? g.sems i ≡ some s)
      × (s.count ≡ n)
unfolding count_at
count_at-slot id n g e = elim (Option-cases (find_slot (at_id id) g.sems)) [
  | inl miss ↦ let k : count_at id g ≡ none = rw (count_at, miss) in absurd (ground arith)
  | inr (i, at) ↦
      let (_, (s, gs, _), _) = find_slot-some (at_id id) g.sems i at in
      let k : count_at id g ≡ some s.count = rw (count_at, at, gs) in (i, s, at, gs, ground arith)
]

pub count_at-known :
    (id i : ℕ) (s : SemEntry) (g : Registry)
    → find_slot (at_id id) g.sems ≡ some i
    → get_elem? g.sems i ≡ some s
    → count_at id g ≡ some s.count
unfolding count_at
count_at-known id i s g e gs = rw (count_at, e, gs)

abbrev id_of : Option SemEntry → ℕ
id_of none = 0
id_of (some s) = s.sem_id

-- The value that is put is read, at the same address, and at other addresses what was.
pub count_at-put_count :
    (id n k : ℕ) (g : Registry) → count_at id g ≡ some n → count_at id (put_count id k g) ≡ some k
count_at-put_count id n k g e =
    let (i, s, at, gs, _) = count_at-slot id n g e in
    rw (put_count-find id k i g at) (
      count_at-known id i (set_count k s) (record g { sems = modify g.sems i (set_count k) })
        (find_slot-modify (at_id id) g.sems i (set_count k) (λ x. refl) ∙ at)
        (get_elem?-modify_self g.sems i (set_count k) s gs))

pub count_at-put_other :
    (id id' n n' k : ℕ) (g : Registry)
    → id ≢ id'
    → count_at id g ≡ some n
    → count_at id' g ≡ some n'
    → count_at id' (put_count id k g) ≡ some n'
count_at-put_other id id' n n' k g ne e e' =
    let (i, s, at, gs, _) = count_at-slot id n g e in
    let (j, s', at', gs', c) = count_at-slot id' n' g e' in
    let (_, (x, gx, hx), _) = find_slot-some (at_id id) g.sems i at in
    let (_, (y, gy, hy), _) = find_slot-some (at_id id') g.sems j at' in
    let p = (==_iff x.sem_id id).0 hx in
    let q = (==_iff y.sem_id id').0 hy in
    let apart : i ≢ j = λ z.
      let u : get_elem? g.sems i ≡ some y = rw z gy in
      ne (sym p ∙ ap (λ o. id_of o) (sym gx ∙ u) ∙ q) in
    rw (put_count-find id k i g at) (
      count_at-known id' j s' (record g { sems = modify g.sems i (set_count k) })
        (find_slot-modify (at_id id') g.sems i (set_count k) (λ x. refl) ∙ at')
        (get_elem?-modify_ne g.sems i j (set_count k) apart ∙ gs')
      ∙ ap some c)

take_waits :
    (w : World) (name : List ℕ) (id : ℕ) (g : Registry)
    → w.rc ≡ 0
    → sem_pointer w name g ≡ some id
    → count_at id g ≡ some 0
    → base_sem_take w name g ≡ waits
unfolding base_sem_take sem_wait
take_waits w name id g ok found e =
    let q : (w.rc == 0) ≡ true = (==_iff _ _).1 ok in rw (base_sem_take, found, sem_wait, q, e)

take_takes :
    (w : World) (name : List ℕ) (id k : ℕ) (g : Registry)
    → w.rc ≡ 0
    → sem_pointer w name g ≡ some id
    → count_at id g ≡ some (suc k)
    → base_sem_take w name g ≡ returned success (put_count id k g)
unfolding base_sem_take sem_wait
take_takes w name id k g ok found e =
    let q : (w.rc == 0) ≡ true = (==_iff _ _).1 ok in
    let z : (suc k == 0) ≡ false = eq_false_of_ne _ _ (λ x. absurd (omega arith)) in
    let d : suc k - 1 ≡ k = omega arith in
    rw (base_sem_take, found, sem_wait, q, e, z) (ap (λ n. returned success (put_count id n g)) d)

give_gives :
    (w : World) (name : List ℕ) (id n : ℕ) (g : Registry)
    → w.rc ≡ 0
    → sem_pointer w name g ≡ some id
    → count_at id g ≡ some n
    → base_sem_give w name g ≡ (success, put_count id (n + 1) g)
unfolding base_sem_give
give_gives w name id n g ok found e =
    let q : (w.rc == 0) ≡ true = (==_iff _ _).1 ok in rw (base_sem_give, found, q, e)

give_fails :
    (w : World) (name : List ℕ) (id : ℕ) (g : Registry)
    → w.rc ≢ 0
    → sem_pointer w name g ≡ some id
    → base_sem_give w name g ≡ (failure, g)
unfolding base_sem_give
give_fails w name id g bad found =
    let q : (w.rc == 0) ≡ false = eq_false_of_ne _ _ bad in rw (base_sem_give, found, q)

-- A take of a semaphore that returns without an error had a unit, and has taken it.
pub take_unit :
    (w : World) (name : List ℕ) (id n : ℕ) (g h : Registry)
    → w.rc ≡ 0
    → sem_pointer w name g ≡ some id
    → count_at id g ≡ some n
    → base_sem_take w name g ≡ returned success h
    → (k : ℕ) × (n ≡ suc k) × (h ≡ put_count id k g)
take_unit w name id zero g h ok found e run =
    let k = take_waits w name id g ok found e in absurd (cc)
take_unit w name id (suc k) g h ok found e run =
    let r = take_takes w name id k g ok found e in (k, refl, cc)

pub give_unit :
    (w : World) (name : List ℕ) (id n : ℕ) (g h : Registry)
    → sem_pointer w name g ≡ some id
    → count_at id g ≡ some n
    → base_sem_give w name g ≡ (success, h)
    → h ≡ put_count id (n + 1) g
give_unit w name id n g h found e run = elim (ℕ_discrete w.rc 0) [
  | yes ok ↦ let r = give_gives w name id n g ok found e in cc
  | no bad ↦ let r = give_fails w name id g bad found in absurd (cc)
]

-- The registry, with the takes and the gives of one semaphore that have succeeded.
pub record Use : Type 0 where
  pub registry : Registry
  pub taken : ℕ
  pub given : ℕ

-- A call by any name whose pointer is then `id`, or the address of another semaphore. A take is one
-- whose `sem_wait` returns 0.
pub data Step (id : ℕ) : Use → Use → Type 0 where
  takes :
      {s : Use} (w : World) (name : List ℕ) (h : Registry)
      → w.rc ≡ 0
      → sem_pointer w name s.registry ≡ some id
      → base_sem_take w name s.registry ≡ returned success h
      → Step id s (record s { registry = h; taken = s.taken + 1 })
  gives :
      {s : Use} (w : World) (name : List ℕ) (h : Registry)
      → sem_pointer w name s.registry ≡ some id
      → base_sem_give w name s.registry ≡ (success, h)
      → Step id s (record s { registry = h; given = s.given + 1 })
  takes_other :
      {s : Use} (w : World) (name : List ℕ) (h : Registry) (id' n : ℕ)
      → id' ≢ id
      → w.rc ≡ 0
      → sem_pointer w name s.registry ≡ some id'
      → count_at id' s.registry ≡ some n
      → base_sem_take w name s.registry ≡ returned success h
      → Step id s (record s { registry = h })
  gives_other :
      {s : Use} (w : World) (name : List ℕ) (h : Registry) (id' n : ℕ)
      → id' ≢ id
      → sem_pointer w name s.registry ≡ some id'
      → count_at id' s.registry ≡ some n
      → base_sem_give w name s.registry ≡ (success, h)
      → Step id s (record s { registry = h })

pub data Reach (id : ℕ) (s : Use) : Use → Type 0 where
  here : Reach id s s
  next : {t u : Use} → Reach id s t → Step id t u → Reach id s u

-- The units that there were or were given are taken or left.
pub record Balanced (id units : ℕ) (s : Use) : Type 0 where
  pub value : ℕ
  pub counted : count_at id s.registry ≡ some value
  pub balance : units + s.given ≡ s.taken + value

Step-Balanced : (id units : ℕ) {s t : Use} → Step id s t → Balanced id units s → Balanced id units t
Step-Balanced id units {s} (takes w name h ok found run) b =
    let (k, e, r) = take_unit w name id b.value s.registry h ok found b.counted run in
    record {
      value = k;
      counted = rw r (count_at-put_count id b.value k s.registry b.counted);
      balance = omega (arith, b.balance);
    }
Step-Balanced id units {s} (gives w name h found run) b =
    let r = give_unit w name id b.value s.registry h found b.counted run in
    record {
      value = b.value + 1;
      counted = rw r (count_at-put_count id b.value (b.value + 1) s.registry b.counted);
      balance = omega (arith, b.balance);
    }
Step-Balanced id units {s} (takes_other w name h id' n ne ok found e run) b =
    let (k, _, r) = take_unit w name id' n s.registry h ok found e run in
    record {
      value = b.value;
      counted = rw r (count_at-put_other id' id n b.value k s.registry ne e b.counted);
      balance = b.balance;
    }
Step-Balanced id units {s} (gives_other w name h id' n ne found e run) b =
    let r = give_unit w name id' n s.registry h found e run in
    record {
      value = b.value;
      counted = rw r (count_at-put_other id' id n b.value (n + 1) s.registry ne e b.counted);
      balance = b.balance;
    }

along-Balanced :
    (id units : ℕ) {s t : Use} → Reach id s t → Balanced id units s → Balanced id units t
along-Balanced id units here b = b
along-Balanced id units (next r k) b = Step-Balanced id units k (along-Balanced id units r b)

-- However takes and gives by name are interleaved, if no `sem_wait` fails and each pointer is the
-- address of a semaphore, the units of a semaphore balance: those that it had and those given are
-- those taken and those left, so no more are taken than it had and were given.
pub Reach-Balanced :
    (id units : ℕ) {s t : Use}
    → Balanced id units s
    → Reach id s t
    → Balanced id units t × (t.taken ≤ units + t.given)
Reach-Balanced id units b r = let c = along-Balanced id units r b in (c, omega (arith, c.balance))
