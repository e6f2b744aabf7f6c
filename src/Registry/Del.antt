-- ===== src/Registry/Del.antt =====
-- `base_task_info_del`: the name whose id is given is gone, and nothing else.
use basearch.Prelude.{
  ℕ, zero, suc, ◌^◌, ◌≤◌, ◌<◌, ◌⊎◌, ◌≡◌, refl, sym, ◌∙◌, ◌≢◌, Bool, true, false, none, some, List,
  arith, get_elem?, get_elem?-modify, get_elem?-modify_self, get_elem?-modify_ne, modify, inl, inr,
  ◌==◌, ==_refl, Option-cases, Bool-cases,
}
use basearch.Registry.Slots.{find_slot, find_slot-some, find_slot-first}
use basearch.Registry.Table.{no_name, is_named, slot_id, IsTable, find_slot-fresh, is_named_eq}
use basearch.Registry.Update.{clear-IsTable, clear-IsFresh}
use basearch.Registry.Other.{find_slot-other, ne-no_name}
use basearch.Registry.Invariant.{IsRegistry, QuesApart, modify-SemsApart}
use basearch.Registry.Add.{IsName, SameNames, find-tsk, find-sem, find-que, slot_id-same}
use basearch.Registry.Full.{AllUsed, NoFree, info_add_failure}
use basearch.Registry.{
  Status, success, failure, base_task_info_add, SemEntry, QueEntry, Registry, tsk_free, sem_free,
  que_free, tsk_name, sem_name, que_name, clear_tsk, clear_sem, clear_que, clear_first, osix_tsk,
  osix_sem, osix_que, sem_id_of, que_id_of, base_task_info_find, base_task_info_del,
}

module _ {ℓ} {A : Type ℓ} (free : A → Bool) (name : A → List ℕ) where
  -- What clearing the slot of a name does to one table.
  record Cleared (n : List ℕ) (i : ℕ) (x : A) (xs ys : List A) : Type ℓ where
    table : IsTable free name ys
    gone : find_slot (is_named name n) ys ≡ none
    rest : (j : ℕ) → i ≢ j → get_elem? ys j ≡ get_elem? xs j
    miss : (m : List ℕ) → IsName m → m ≢ n → is_named name m x ≡ false
    others :
        (m : List ℕ)
        → IsName m
        → m ≢ n
        → find_slot (is_named name m) ys ≡ find_slot (is_named name m) xs

  cleared :
      (n : List ℕ) (i : ℕ) (x : A) (clear : A → A) (xs : List A)
      → IsName n
      → ((y : A) → name (clear y) ≡ no_name)
      → IsTable free name xs
      → 1 ≤ i
      → get_elem? xs i ≡ some x
      → is_named name n x ≡ true
      → Cleared n i x xs (modify xs i clear)
  cleared n i x clear xs nm c tab le gx hit =
      let same : n ≡ name x = is_named_eq free name tab n i x nm.size gx hit in
      let tab' = clear-IsTable free name tab i clear c in
      let rest = λ (j : ℕ) (ne : i ≢ j). get_elem?-modify_ne xs i j clear ne in
      record {
        table = tab';
        gone =
            find_slot-fresh free name tab' n nm.size
              (clear-IsFresh free name tab n i x clear c nm.full le gx (sym same));
        rest = rest;
        miss = λ m nm' ne. elim (Bool-cases (is_named name m x)) [
          | inr out ↦ out
          | inl hit' ↦ absurd (ne (is_named_eq free name tab m i x nm'.size gx hit' ∙ sym same))
        ];
        others = λ m nm' ne.
            find_slot-other free name i x (clear x) m tab tab' nm'.size nm'.full gx
              (get_elem?-modify_self xs i clear x gx) (λ e. ne (sym e ∙ sym same))
              (λ e. ne-no_name m nm'.full (sym (c x) ∙ e)) rest;
      }

clear_first-modify {ℓ} :
    {A : Type ℓ} (p : A → Bool) (clear : A → A) (xs : List A) (i : ℕ)
    → find_slot p xs ≡ some i
    → clear_first p clear xs ≡ modify xs i clear
unfolding clear_first
clear_first-modify p clear xs i e = rw (clear_first, e)

ne_test : (a b : ℕ) → (a ≡ b → ⊥) → (a == b) ≡ false
ne_test a b h = ground arith

-- A slot that a search by name finds is in use.
named-used {ℓ} :
    {A : Type ℓ} (free : A → Bool) (name : A → List ℕ) (n : List ℕ)
    → IsName n
    → (i : ℕ) (x : A) {xs : List A} → IsTable free name xs
    → get_elem? xs i ≡ some x
    → is_named name n x ≡ true
    → free x ≡ false
named-used free name n nm i x tab gx hit = elim (Bool-cases (free x)) [
  | inr used ↦ used
  | inl f ↦
      let same : n ≡ name x = is_named_eq free name tab n i x nm.size gx hit in
      absurd (ne-no_name n nm.full (sym (tab.blank i x gx f) ∙ sym same))
]

-- The slot whose id a search returns.
slot_id-some {ℓ} :
    {A : Type ℓ} (p : A → Bool) (f : A → ℕ) (xs : List A) (r : ℕ)
    → slot_id f xs (find_slot p xs) ≡ some r
    → (i : ℕ) × (x : A) × (1 ≤ i) × (get_elem? xs i ≡ some x) × (p x ≡ true) × (f x ≡ r)
slot_id-some p f xs r h = elim (Option-cases (find_slot p xs)) [
  | inl e ↦ absurd (ground arith)
  | inr (i, e) ↦
      let (le, (x, gx, hit), _) = find_slot-some p xs i e in (i, x, le, gx, hit, ground arith)
]

-- Clearing a queue's slot keeps the ids apart.
clear-QuesApart : (xs : List QueEntry) (k : ℕ) → QuesApart xs → QuesApart (modify xs k clear_que)
clear-QuesApart xs k apart i j x y le lt gx gy used =
    let (x', gx', ex) = id_at i x gx in
    let (y', gy', ey) = id_at j y gy in
    let ne = apart i j x' y' le lt gx' gy' (ey.1 used) in ground arith
  where
    id_at :
        (m : ℕ) (z : QueEntry)
        → get_elem? (modify xs k clear_que) m ≡ some z
        → (w : QueEntry) × (get_elem? xs m ≡ some w)
          × ((w.u4_rsc_id ≡ z.u4_rsc_id) × (que_free z ≡ false → que_free w ≡ false))
    id_at m z gz = elim (get_elem?-modify xs k m clear_que z gz) [
      | inl p ↦ (z, p.1, (refl, λ u. u))
      | inr (q, (w, gw, e)) ↦ (w, gw, (ground arith, λ u. ground arith))
    ]

-- What deleting a name of one kind does to a registry.
pub record DeletesName (name : List ℕ) (ty : ℕ) (g h : Registry) : Type 0 where
  pub registry : IsRegistry h
  pub gone : base_task_info_find 0 name ty h ≡ none
  pub others : SameNames name ty g h
  pub room : (m : List ℕ) (id : ℕ) → (base_task_info_add 0 m ty id h).0 ≡ success

-- With a slot that is free an addition succeeds.
add-room :
    (ty : ℕ) (h : Registry)
    → (AllUsed ty h → ⊥)
    → (m : List ℕ) (id : ℕ) → (base_task_info_add 0 m ty id h).0 ≡ success
add-room ty h not_all m id = elim (success_or (base_task_info_add 0 m ty id h).0) [
  | inl ok ↦ ok
  | inr bad ↦ elim ((info_add_failure m id h 0 ty).0.0 bad) [
    | inl ne ↦ absurd (ne refl)
    | inr all ↦ absurd (not_all all)
  ]
]
  where
    success_or : (s : Status) → (s ≡ success) ⊎ (s ≡ failure)
    success_or success = inl refl
    success_or failure = inr refl

cleared-free {ℓ} :
    {A : Type ℓ} (free : A → Bool) (clear : A → A) (xs : List A) (i : ℕ) (x : A)
    → ((y : A) → free (clear y) ≡ true)
    → 1 ≤ i
    → get_elem? xs i ≡ some x
    → NoFree free (modify xs i clear)
    → ⊥
cleared-free free clear xs i x c le gx all =
    let k = all i (clear x) le (get_elem?-modify_self xs i clear x gx) in
    let k' = c x in absurd (cc)

-- The addresses of the semaphores fit 32 bits.
abbrev pub SemsLow : List SemEntry → Type 0
SemsLow xs = (i : ℕ) (x : SemEntry) → get_elem? xs i ≡ some x → x.sem_id < 2 ^ 32

module _ (n : List ℕ) (nm : IsName n) (g : Registry) (reg : IsRegistry g) (r : ℕ) where
  del-tsk :
      base_task_info_find 0 n osix_tsk g ≡ some r
      → DeletesName n osix_tsk g (base_task_info_del 0 osix_tsk r g)
  unfolding base_task_info_del
  del-tsk found =
      let (le, (x, gx, hit), _) =
        find_slot-some (is_named tsk_name n) g.tsks r (sym (find-tsk n nm g) ∙ found) in
      let s =
        cleared tsk_free tsk_name n r x clear_tsk g.tsks nm (λ _. refl) reg.tsk_table le gx hit in
      record {
        registry = record {
          tsk_table = s.table;
          sem_table = reg.sem_table;
          que_table = reg.que_table;
          sems_apart = reg.sems_apart;
          ques_apart = reg.ques_apart;
        };
        gone = find-tsk n nm _ ∙ s.gone;
        others = λ m nm' ne. find-tsk m nm' _ ∙ s.others m nm' ne ∙ sym (find-tsk m nm' g);
        room = add-room osix_tsk _ (cleared-free tsk_free clear_tsk g.tsks r x (λ _. refl) le gx);
      }

  del-sem :
      SemsLow g.sems
      → base_task_info_find 0 n osix_sem g ≡ some r
      → DeletesName n osix_sem g (base_task_info_del 0 osix_sem r g)
  unfolding base_task_info_del
  del-sem low found =
      let (i, x, le, gx, hit, e') =
        slot_id-some (is_named sem_name n) sem_id_of g.sems r (sym (find-sem n nm g) ∙ found) in
      let e : x.sem_id ≡ r = omega (arith, low i x gx, e') in
      let s =
        cleared sem_free sem_name n i x clear_sem g.sems nm (λ _. refl) reg.sem_table le gx hit in
      let same : clear_first (λ y. y.sem_id == r) clear_sem g.sems ≡ modify g.sems i clear_sem =
        clear_first-modify _ clear_sem g.sems i (
          find_slot-first _ g.sems i x le gx (rw e (==_refl r)) λ m y le' lt gy.
            ne_test (y.sem_id) r
              λ q. absurd (omega (arith, reg.sems_apart m i y x gy gx (q ∙ sym e)))) in
      rw same (record {
        registry = record {
          tsk_table = reg.tsk_table;
          sem_table = s.table;
          que_table = reg.que_table;
          sems_apart = modify-SemsApart g.sems i clear_sem (λ _. refl) reg.sems_apart;
          ques_apart = reg.ques_apart;
        };
        gone = find-sem n nm _ ∙ rw (s.gone, slot_id);
        others = λ m nm' ne.
            find-sem m nm' _
            ∙ slot_id-same (is_named sem_name m) sem_id_of g.sems _ i x gx (s.miss m nm' ne) s.rest
                (s.others m nm' ne)
            ∙ sym (find-sem m nm' g);
        room = add-room osix_sem _ (cleared-free sem_free clear_sem g.sems i x (λ _. refl) le gx);
      })

  del-que :
      base_task_info_find 0 n osix_que g ≡ some r
      → DeletesName n osix_que g (base_task_info_del 0 osix_que r g)
  unfolding base_task_info_del
  del-que found =
      let (i, x, le, gx, hit, e) =
        slot_id-some (is_named que_name n) que_id_of g.ques r (sym (find-que n nm g) ∙ found) in
      let s =
        cleared que_free que_name n i x clear_que g.ques nm (λ _. refl) reg.que_table le gx hit in
      let used : que_free x ≡ false = named-used que_free que_name n nm i x reg.que_table gx hit in
      let same : clear_first (λ y. y.u4_rsc_id == r) clear_que g.ques ≡ modify g.ques i clear_que =
        clear_first-modify _ clear_que g.ques i (
          find_slot-first _ g.ques i x le gx (rw e (==_refl r)) λ m y le' lt gy.
            ne_test (y.u4_rsc_id) r λ q. reg.ques_apart m i y x le' lt gy gx used (q ∙ sym e)) in
      rw same (record {
        registry = record {
          tsk_table = reg.tsk_table;
          sem_table = reg.sem_table;
          que_table = s.table;
          sems_apart = reg.sems_apart;
          ques_apart = clear-QuesApart g.ques i reg.ques_apart;
        };
        gone = find-que n nm _ ∙ rw (s.gone, slot_id);
        others = λ m nm' ne.
            find-que m nm' _
            ∙ slot_id-same (is_named que_name m) que_id_of g.ques _ i x gx (s.miss m nm' ne) s.rest
                (s.others m nm' ne)
            ∙ sym (find-que m nm' g);
        room = add-room osix_que _ (cleared-free que_free clear_que g.ques i x (λ _. refl) le gx);
      })

  -- With the mutex free, deleting the resource that a name was found under: the name is gone, the
  -- searches of that kind for other names find what they did, the invariant is kept, and any name
  -- of that kind can be added. The addresses of semaphores must fit 32 bits, since the id is one
  -- cut to that.
  pub info_del-info_find :
      (ty : ℕ)
      → ty ≤ osix_que
      → (ty ≡ osix_sem → SemsLow g.sems)
      → base_task_info_find 0 n ty g ≡ some r
      → DeletesName n ty g (base_task_info_del 0 ty r g)
  info_del-info_find zero le low found = del-tsk found
  info_del-info_find (suc zero) le low found = del-sem (low refl) found
  info_del-info_find (suc (suc zero)) le low found = del-que found
  info_del-info_find (suc (suc (suc k))) le low found = absurd (omega arith)
