-- ===== src/Registry/Add.antt =====
-- `base_task_info_add`: what it changes, and what the search by name finds afterwards.
use basearch.Prelude.{
  ℕ, ◌≤◌, ◌<◌, ◌≡◌, sym, ◌∙◌, ◌≢◌, Bool, true, false, none, some, List, arith, get_elem?, length,
  modify, read_bytes, take-all, inl, inr, Option-cases, Bool-cases,
}
use basearch.Registry.Slots.{find_slot, find_slot-some}
use basearch.Registry.Table.{
  name_size, is_empty_name, is_named, slot_id, add_slot, IsTable, IsFresh-find_slot, is_named_eq,
}
use basearch.Registry.Update.{add_slot-some}
use basearch.Registry.Other.{find_slot-other, ne-no_name}
use basearch.Registry.{
  QueEntry, Registry, que_free, tsk_name, sem_name, que_name, osix_tsk, osix_sem, osix_que,
  sem_id_of, que_id_of, base_task_info_find,
}

-- A name as the callers pass it: a full buffer that is not the empty string.
pub record IsName (name : List ℕ) : Type 0 where
  pub size : length name ≡ name_size
  pub full : is_empty_name name ≡ false

-- No queue in use has the id.
abbrev pub IsFreshQue : ℕ → List QueEntry → Type 0
IsFreshQue id xs =
    (i : ℕ) (x : QueEntry) → 1 ≤ i → get_elem? xs i ≡ some x → que_free x ≡ false → x.u4_rsc_id ≢ id

-- The searches of one kind agree on every name but one.
abbrev pub SameNames : List ℕ → ℕ → Registry → Registry → Type 0
SameNames name ty g h =
    (m : List ℕ) → IsName m → m ≢ name → base_task_info_find 0 m ty h ≡ base_task_info_find 0 m ty g

pub copied : (name : List ℕ) → length name ≡ name_size → read_bytes name 0 name_size ≡ name
unfolding read_bytes
copied name h = take-all name_size name h

module _ {ℓ} {A : Type ℓ} (free : A → Bool) (name : A → List ℕ) where
  -- What filling the first free slot does to one table.
  pub record Filled (n : List ℕ) (fill : A → A) (xs ys : List A) : Type ℓ where
    pub slot : ℕ
    pub above : 1 ≤ slot
    pub old : A
    pub old_at : get_elem? xs slot ≡ some old
    pub old_free : free old ≡ true
    pub new_at : get_elem? ys slot ≡ some (fill old)
    pub made : ys ≡ modify xs slot fill
    pub old_miss : (m : List ℕ) → IsName m → is_named name m old ≡ false
    pub rest : (j : ℕ) → slot ≢ j → get_elem? ys j ≡ get_elem? xs j
    pub first : (j : ℕ) (y : A) → 1 ≤ j → j < slot → get_elem? xs j ≡ some y → free y ≡ false
    pub found : find_slot (is_named name n) ys ≡ some slot
    pub table : IsTable free name ys
    pub others :
        (m : List ℕ)
        → IsName m
        → m ≢ n
        → find_slot (is_named name m) ys ≡ find_slot (is_named name m) xs

  pub filled :
      (n : List ℕ) (fill : A → A) (xs ys : List A)
      → IsName n
      → ((x : A) → free (fill x) ≡ false)
      → ((x : A) → name (fill x) ≡ n)
      → IsTable free name xs
      → find_slot (is_named name n) xs ≡ none
      → add_slot free fill xs ≡ some ys
      → Filled n fill xs ys
  filled n fill xs ys nm used names tab absent h =
      let (i, le, added_at, (x, gx, fx, gy), rest, first, hit, tab') =
        add_slot-some free name tab n nm.size fill used names
          (IsFresh-find_slot free name tab n nm.size absent) nm.full h in
      record {
        slot = i;
        above = le;
        old = x;
        old_at = gx;
        old_free = fx;
        new_at = gy;
        made = added_at;
        old_miss = λ m nm'. elim (Bool-cases (is_named name m x)) [
          | inr miss ↦ miss
          | inl hit ↦ absurd (
              ne-no_name m nm'.full
                (sym (tab.blank i x gx fx) ∙ sym (is_named_eq free name tab m i x nm'.size gx hit)))
        ];
        rest = rest;
        first = first;
        found = hit;
        table = tab';
        others = λ m nm' ne.
            find_slot-other free name i x (fill x) m tab tab' nm'.size nm'.full gx gy
              (λ e. ne-no_name m nm'.full (sym (tab.blank i x gx fx) ∙ e))
              (λ e. ne (sym e ∙ names x)) rest;
      }

module _ (n : List ℕ) (nm : IsName n) (g : Registry) where
  pub find-tsk : base_task_info_find 0 n osix_tsk g ≡ find_slot (is_named tsk_name n) g.tsks
  unfolding base_task_info_find
  find-tsk = rw nm.full

  pub find-sem :
      base_task_info_find 0 n osix_sem g
      ≡ slot_id sem_id_of g.sems (find_slot (is_named sem_name n) g.sems)
  unfolding base_task_info_find
  find-sem = rw nm.full

  pub find-que :
      base_task_info_find 0 n osix_que g
      ≡ slot_id que_id_of g.ques (find_slot (is_named que_name n) g.ques)
  unfolding base_task_info_find
  find-que = rw nm.full

module _ {ℓ} {A : Type ℓ} (p : A → Bool) (f : A → ℕ) where
  -- A search that reads the slot that it finds fails only with the search for the slot.
  pub slot_id-none : (xs : List A) → slot_id f xs (find_slot p xs) ≡ none → find_slot p xs ≡ none
  slot_id-none xs h = elim (Option-cases (find_slot p xs)) [
    | inl e ↦ e
    | inr (i, e) ↦
        let (_, (x, gx, _), _) = find_slot-some p xs i e in
        let q : slot_id f xs (find_slot p xs) ≡ some (f x) = rw (e, slot_id, gx) in cc
  ]

  -- Tables that differ in a slot that the search passes over are read alike.
  pub slot_id-same :
      (xs ys : List A) (i : ℕ) (x : A)
      → get_elem? xs i ≡ some x
      → p x ≡ false
      → ((j : ℕ) → i ≢ j → get_elem? ys j ≡ get_elem? xs j)
      → find_slot p ys ≡ find_slot p xs
      → slot_id f ys (find_slot p ys) ≡ slot_id f xs (find_slot p xs)
  slot_id-same xs ys i x gx miss rest same = elim (Option-cases (find_slot p xs)) [
    | inl e ↦ rw (same, e)
    | inr (j, e) ↦
        let (_, (z, gz, hit), _) = find_slot-some p xs j e in
        rw (same, e, slot_id, rest j (ne j z gz hit))
  ]
    where
      ne : (j : ℕ) (z : A) → get_elem? xs j ≡ some z → p z ≡ true → i ≢ j
      ne j z gz hit e = let q : get_elem? xs j ≡ some x = rw (← e) gx in ground arith
