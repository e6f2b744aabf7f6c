-- ===== src/Registry/Names.antt =====
-- `base_task_info_add` of each kind: the invariant, and what the search by name finds afterwards.
use basearch.Prelude.{
  ℕ, zero, suc, ◌≤◌, ◌≡◌, refl, sym, ◌∙◌, ◌≢◌, none, some, List, arith, get_elem?, inl, inr,
  Option-cases, subst,
}
use native.Mathlib.Decide.{ℕ_discrete}
use basearch.Registry.Table.{is_named, slot_id, add_slot}
use basearch.Registry.Invariant.{IsRegistry, SemsApart, QuesApart, modify-SemsApart}
use basearch.Registry.Add.{
  IsName, IsFreshQue, SameNames, copied, Filled, filled, find-tsk, find-sem, find-que, slot_id-none,
  slot_id-same,
}
use basearch.Registry.{
  success, QueEntry, Registry, tsk_free, sem_free, que_free, tsk_name, sem_name, que_name, fill_tsk,
  fill_sem, fill_que, osix_tsk, osix_sem, osix_que, sem_id_of, que_id_of, base_task_info_find,
  base_task_info_add,
}

-- The first free slot taken by a new queue keeps the ids apart.
fill-QuesApart :
    (n : List ℕ) (id : ℕ) (xs ys : List QueEntry)
    → QuesApart xs
    → IsFreshQue id xs
    → Filled que_free que_name n (fill_que n id) xs ys
    → QuesApart ys
fill-QuesApart n id xs ys apart fresh s i j x y le lt gx gy used = elim (ℕ_discrete s.slot j) [
  | yes e ↦
      let p : get_elem? ys j ≡ some (fill_que n id s.old) = rw e at s.new_at in
      let q : get_elem? xs i ≡ some x = sym (s.rest i (λ k. absurd (omega arith))) ∙ gx in
      let f : x.u4_rsc_id ≢ id = fresh i x le q (s.first i x le (omega arith) q) in ground arith
  | no ne ↦
      let q : get_elem? xs j ≡ some y = sym (s.rest j ne) ∙ gy in
      elim (ℕ_discrete s.slot i) [
        | yes e ↦
            let p : get_elem? ys i ≡ some (fill_que n id s.old) = rw e at s.new_at in
            let f : y.u4_rsc_id ≢ id = fresh j y (omega arith) q used in ground arith
        | no ne' ↦ apart i j x y le lt (sym (s.rest i ne') ∙ gx) q used
      ]
]

-- What adding a name of one kind to a registry does.
pub record AddsName (name : List ℕ) (ty id : ℕ) (g h : Registry) : Type 0 where
  pub registry : IsRegistry h
  pub finds : (r : ℕ) × (base_task_info_find 0 name ty h ≡ some r) × (ty ≡ osix_que → r ≡ id)
  pub others : SameNames name ty g h

module _ (n : List ℕ) (nm : IsName n) (id : ℕ) (g h : Registry) (reg : IsRegistry g) where
  pub add-tsk :
      base_task_info_find 0 n osix_tsk g ≡ none
      → base_task_info_add 0 n osix_tsk id g ≡ (success, h)
      → AddsName n osix_tsk id g h
  unfolding base_task_info_add
  add-tsk absent done = elim (Option-cases (add_slot tsk_free (fill_tsk n) g.tsks)) [
    | inl e ↦ absurd (ground arith)
    | inr (ys, e) ↦
        let q : record g { tsks = ys } ≡ h = ground arith in
        let s =
          filled tsk_free tsk_name n (fill_tsk n) g.tsks ys nm (λ _. refl) (λ _. copied n nm.size)
            reg.tsk_table (sym (find-tsk n nm g) ∙ absent) e in
        subst (AddsName n osix_tsk id g) q (record {
          registry = record {
            tsk_table = s.table;
            sem_table = reg.sem_table;
            que_table = reg.que_table;
            sems_apart = reg.sems_apart;
            ques_apart = reg.ques_apart;
          };
          finds = (s.slot, find-tsk n nm _ ∙ s.found, λ k. absurd (omega arith));
          others = λ m nm' ne. find-tsk m nm' _ ∙ s.others m nm' ne ∙ sym (find-tsk m nm' g);
        })
  ]

  pub add-sem :
      base_task_info_find 0 n osix_sem g ≡ none
      → base_task_info_add 0 n osix_sem id g ≡ (success, h)
      → AddsName n osix_sem id g h
  unfolding base_task_info_add
  add-sem absent done = elim (Option-cases (add_slot sem_free (fill_sem n) g.sems)) [
    | inl e ↦ absurd (ground arith)
    | inr (ys, e) ↦
        let q : record g { sems = ys } ≡ h = ground arith in
        let s =
          filled sem_free sem_name n (fill_sem n) g.sems ys nm (λ _. refl) (λ _. copied n nm.size)
            reg.sem_table
            (slot_id-none (is_named sem_name n) sem_id_of g.sems (sym (find-sem n nm g) ∙ absent))
            e in
        subst (AddsName n osix_sem id g) q (record {
          registry = record {
            tsk_table = reg.tsk_table;
            sem_table = s.table;
            que_table = reg.que_table;
            sems_apart =
                subst SemsApart (sym s.made)
                  (modify-SemsApart g.sems s.slot (fill_sem n) (λ _. refl) reg.sems_apart);
            ques_apart = reg.ques_apart;
          };
          finds = (
            sem_id_of s.old,
            find-sem n nm _ ∙ rw (s.found, slot_id, s.new_at),
            λ k. absurd (omega arith),
          );
          others = λ m nm' ne.
              find-sem m nm' _
              ∙ slot_id-same (is_named sem_name m) sem_id_of g.sems ys s.slot s.old s.old_at
                  (s.old_miss m nm') s.rest (s.others m nm' ne)
              ∙ sym (find-sem m nm' g);
        })
  ]

  pub add-que :
      IsFreshQue id g.ques
      → base_task_info_find 0 n osix_que g ≡ none
      → base_task_info_add 0 n osix_que id g ≡ (success, h)
      → AddsName n osix_que id g h
  unfolding base_task_info_add
  add-que fresh absent done = elim (Option-cases (add_slot que_free (fill_que n id) g.ques)) [
    | inl e ↦ absurd (ground arith)
    | inr (ys, e) ↦
        let q : record g { ques = ys } ≡ h = ground arith in
        let s =
          filled que_free que_name n (fill_que n id) g.ques ys nm (λ _. refl)
            (λ _. copied n nm.size) reg.que_table
            (slot_id-none (is_named que_name n) que_id_of g.ques (sym (find-que n nm g) ∙ absent))
            e in
        subst (AddsName n osix_que id g) q (record {
          registry = record {
            tsk_table = reg.tsk_table;
            sem_table = reg.sem_table;
            que_table = s.table;
            sems_apart = reg.sems_apart;
            ques_apart = fill-QuesApart n id g.ques ys reg.ques_apart fresh s;
          };
          finds = (id, find-que n nm _ ∙ rw (s.found, slot_id, s.new_at), λ _. refl);
          others = λ m nm' ne.
              find-que m nm' _
              ∙ slot_id-same (is_named que_name m) que_id_of g.ques ys s.slot s.old s.old_at
                  (s.old_miss m nm') s.rest (s.others m nm' ne)
              ∙ sym (find-que m nm' g);
        })
  ]

  -- With the mutex free, a name that is not registered and is added with success is then found, a
  -- queue under the id that was given; the searches of that kind for other names find what they
  -- did, and the invariant is kept. For a queue the id must differ from those of the queues in
  -- use.
  pub info_add-info_find :
      (ty : ℕ)
      → ty ≤ osix_que
      → (ty ≡ osix_que → IsFreshQue id g.ques)
      → base_task_info_find 0 n ty g ≡ none
      → base_task_info_add 0 n ty id g ≡ (success, h)
      → AddsName n ty id g h
  info_add-info_find zero le fresh absent done = add-tsk absent done
  info_add-info_find (suc zero) le fresh absent done = add-sem absent done
  info_add-info_find (suc (suc zero)) le fresh absent done = add-que (fresh refl) absent done
  info_add-info_find (suc (suc (suc k))) le fresh absent done = absurd (omega arith)
