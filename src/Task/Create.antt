-- ===== src/Task/Create.antt =====
-- What the calls by name find of a task that base_task_create has made.
use basearch.Prelude.{
  ℕ, ◌≤◌, ◌<◌, ◌≡◌, refl, sym, ap, subst, ◌∙◌, ◌≢◌, ◌⊎◌, inl, inr, Bool, true, false, Option, none,
  some, List, ◌∷◌, arith, ◌==◌, eq_false_of_ne, length, length-take, Option-cases, modify, min,
  write_bytes, replicate,
}
use basearch.Registry.Table.{osix_name_len, is_empty_name}
use basearch.Registry.Keep.{modify-IsRegistry}
use basearch.Registry.Invariant.{IsRegistry}
use basearch.Registry.Add.{IsName}
use basearch.Registry.Names.{AddsName, info_add-info_find}
use basearch.Registry.{
  Status, success, failure, Registry, osix_tsk, base_task_info_find, base_task_info_add,
}
use basearch.Name.{chars_of, fill_name, short_name, short_name-IsName, length-fill_name}
use basearch.Name.Long.{stored_name, stored-short, stored-long}
use basearch.Task.Stored.{info_find-take, info_add-take, info_find-modify}
use basearch.Task.{
  World, Attr, TaskStatus, base_e_none, base_e_exists, base_e_fail, base_task_create, base_task_get,
  launch, chosen_policy, start_task, set_thread, index_or,
}

module _ (w : World) (idx : ℕ) (name : List ℕ) (policy priority stacksize func arg : ℕ)
    (g : Registry) where
  abbrev tname : List ℕ
  tname = fill_name 16 16 name

  create_exists :
      (j : ℕ)
      → base_task_info_find (w.lock 0) tname osix_tsk g ≡ some j
      → base_task_create w idx name policy priority stacksize func arg g ≡ (base_e_exists, none, g)
  unfolding base_task_create
  create_exists j e = rw (base_task_create, e)

  create_full :
      base_task_info_find (w.lock 0) tname osix_tsk g ≡ none
      → (base_task_info_add (w.lock 1) tname osix_tsk 0 g).0 ≡ failure
      → (base_task_create w idx name policy priority stacksize func arg g).0 ≡ base_e_fail
  unfolding base_task_create
  create_full e full = rw (base_task_create, e, full)

  create_launches :
      base_task_info_find (w.lock 0) tname osix_tsk g ≡ none
      → (base_task_info_add (w.lock 1) tname osix_tsk 0 g).0 ≡ success
      → base_task_create w idx name policy priority stacksize func arg g ≡ (
          let h = (base_task_info_add (w.lock 1) tname osix_tsk 0 g).1 in
          launch w policy priority stacksize func arg
            (index_or idx (base_task_info_find (w.lock 2) tname osix_tsk h))
            h)
  unfolding base_task_create
  create_launches e made = rw (base_task_create, e, made)

abbrev started : ℕ → ℕ → ℕ → ℕ → ℕ → ℕ → Registry → Registry
started priority stacksize func arg i thr g =
    let h = record g { tsks = modify g.tsks i (start_task priority stacksize func arg) } in
    record h { tsks = modify h.tsks i (set_thread thr) }

abbrev is_none : TaskStatus → Bool
is_none base_e_none = true
is_none base_e_exists = false
is_none base_e_fail = false

abbrev index_of : Option ℕ → ℕ
index_of o = index_or 0 o

true_ne_false : true ≢ false
true_ne_false e = cc

module _ (w : World) (policy priority stacksize func arg j : ℕ) (g : Registry) where
  abbrev attr : Attr
  attr = record { policy = chosen_policy policy; priority = priority; stacksize = stacksize }

  launch_fails :
      w.spawn attr ≡ none → (launch w policy priority stacksize func arg j g).0 ≡ base_e_fail
  unfolding launch
  launch_fails e = rw (launch, e)

  launch_runs :
      (thr : ℕ)
      → w.spawn attr ≡ some thr
      → launch w policy priority stacksize func arg j g
        ≡ (base_e_none, some j, started priority stacksize func arg j thr g)
  unfolding launch
  launch_runs thr e = rw (launch, e)

  -- A launch that succeeds has created the thread and set up the entry.
  launch-started :
      (i : ℕ) (h : Registry)
      → launch w policy priority stacksize func arg j g ≡ (base_e_none, some i, h)
      → (thr : ℕ) × (w.spawn attr ≡ some thr)
        × (i ≡ j)
        × (h ≡ started priority stacksize func arg j thr g)
  launch-started i h run = elim (Option-cases (w.spawn attr)) [
    | inl e ↦ absurd (true_ne_false (ap (λ r. is_none r.0) (sym run) ∙ ap is_none (launch_fails e)))
    | inr (thr, e) ↦
        let k = sym run ∙ launch_runs thr e in (thr, e, ap (λ r. index_of r.1) k, ap (λ r. r.2) k)
  ]

short_full : (c : ℕ) (s : List ℕ) → c ≢ 0 → is_empty_name (stored_name (c ∷ s)) ≡ false
unfolding is_empty_name fill_name chars_of write_bytes replicate
short_full c s ne = let q : (c == 0) ≡ false = eq_false_of_ne _ _ ne in rw (q, q)

stored-IsName : (c : ℕ) (s : List ℕ) → c ≢ 0 → IsName (stored_name (c ∷ s))
stored-IsName c s ne = record {
  size = length-take 8 (fill_name 16 16 (c ∷ s)) ∙ ap (min 8) (length-fill_name 16 16 (c ∷ s));
  full = short_full c s ne;
}

status-cases : (st : Status) → (st ≡ success) ⊎ (st ≡ failure)
status-cases success = inl refl
status-cases failure = inr refl

module _ (w : World) (idx c : ℕ) (s : List ℕ) (policy priority stacksize func arg i : ℕ)
    (g h : Registry) (reg : IsRegistry g) (ne : c ≢ 0) (free : (k : ℕ) → w.lock k ≡ 0)
    (done : base_task_create w idx (c ∷ s) policy priority stacksize func arg g
      ≡ (base_e_none, some i, h)) where
  abbrev full : List ℕ
  full = fill_name 16 16 (c ∷ s)

  abbrev kept : List ℕ
  kept = stored_name (c ∷ s)

  find_free :
      (k : ℕ) (g' : Registry)
      → base_task_info_find (w.lock k) full osix_tsk g' ≡ base_task_info_find 0 kept osix_tsk g'
  find_free k g' =
      ap (λ l. base_task_info_find l full osix_tsk g') (free k) ∙ info_find-take full g'

  absent : base_task_info_find (w.lock 0) full osix_tsk g ≡ none
  absent = elim (Option-cases (base_task_info_find (w.lock 0) full osix_tsk g)) [
    | inl e ↦ e
    | inr (j, e) ↦
        let k = create_exists w idx (c ∷ s) policy priority stacksize func arg g j e in
        absurd (true_ne_false (ap (λ r. is_none r.0) (sym done ∙ k)))
  ]

  made : (base_task_info_add (w.lock 1) full osix_tsk 0 g).0 ≡ success
  made = elim (status-cases (base_task_info_add (w.lock 1) full osix_tsk 0 g).0) [
    | inl e ↦ e
    | inr e ↦
        let k = create_full w idx (c ∷ s) policy priority stacksize func arg g absent e in
        absurd (true_ne_false (ap (λ r. is_none r.0) (sym done) ∙ ap is_none k))
  ]

  abbrev with_name : Registry
  with_name = (base_task_info_add (w.lock 1) full osix_tsk 0 g).1

  named : AddsName kept osix_tsk 0 g with_name
  named =
      info_add-info_find kept (stored-IsName c s ne) 0 g with_name reg osix_tsk (omega arith)
        (λ e. absurd (omega arith)) (sym (find_free 0 g) ∙ absent)
        (sym (info_add-take full 0 g)
          ∙ ap (λ l. base_task_info_add l full osix_tsk 0 g) (sym (free 1))
          ∙ ap (λ st. (st, with_name)) made)

  slot : base_task_info_find (w.lock 2) full osix_tsk with_name ≡ some named.finds.0
  slot = find_free 2 with_name ∙ named.finds.1

  launched :
      launch w policy priority stacksize func arg named.finds.0 with_name ≡ (base_e_none, some i, h)
  launched =
      ap (λ o. launch w policy priority stacksize func arg (index_or idx o) with_name) (sym slot)
      ∙ sym (create_launches w idx (c ∷ s) policy priority stacksize func arg g absent made)
      ∙ done

  started_in :
      (thr : ℕ) × (i ≡ named.finds.0) × (h ≡ started priority stacksize func arg i thr with_name)
  started_in =
      let (thr, e, k, r) =
        launch-started w policy priority stacksize func arg named.finds.0 with_name i h launched in
      (thr, k, r ∙ ap (λ j. started priority stacksize func arg j thr with_name) (sym k))

  -- The searches by name do not see that the task was started.
  find_started :
      (m : List ℕ)
      → IsName m
      → base_task_info_find 0 m osix_tsk h ≡ base_task_info_find 0 m osix_tsk with_name
  find_started m nm =
      let (thr, _, r) = started_in in
      let mid = record with_name {
        tsks = modify with_name.tsks i (start_task priority stacksize func arg);
      } in
      ap (base_task_info_find 0 m osix_tsk) r
      ∙ info_find-modify m mid i (set_thread thr) nm (λ t. refl)
      ∙ info_find-modify m with_name i (start_task priority stacksize func arg) nm (λ t. refl)

  -- A task is created under a name that does not begin with NUL, with the registry's mutex free.
  -- What the registry keeps of its name was not registered, the invariant is kept, and a name of
  -- at most OSIX_NAME_LEN characters is found by base_task_get with the id that was returned. A
  -- longer name is not: the call finds what it found before.
  pub create-get_task :
      (base_task_info_find 0 kept osix_tsk g ≡ none)
      × IsRegistry h
      × (length (chars_of 16 (c ∷ s)) ≤ osix_name_len → base_task_get 0 (c ∷ s) h ≡ some i)
      × (osix_name_len < length (chars_of 16 (c ∷ s))
          → base_task_get 0 (c ∷ s) h ≡ base_task_get 0 (c ∷ s) g)
  unfolding base_task_get
  create-get_task =
      let (thr, k, r) = started_in in
      let short = short_name-IsName c s ne in
      let mid =
        modify-IsRegistry with_name i (start_task priority stacksize func arg) (λ t. refl)
          (λ t. refl) named.registry in
      (
        sym (find_free 0 g) ∙ absent,
        subst IsRegistry (sym r) (
            modify-IsRegistry
              (record with_name {
                tsks = modify with_name.tsks i (start_task priority stacksize func arg);
              })
              i (set_thread thr) (λ t. refl) (λ t. refl) mid),
        λ le.
            find_started (short_name (c ∷ s)) short
            ∙ ap (λ m. base_task_info_find 0 m osix_tsk with_name) (sym (stored-short (c ∷ s) le))
            ∙ named.finds.1
            ∙ ap some (sym k),
        λ lt.
            find_started (short_name (c ∷ s)) short
            ∙ named.others (short_name (c ∷ s)) short (λ e. stored-long (c ∷ s) lt (sym e)),
      )
