-- ===== src/Tests/Registry.antt =====
-- A registry with two slots of each kind to use (src/linux/base_task.c).
use basearch.Prelude.{
  ℕ, zero, suc, ◌≡◌, refl, ◌≢◌, ◌⊎◌, List, [], ◌∷◌, some, none, arith, memcmp_eq, read_bytes,
  replicate, ◌↔◌, false, length,
}
use basearch.Registry.Table.{no_name, is_empty_name, is_named, add_slot}
use basearch.Registry.Slots.{find_slot, scan}
use basearch.Registry.Invariant.{SemsApart, IsRegistry, init-IsRegistry, IsReset, init_lem}
use basearch.Registry.Add.{IsName}
use basearch.Registry.Names.{AddsName, info_add-info_find}
use basearch.Registry.Del.{DeletesName, info_del-info_find}
use basearch.Registry.Full.{AllUsed, info_add_failure}
use basearch.Registry.{
  success, failure, TskEntry, SemEntry, QueEntry, Registry, osix_tsk, base_task_init,
  base_task_info_find, base_task_info_add, base_task_info_del,
}

abbrev pub raw_tsk : TskEntry
raw_tsk = record {
  thr_id = 0;
  u4_events = 5;
  u4_arg = 0;
  u4_prio = 0;
  u4_stack_size = 0;
  sync_live = false;
  strt_addr = 0;
  u2_free = 0;
  au1_name = [];
}

abbrev pub raw_sem : ℕ → SemEntry
raw_sem a = record { sem_id = a; count = 0; u2_free = 0; u2_filler = 0; au1_name = [] }

abbrev pub raw_que : QueEntry
raw_que = record { u4_rsc_id = 0; u2_free = 0; u2_filler = 0; au1_name = [] }

abbrev pub raw : Registry
raw = record {
  tsks = raw_tsk ∷ raw_tsk ∷ raw_tsk ∷ [];
  sems = raw_sem 100 ∷ raw_sem 200 ∷ [];
  ques = raw_que ∷ raw_que ∷ raw_que ∷ [];
  start_ticks = 0;
}

pub raw-SemsApart : SemsApart raw.sems
raw-SemsApart zero zero x y gx gy e = refl
raw-SemsApart zero (suc zero) x y gx gy e = ground arith
raw-SemsApart (suc zero) zero x y gx gy e = ground arith
raw-SemsApart (suc zero) (suc zero) x y gx gy e = refl
raw-SemsApart (suc (suc i)) j x y gx gy e = ground arith
raw-SemsApart zero (suc (suc j)) x y gx gy e = ground arith
raw-SemsApart (suc zero) (suc (suc j)) x y gx gy e = ground arith

init_lem_example :
    (h : Registry) × (base_task_init 0 7 raw ≡ (success, h))
    × IsRegistry h
    × IsReset h
    × (h.start_ticks ≡ 7)
    × ((length h.tsks ≡ 3) × (length h.sems ≡ 2) × (length h.ques ≡ 3))
init_lem_example = init_lem 7 raw raw-SemsApart

-- `"TSK1"` as the callers pass it
abbrev pub name : List ℕ
name = 84 ∷ 83 ∷ 75 ∷ 49 ∷ 0 ∷ 0 ∷ 0 ∷ 0 ∷ []

abbrev fresh : Registry
fresh = (base_task_init 0 7 raw).1

pub name-IsName : IsName name
unfolding is_empty_name
name-IsName = record { size = refl; full = refl }

-- The registry after the task's name is added.
abbrev one_task : Registry
one_task = (base_task_info_add 0 name osix_tsk 9 fresh).1

adds : base_task_info_add 0 name osix_tsk 9 fresh ≡ (success, one_task)
unfolding base_task_info_add base_task_init find_slot scan add_slot read_bytes
adds = refl

absent : base_task_info_find 0 name osix_tsk fresh ≡ none
unfolding base_task_info_find base_task_init find_slot scan is_empty_name memcmp_eq is_named no_name
    replicate
absent = refl

info_add-info_find_example : AddsName name osix_tsk 9 fresh one_task
info_add-info_find_example =
    info_add-info_find name name-IsName 9 fresh one_task (init-IsRegistry 7 raw raw-SemsApart)
      osix_tsk (omega arith) (λ e. absurd (omega arith)) absent adds

present : base_task_info_find 0 name osix_tsk one_task ≡ some 1
unfolding base_task_info_find base_task_info_add base_task_init find_slot scan is_empty_name
    memcmp_eq is_named add_slot read_bytes
present = refl

one_task-IsRegistry : IsRegistry one_task
one_task-IsRegistry =
    (info_add-info_find name name-IsName 9 fresh one_task (init-IsRegistry 7 raw raw-SemsApart)
      osix_tsk (omega arith) (λ e. absurd (omega arith)) absent adds).registry

info_del-info_find_example :
    DeletesName name osix_tsk one_task (base_task_info_del 0 osix_tsk 1 one_task)
info_del-info_find_example =
    info_del-info_find name name-IsName one_task one_task-IsRegistry 1 osix_tsk (omega arith)
      (λ e. absurd (omega arith)) present

info_add_failure_example :
    (((base_task_info_add 0 name osix_tsk 9 one_task).0 ≡ failure)
      ↔ ((◌≢◌ {A = ℕ} 0 0) ⊎ AllUsed osix_tsk one_task))
    × ((base_task_info_add 0 name osix_tsk 9 one_task).0 ≡ failure
        → (base_task_info_add 0 name osix_tsk 9 one_task).1 ≡ one_task)
info_add_failure_example = info_add_failure name 9 one_task 0 osix_tsk
