-- ===== src/Registry.antt =====
-- The registry of named resources: src/linux/base_task.c with the tables of base_task.h.
-- The tables are the arrays `gaOsixTsk`, `gaOsixSem` and `gaOsixQue`, of 101, 120001 and 201
-- elements in the program and of any size here; their element 0 is not used. `lock` is what
-- `pthread_mutex_lock` returns; the mutex is held from there to each return, so a call is one step.
-- A function that writes through `pu4RscId` returns the number it writes.
pub mod Slots
pub mod Table
pub mod Update
pub mod Other
pub mod Invariant
pub mod Keep
pub mod Add
pub mod Names
pub mod Full
pub mod Del
use basearch.Prelude.{
  ℕ, ◌+◌, ◌%◌, ◌^◌, ◌≡◌, Bool, true, false, not, Option, none, some, List, map, if◌then◌else◌, ◌==◌,
  get_elem?, modify, read_bytes, replicate,
}
use basearch.Registry.Slots.{find_slot}
use basearch.Registry.Table.{
  osix_name_len, name_size, no_name, is_empty_name, is_named, slot_id, add_slot,
}

abbrev pub osix_true : ℕ
osix_true = 1

abbrev pub osix_false : ℕ
osix_false = 0

abbrev pub osix_tsk : ℕ
osix_tsk = 0

abbrev pub osix_sem : ℕ
osix_sem = 1

abbrev pub osix_que : ℕ
osix_que = 2

-- OSIX_SUCCESS and OSIX_FAILURE
pub data Status : Type 0 where
  success failure : Status

-- `tOsixTsk`. `sync_live` says that `TskMutex`, `EvtMutex` and `EvtCond` are initialised.
pub record TskEntry : Type 0 where
  pub thr_id : ℕ
  pub u4_events : ℕ
  pub u4_arg : ℕ
  pub u4_prio : ℕ
  pub u4_stack_size : ℕ
  pub sync_live : Bool
  pub strt_addr : ℕ
  pub u2_free : ℕ
  pub au1_name : List ℕ

-- `tOsixSem`. `sem_id` is the address of the slot's `SemId`, by which the code names the
-- semaphore, and `count` the value of the semaphore.
pub record SemEntry : Type 0 where
  pub sem_id : ℕ
  pub count : ℕ
  pub u2_free : ℕ
  pub u2_filler : ℕ
  pub au1_name : List ℕ

-- `tOsixQue`
pub record QueEntry : Type 0 where
  pub u4_rsc_id : ℕ
  pub u2_free : ℕ
  pub u2_filler : ℕ
  pub au1_name : List ℕ

pub record Registry : Type 0 where
  pub tsks : List TskEntry
  pub sems : List SemEntry
  pub ques : List QueEntry
  pub start_ticks : ℕ

abbrev pub tsk_free : TskEntry → Bool
tsk_free t = t.u2_free == osix_true

abbrev pub sem_free : SemEntry → Bool
sem_free s = s.u2_free == osix_true

abbrev pub que_free : QueEntry → Bool
que_free q = q.u2_free == osix_true

abbrev pub tsk_name : TskEntry → List ℕ
tsk_name t = t.au1_name

abbrev pub sem_name : SemEntry → List ℕ
sem_name s = s.au1_name

abbrev pub que_name : QueEntry → List ℕ
que_name q = q.au1_name

-- The bodies of the three loops of `base_task_init`.
abbrev pub reset_tsk : TskEntry → TskEntry
reset_tsk t = record t { u4_events = 0; u2_free = osix_true; au1_name = no_name }

abbrev pub reset_sem : SemEntry → SemEntry
reset_sem s = record s { u2_free = osix_true; u2_filler = 0; au1_name = no_name }

abbrev pub reset_que : QueEntry → QueEntry
reset_que q = record q { u2_free = osix_true; u2_filler = 0; au1_name = no_name }

-- `rc` is what `pthread_mutex_init` returns, and `ticks` what `times` does.
unfoldable pub base_task_init : ℕ → ℕ → Registry → Status × Registry
base_task_init rc ticks g = if not (rc == 0) then (failure, g) else (
  success,
  record {
    tsks = map reset_tsk g.tsks;
    sems = map reset_sem g.sems;
    ques = map reset_que g.ques;
    start_ticks = ticks;
  },
)

-- The ids that the search returns for the slot that it finds: of a semaphore's address the low 32
-- bits, `(UINT32) &SemId`.
abbrev pub sem_id_of : SemEntry → ℕ
sem_id_of s = s.sem_id % 2 ^ 32

abbrev pub que_id_of : QueEntry → ℕ
que_id_of q = q.u4_rsc_id

-- `none` is OSIX_FAILURE, with `*pu4RscId` left as it is.
unfoldable pub base_task_info_find : ℕ → List ℕ → ℕ → Registry → Option ℕ
base_task_info_find lock name ty g =
    if is_empty_name name
    then none
    else if not (lock == 0)
    then none
    else if ty == osix_tsk
    then find_slot (is_named tsk_name name) g.tsks
    else if ty == osix_sem
    then slot_id sem_id_of g.sems (find_slot (is_named sem_name name) g.sems)
    else if ty == osix_que
    then slot_id que_id_of g.ques (find_slot (is_named que_name name) g.ques)
    else none

-- What the free slot that is found is set to.
abbrev pub fill_tsk : List ℕ → TskEntry → TskEntry
fill_tsk name t = record t {
  u4_events = 0;
  u2_free = osix_false;
  au1_name = read_bytes name 0 name_size;
}

abbrev pub fill_sem : List ℕ → SemEntry → SemEntry
fill_sem name s = record s {
  u2_free = osix_false;
  u2_filler = 0;
  au1_name = read_bytes name 0 name_size;
}

abbrev pub fill_que : List ℕ → ℕ → QueEntry → QueEntry
fill_que name id q = record {
  u4_rsc_id = id;
  u2_free = osix_false;
  u2_filler = 0;
  au1_name = read_bytes name 0 name_size;
}

-- The result of a scan for a free slot, put back into the registry.
abbrev pub added {ℓ} : {A : Type ℓ} → Registry → (A → Registry) → Option A → Status × Registry
added g put none = (failure, g)
added g put (some xs) = (success, put xs)

unfoldable pub base_task_info_add : ℕ → List ℕ → ℕ → ℕ → Registry → Status × Registry
base_task_info_add lock name ty id g =
    if not (lock == 0)
    then (failure, g)
    else if ty == osix_tsk
    then added g (λ xs. record g { tsks = xs }) (add_slot tsk_free (fill_tsk name) g.tsks)
    else if ty == osix_sem
    then added g (λ xs. record g { sems = xs }) (add_slot sem_free (fill_sem name) g.sems)
    else if ty == osix_que
    then added g (λ xs. record g { ques = xs }) (add_slot que_free (fill_que name id) g.ques)
    else (failure, g)

abbrev pub clear_tsk : TskEntry → TskEntry
clear_tsk t = record t { u2_free = osix_true; au1_name = no_name }

abbrev pub clear_sem : SemEntry → SemEntry
clear_sem s = record s { u2_free = osix_true; au1_name = no_name }

abbrev pub clear_que : QueEntry → QueEntry
clear_que q = record q { u2_free = osix_true; au1_name = no_name }

-- The first slot that passes the test is cleared; if there is none, nothing is.
unfoldable pub clear_first {ℓ} : {A : Type ℓ} → (A → Bool) → (A → A) → List A → List A
clear_first p clear xs = elim (find_slot p xs) [ none ↦ xs | some i ↦ modify xs i clear ]

-- A semaphore's address is compared with the 32 bits of the id.
unfoldable pub base_task_info_del : ℕ → ℕ → ℕ → Registry → Registry
base_task_info_del lock ty id g =
    if not (lock == 0)
    then g
    else if ty == osix_tsk
    then record g { tsks = modify g.tsks id clear_tsk }
    else if ty == osix_sem
    then record g { sems = clear_first (λ s. s.sem_id == id) clear_sem g.sems }
    else if ty == osix_que
    then record g { ques = clear_first (λ q. q.u4_rsc_id == id) clear_que g.ques }
    else g
