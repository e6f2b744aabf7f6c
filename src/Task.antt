-- ===== src/Task.antt =====
-- The tasks of src/linux/base_task.c: creation, deletion and the searches, over the registry.
pub mod Stored
pub mod Named
pub mod Create
use basearch.Prelude.{
  ℕ, zero, suc, ◌+◌, ◌*◌, ◌-◌, ◌/◌, ◌%◌, ◌^◌, ◌≡◌, Bool, true, false, not, ◌&&◌, Option, none, some,
  List, if◌then◌else◌, ◌==◌, get_elem?, modify,
}
use basearch.Registry.Slots.{find_slot}
use basearch.Registry.{
  Status, success, failure, TskEntry, Registry, base_task_info_find, base_task_info_add,
  base_task_info_del, osix_tsk,
}
use basearch.Name.{short_name, fill_name}

-- BASE_TASK_NAME_LEN
abbrev pub base_task_name_len : ℕ
base_task_name_len = 16

-- The scan for the caller's thread. The code writes the index to a `pTskId` that it does not
-- declare and returns a variable that it does not set; the index is what is meant.
unfoldable pub base_task_cur_get : ℕ → Registry → ℕ
base_task_cur_get thr g = elim (find_slot (λ t. t.thr_id == thr) g.tsks) [ none ↦ 0 | some i ↦ i ]

unfoldable pub base_task_get : ℕ → List ℕ → Registry → Option ℕ
base_task_get lock name g = base_task_info_find lock (short_name name) osix_tsk g

-- What `pthread_mutex_destroy` and `pthread_cond_destroy` do to the entry.
abbrev pub end_sync : TskEntry → TskEntry
end_sync t = record t { sync_live = false }

-- `find_lock` and `del_lock` are what the two locks of the registry's mutex return. The thread of
-- the entry, which is then detached and cancelled, is returned with the registry.
unfoldable pub base_task_delete : ℕ → ℕ → List ℕ → Registry → Status × Registry × Option ℕ
base_task_delete find_lock del_lock name g =
    elim (base_task_info_find find_lock (short_name name) osix_tsk g) [
      | none ↦ (failure, g, none)
      | some i ↦
          let h =
            base_task_info_del del_lock osix_tsk i (record g { tsks = modify g.tsks i end_sync }) in
          (success, h, elim (get_elem? h.tsks i) [ none ↦ none | some t ↦ some t.thr_id ])
    ]

-- TASK_SCHED_RR, TASK_SCHED_FIFO and TASK_SCHED_OTHER
abbrev pub task_sched_rr : ℕ
task_sched_rr = 1

abbrev pub task_sched_fifo : ℕ
task_sched_fifo = 2

abbrev pub task_sched_other : ℕ
task_sched_other = 3

-- The policies of the system's sched.h.
pub data Policy : Type 0 where
  sched_other sched_rr sched_fifo : Policy

-- The tests `if (policy = TASK_SCHED_OTHER)` and so on assign: each reads the constant.
unfoldable pub chosen_policy : ℕ → Policy
chosen_policy policy =
    if not (task_sched_other == 0)
    then sched_other
    else if not (task_sched_rr == 0)
    then sched_rr
    else if not (task_sched_fifo == 0)
    then sched_fifo
    else sched_rr

-- The attributes that the thread is created with.
pub record Attr : Type 0 where
  pub policy : Policy
  pub priority : ℕ
  pub stacksize : ℕ

-- The entry of a task that is about to start.
abbrev pub start_task : ℕ → ℕ → ℕ → ℕ → TskEntry → TskEntry
start_task priority stacksize func arg t = record t {
  u4_prio = priority;
  u4_stack_size = stacksize;
  sync_live = true;
  strt_addr = func;
  u4_arg = arg;
}

abbrev pub set_thread : ℕ → TskEntry → TskEntry
set_thread thr t = record t { thr_id = thr }

-- BASE_E_NONE, BASE_E_EXISTS and BASE_E_FAIL
pub data TaskStatus : Type 0 where
  base_e_none base_e_exists base_e_fail : TaskStatus

-- What the environment does in one call: what the four locks of the registry's mutex return, and
-- the thread that `pthread_create` makes with given attributes, `none` if it fails.
pub record World : Type 0 where
  pub lock : ℕ → ℕ
  pub spawn : Attr → Option ℕ

-- The task `i` is set up and its thread is created.
unfoldable pub launch : World → ℕ → ℕ → ℕ → ℕ → ℕ → ℕ → Registry → TaskStatus × Option ℕ × Registry
launch w policy priority stacksize func arg i g =
    let h = record g { tsks = modify g.tsks i (start_task priority stacksize func arg) } in
    let attr : Attr = record {
      policy = chosen_policy policy;
      priority = priority;
      stacksize = stacksize;
    } in
    elim (w.spawn attr) [
      | none ↦ (
        base_e_fail,
        some i,
        base_task_info_del (w.lock 3) osix_tsk i (record h { tsks = modify h.tsks i end_sync }),
      )
      | some thr ↦ (base_e_none, some i, record h { tsks = modify h.tsks i (set_thread thr) })
    ]

-- `u4Idx`, which a search that fails leaves as it is.
abbrev pub index_or : ℕ → Option ℕ → ℕ
index_or idx none = idx
index_or idx (some i) = i

-- The number is what is written through `taskid`. `u4Idx` is not set if the second search fails:
-- `idx` is what it holds. That search is by `au1Name`, which the code does not declare; `tname` is
-- what is meant.
unfoldable pub base_task_create :
    World → ℕ → List ℕ → ℕ → ℕ → ℕ → ℕ → ℕ → Registry → TaskStatus × Option ℕ × Registry
base_task_create w idx name policy priority stacksize func arg g =
    let tname = fill_name base_task_name_len base_task_name_len name in
    elim (base_task_info_find (w.lock 0) tname osix_tsk g) [
      | some i ↦ (base_e_exists, none, g)
      | none ↦
          let (st, h) = base_task_info_add (w.lock 1) tname osix_tsk 0 g in
          elim st [
            | failure ↦ (base_e_fail, none, h)
            | success ↦
                launch w policy priority stacksize func arg
                  (index_or idx (base_task_info_find (w.lock 2) tname osix_tsk h)) h
          ]
    ]

-- `base_task_delay`: the seconds and nanoseconds that it sleeps, on 32 bits, for a duration in
-- microseconds.
unfoldable pub base_task_delay : ℕ → ℕ × ℕ
base_task_delay duration =
    let sec = duration / 1000000 in
    (sec, (duration + 2 ^ 32 - (sec * 1000000) % 2 ^ 32) % 2 ^ 32 * 1000 % 2 ^ 32)
