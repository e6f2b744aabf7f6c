-- ===== src/Event.antt =====
-- The events of src/linux/base_event.c: bits of the `u4Events` of a task's entry in the registry.
-- The event mutex of an entry is held from the lock to each return, so a call is one step, but for
-- a receiver that waits: it has let the mutex go, and its call is made again when it is woken.
pub mod Deliver
use basearch.Prelude.{
  ℕ, ◌≡◌, Bool, true, false, not, ◌&&◌, Option, none, some, List, if◌then◌else◌, ◌==◌, get_elem?,
  modify, and32, or32, and_not32,
}
use basearch.Registry.{
  Status, success, failure, TskEntry, Registry, base_task_init, base_task_info_find,
  base_task_info_add, base_task_info_del, osix_tsk,
}
use basearch.Name.{short_name}
use basearch.Task.{base_task_cur_get}

-- base_event.c has its own text of the four functions of the registry, which is that of
-- base_task.c word for word.
unfoldable pub base_event_init : ℕ → ℕ → Registry → Status × Registry
base_event_init rc ticks g = base_task_init rc ticks g

unfoldable pub base_event_info_find : ℕ → List ℕ → ℕ → Registry → Option ℕ
base_event_info_find lock name ty g = base_task_info_find lock name ty g

unfoldable pub base_event_info_add : ℕ → List ℕ → ℕ → ℕ → Registry → Status × Registry
base_event_info_add lock name ty id g = base_task_info_add lock name ty id g

unfoldable pub base_event_info_del : ℕ → ℕ → ℕ → Registry → Registry
base_event_info_del lock ty id g = base_task_info_del lock ty id g

abbrev pub or_events : ℕ → TskEntry → TskEntry
or_events events t = record t { u4_events = or32 t.u4_events events }

-- `lock` is what `pthread_mutex_lock` of the registry's mutex returns.
unfoldable pub base_event_send : ℕ → List ℕ → ℕ → Registry → Status × Registry
base_event_send lock name events g = elim (base_task_info_find lock (short_name name) osix_tsk g) [
  | none ↦ (failure, g)
  | some i ↦ (success, record g { tsks = modify g.tsks i (or_events events) })
]

-- What becomes of a receiver: it fails, with what it wrote through `pu4RcvEvts` if it did; it
-- waits; or it gets events and leaves the registry that is given.
pub data EventReceived : Type 0 where
  failed : Option ℕ → EventReceived
  blocked : EventReceived
  got : ℕ → Registry → EventReceived

abbrev pub clear_events : ℕ → TskEntry → TskEntry
clear_events events t = record t { u4_events = and_not32 t.u4_events events }

-- The code behind the lock of the event mutex, on the entry `t` of the task `cur`.
unfoldable pub receive_locked : ℕ → ℕ → ℕ → ℕ → TskEntry → Registry → EventReceived
receive_locked no_wait events flags cur t g =
    let common = and32 t.u4_events events in
    if (flags == no_wait) && (common == 0)
    then failed (some 0)
    else if not (common == 0)
    then got common (record g { tsks = modify g.tsks cur (clear_events common) })
    else blocked

-- `thr` is the thread that calls, and `no_wait` the value of OSIX_NO_WAIT, 2 in
-- base_event.h. An id that `base_task_cur_get` returns is that of an entry.
unfoldable pub base_event_receive : ℕ → ℕ → ℕ → ℕ → Registry → EventReceived
base_event_receive no_wait thr events flags g =
    let cur = base_task_cur_get thr g in
    if cur == 0 then failed none else elim (get_elem? g.tsks cur) [
      | none ↦ failed none
      | some t ↦ receive_locked no_wait events flags cur t g
    ]
