-- ===== src/Sem.antt =====
-- The semaphores of src/linux/base_sem.c, over the registry. A semaphore is its address, and its
-- value is the `count` of the entry at that address; `sem_wait`, `sem_post`, `sem_init` and
-- `sem_destroy` are the system's, of which the code sees the value that they return.
pub mod Count
pub mod Values
pub mod Create
use basearch.Prelude.{
  ℕ, ◌+◌, ◌-◌, ◌*◌, ◌%◌, ◌^◌, Bool, true, false, not, Option, none, some, List, if◌then◌else◌, ◌==◌,
  get_elem?,
}
use basearch.Registry.Slots.{find_slot}
use basearch.Registry.{
  Status, success, failure, SemEntry, Registry, base_task_init, base_task_info_find,
  base_task_info_add, base_task_info_del, clear_first, osix_sem,
}
use basearch.Name.{short_name}

-- base_sem.c has its own text of the functions of the registry, which is that of base_task.c but
-- for a line in `base_sem_info_add`.
unfoldable pub base_sem_init : ℕ → ℕ → Registry → Status × Registry
base_sem_init rc ticks g = base_task_init rc ticks g

unfoldable pub base_sem_info_find : ℕ → List ℕ → ℕ → Registry → Option ℕ
base_sem_info_find lock name ty g = base_task_info_find lock name ty g

-- The line `SemId = u4RscId` of this copy stores an integer in a `sem_t`, which does not compile.
-- It is left out: base_sem_create says that this argument is not used.
unfoldable pub base_sem_info_add : ℕ → List ℕ → ℕ → ℕ → Registry → Status × Registry
base_sem_info_add lock name ty id g = base_task_info_add lock name ty id g

unfoldable pub base_sem_info_del : ℕ → ℕ → ℕ → Registry → Registry
base_sem_info_del lock ty id g = base_task_info_del lock ty id g

-- The semaphore at an address, if it is a slot's.
unfoldable pub count_at : ℕ → Registry → Option ℕ
count_at id g = elim (find_slot (λ s. s.sem_id == id) g.sems) [
  | none ↦ none
  | some i ↦ elim (get_elem? g.sems i) [ none ↦ none | some s ↦ some s.count ]
]

abbrev pub set_count : ℕ → SemEntry → SemEntry
set_count n s = record s { count = n }

unfoldable pub put_count : ℕ → ℕ → Registry → Registry
put_count id n g = record g { sems = clear_first (λ s. s.sem_id == id) (set_count n) g.sems }

-- What the environment does in one call: what the locks of the registry's mutex return, and the
-- system's call on the semaphore, and what stands in the upper half of the pointer `SemId`, which
-- is not initialised.
pub record World : Type 0 where
  pub lock : ℕ → ℕ
  pub rc : ℕ
  pub high : ℕ

-- `SemId` after a search that finds the name, which writes 32 bits through `(UINT4 *) &SemId`: the
-- upper half stays what it was.
unfoldable pub sem_pointer : World → List ℕ → Registry → Option ℕ
sem_pointer w name g = elim (base_sem_info_find (w.lock 0) (short_name name) osix_sem g) [
  | none ↦ none
  | some low ↦ some (w.high * 2 ^ 32 + low)
]

-- `sem` is what `*pSemId` holds before the call, which nothing but a search that finds the name
-- sets, so that `sem_init` is called with it: the slot that is then taken is another.
unfoldable pub base_sem_create : World → ℕ → List ℕ → ℕ → Registry → Status × Registry
base_sem_create w sem name initial g =
    elim (base_sem_info_find (w.lock 0) (short_name name) osix_sem g) [
      | some id ↦ (failure, g)
      | none ↦
          if not (w.rc == 0)
          then (failure, base_sem_info_del (w.lock 1) osix_sem (sem % 2 ^ 32) g)
          else base_sem_info_add (w.lock 1) (short_name name) osix_sem 0 (put_count sem initial g)
    ]

unfoldable pub base_sem_delete : World → List ℕ → Registry → Status × Registry
base_sem_delete w name g = elim (sem_pointer w name g) [
  | none ↦ (failure, g)
  | some id ↦ (success, base_sem_info_del (w.lock 1) osix_sem (id % 2 ^ 32) g)
]

-- What becomes of a caller: it returns, or it waits in `sem_wait`.
pub data Taken : Type 0 where
  returned : Status → Registry → Taken
  waits : Taken

-- `sem_wait`: it fails, or it takes one from the value, or it waits for one.
unfoldable pub sem_wait : ℕ → ℕ → Registry → Option Registry
sem_wait rc id g = if not (rc == 0) then some g else elim (count_at id g) [
  | none ↦ none
  | some n ↦ if n == 0 then none else some (put_count id (n - 1) g)
]

-- `if (sem_wait (SemId) == 0);` returns OSIX_SUCCESS whatever `sem_wait` returns.
unfoldable pub base_sem_take : World → List ℕ → Registry → Taken
base_sem_take w name g = elim (sem_pointer w name g) [
  | none ↦ returned failure g
  | some id ↦ elim (sem_wait w.rc id g) [ none ↦ waits | some h ↦ returned success h ]
]

unfoldable pub base_sem_give : World → List ℕ → Registry → Status × Registry
base_sem_give w name g = elim (sem_pointer w name g) [
  | none ↦ (failure, g)
  | some id ↦
      if not (w.rc == 0)
      then (failure, g)
      else elim (count_at id g) [ none ↦ (success, g) | some n ↦ (success, put_count id (n + 1) g) ]
]

-- What `*pId` holds after a success; `high` is what its upper half held.
unfoldable pub base_sem_get : World → List ℕ → Registry → Option ℕ
base_sem_get w name g = sem_pointer w name g
