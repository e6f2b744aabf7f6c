-- ===== src/Sem/Create.antt =====
-- `base_sem_create`: the new name is found, the invariant of the registry is kept, and the initial
-- value goes where `*pSemId` points.
use basearch.Prelude.{ℕ, ◌%◌, ◌^◌, ◌≡◌, some, List}
use basearch.Registry.Invariant.{IsRegistry}
use basearch.Registry.Add.{SameNames}
use basearch.Registry.{Registry, osix_sem, base_task_info_find}
use basearch.Sem.{count_at}

-- What the slot taken by a new semaphore makes of the registry.
record Created (n : List ℕ) (g h : Registry) : Type 0 where
  addr : ℕ
  had : ℕ
  before : count_at addr g ≡ some had
  found : base_task_info_find 0 n osix_sem h ≡ some (addr % 2 ^ 32)
  value : count_at addr h ≡ count_at addr g
  registry : IsRegistry h
  others : SameNames n osix_sem g h
