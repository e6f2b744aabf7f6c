-- ===== src/Tests/Locks.antt =====
-- The tables and timeouts of src/linux/base_mutex.c on small inputs.
use basearch.Prelude.{
  ℕ, ◌+◌, ◌*◌, ◌/◌, ◌%◌, ◌<◌, ◌≡◌, ◌≢◌, ◌↔◌, refl, true, none, some, List, [], ◌∷◌, arith,
}
use basearch.Registry.Slots.{scan}
use basearch.TimerTable.{text, same_chars}
use basearch.Locks.{
  pos, succ, pred, rc, e_internal, MutexAttr, Mutexes, MutexWorld, no_mutex, mutex_attr,
  fwk_create_mutex, fwk_mutex_id,
}
use basearch.Locks.Semas.{
  Sema4Entry, Semas, no_sema, sema_attr, fwk_create_semaphore, fwk_delete_semaphore, below,
  fwk_semaphore_id,
}
use basearch.Locks.Times.{Timespec, fwk_ms_to_ts, take_loop, fwk_take_semaphore}
use basearch.Locks.Tables.{in_use, create_mutex-id}
use basearch.Locks.Waits.{nanos, ms_to_ts_iff, take_semaphore_iff}

abbrev now : Timespec
now = record { sec = 5; nsec = 100 }

ms_to_ts_iff_example :
    ((ts : Timespec) × (fwk_ms_to_ts 250 now ≡ some ts) × (nanos ts ≡ nanos now + 250 * 1000000))
    ↔ (250 % 1000 ≡ 0)
ms_to_ts_iff_example = ms_to_ts_iff 250 now

-- One millisecond is taken for a second.
one_ms : fwk_ms_to_ts 1 now ≡ some (record { sec = 6; nsec = 100 })
unfolding fwk_ms_to_ts
one_ms = refl

take_semaphore_iff_example :
    (fwk_take_semaphore 0 (λ k. 0) (some 3) (pos 9) ≡ rc 0)
    ↔ ((k : ℕ) × (k < 9 / 10) × (◌≡◌ {A = ℕ} 0 0))
take_semaphore_iff_example = take_semaphore_iff 0 (λ k. 0) 3 9 (omega arith)

-- A unit is there, and a take with a timeout of 9 ms fails.
no_attempt : fwk_take_semaphore 0 (λ k. 0) (some 3) (pos 9) ≡ e_internal
unfolding fwk_take_semaphore take_loop
no_attempt = refl

abbrev attr : MutexAttr
attr = record {
  name = 65 ∷ [];
  pshared = 0;
  type = 0;
  protocol = 0;
  prioceiling = 0;
  robust = 0;
  robust_np = 0;
}

abbrev two_free : Mutexes
two_free = record { list = no_mutex ∷ no_mutex ∷ []; count = pos 0 }

abbrev one_taken : Mutexes
one_taken = record { list = record { attr = attr; used = true } ∷ no_mutex ∷ []; count = pos 1 }

abbrev world : MutexWorld
world = record { ceiling = 1; init_rc = 0; attr_destroy_rc = 0 }

creates : fwk_create_mutex world (some attr) two_free ≡ (rc 0, some 0, one_taken)
unfolding fwk_create_mutex scan mutex_attr succ
creates = refl

none_named : fwk_mutex_id (65 ∷ []) two_free ≡ none
unfolding fwk_mutex_id scan
none_named = refl

names_differ : text (65 ∷ []) ≢ text (66 ∷ [])
unfolding text
names_differ e = absurd (ground arith)

none_counted : two_free.count ≡ pos (in_use two_free.list)
unfolding in_use
none_counted = refl

create_mutex-id_example :
    (fwk_mutex_id (65 ∷ []) one_taken ≡ some 0)
    × (fwk_mutex_id (66 ∷ []) one_taken ≡ fwk_mutex_id (66 ∷ []) two_free)
    × (one_taken.count ≡ pos (in_use one_taken.list))
create_mutex-id_example =
    create_mutex-id world attr (66 ∷ []) two_free one_taken (rc 0) 0 creates none_named names_differ
      none_counted

abbrev sema : ℕ → List ℕ → ℕ → Sema4Entry
sema value name units = record {
  attr = record { name = name; pshared = pos 0; value = value };
  used = true;
  units = units;
}

-- A semaphore that is asked for with 3 units gets none.
no_units :
    fwk_create_semaphore 0
      (some (record { name = 65 ∷ []; pshared = pos 0; value = 3 }))
      (record { list = no_sema ∷ []; count = pos 0 })
    ≡ (rc 0, some 0, record { list = sema 3 (65 ∷ []) 0 ∷ []; count = pos 1 })
unfolding fwk_create_semaphore scan sema_attr succ
no_units = refl

abbrev two_semas : Semas
two_semas = record { list = sema 0 (65 ∷ []) 0 ∷ sema 0 (66 ∷ []) 0 ∷ []; count = pos 2 }

-- Once the first of two is deleted, the second is not found by its name, and the first is.
not_found :
    (fwk_semaphore_id (66 ∷ []) (fwk_delete_semaphore 0 0 (some 0) two_semas).1 ≡ none)
    × (fwk_semaphore_id (65 ∷ []) (fwk_delete_semaphore 0 0 (some 0) two_semas).1 ≡ some 0)
unfolding fwk_semaphore_id fwk_delete_semaphore below scan pred text same_chars
not_found = (refl, refl)
