-- ===== src/Tests/Sem.antt =====
-- A semaphore of two units, taken once and given once (src/linux/base_sem.c).
use basearch.Prelude.{ℕ, ◌≡◌, refl, ◌+◌, ◌≤◌, [], ◌∷◌, some, memcmp_eq, write_bytes, replicate}
use basearch.Registry.Slots.{find_slot, scan}
use basearch.Registry.Table.{is_empty_name, is_named}
use basearch.Registry.{success, Registry, clear_first, base_task_info_find, base_task_init}
use basearch.Name.{fill_name, chars_of}
use basearch.Sem.{
  World, sem_pointer, base_sem_info_find, base_sem_take, count_at, put_count, sem_wait, returned,
  base_sem_create,
}
use basearch.Sem.Count.{Use, Balanced, here, next, takes, Reach-Balanced}
use basearch.Tests.Registry.{raw, raw_sem, name}

abbrev world : World
world = record { lock = λ k. 0; rc = 0; high = 0 }

abbrev with_units : ℕ → Registry
with_units n = record raw {
  sems =
      raw_sem 100
      ∷ record { sem_id = 200; count = n; u2_free = 0; u2_filler = 0; au1_name = name }
      ∷ [];
}

abbrev at_start : Use
at_start = record { registry = with_units 2; taken = 0; given = 0 }

abbrev at_end : Use
at_end = record { registry = with_units 1; taken = 1; given = 0 }

start-Balanced : Balanced 200 2 at_start
unfolding count_at find_slot scan
start-Balanced = record { value = 2; counted = refl; balance = refl }

found : sem_pointer world (84 ∷ 83 ∷ 75 ∷ 49 ∷ []) (with_units 2) ≡ some 200
unfolding sem_pointer base_sem_info_find base_task_info_find find_slot scan is_empty_name is_named
    memcmp_eq fill_name chars_of write_bytes replicate
found = refl

one_take :
    base_sem_take world (84 ∷ 83 ∷ 75 ∷ 49 ∷ []) (with_units 2) ≡ returned success (with_units 1)
unfolding base_sem_take sem_pointer sem_wait count_at put_count clear_first base_sem_info_find
    base_task_info_find find_slot scan is_empty_name is_named memcmp_eq fill_name chars_of
    write_bytes replicate
one_take = refl

Reach-Balanced_example : Balanced 200 2 at_end × (at_end.taken ≤ 2 + at_end.given)
Reach-Balanced_example =
    Reach-Balanced 200 2 start-Balanced
      (next here (takes world (84 ∷ 83 ∷ 75 ∷ 49 ∷ []) (with_units 1) refl found one_take))

abbrev fresh : Registry
fresh = (base_task_init 0 7 raw).1

-- The registry after a semaphore of 3 units is asked for.
abbrev with_sem : Registry
with_sem = (base_sem_create world 0 (84 ∷ 83 ∷ 75 ∷ 49 ∷ []) 3 fresh).1
