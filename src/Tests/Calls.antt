-- ===== src/Tests/Calls.antt =====
-- Events, tasks and queue creation on a registry of a few slots (src/linux/base_event.c,
-- base_task.c and base_queue.c), and trace lines (src/trace/base_trace.c).
use basearch.Prelude.{
  zip_bits, ℕ, ◌≡◌, refl, ◌<◌, [], ◌∷◌, some, none, arith, get_elem?, true, ◌&&◌, bit_at, memcmp_eq,
  write_bytes, replicate, length, read_bytes, ◌≤◌, ◌==◌, false,
}
use basearch.Registry.Slots.{find_slot, scan}
use basearch.Registry.Table.{is_empty_name, is_named, no_name, add_slot, osix_name_len}
use basearch.Registry.{
  success, failure, TskEntry, Registry, base_task_info_find, osix_tsk, base_task_init,
  base_task_info_add,
}
use basearch.Name.{short_name, fill_name, chars_of}
use basearch.Task.{World, base_task_cur_get, base_task_create, base_e_none, base_task_get, launch}
use basearch.Task.Create.{create-get_task}
use basearch.Name.Long.{stored_name}
use basearch.Registry.Invariant.{IsRegistry, init-IsRegistry}
use basearch.Trace.{
  Trace, base_trace_prints, base_trace_set_level, base_trace_set_module, trace_l_err,
}
use basearch.Trace.Masks.{switch-prints}
use basearch.Task.Named.{create-any_policy}
use basearch.Event.Deliver.{Receives, Delivered, receive_events, send-receive}
use basearch.Event.{base_event_send, base_event_receive, got, or_events}
use basearch.Queue.Osix.{base_queue_create, base_queue_init}
use basearch.Queue.Unnamed.{create-failure}
use basearch.Queue.{bad_free, queue_bytes}
use basearch.Tests.Queue.{zeros}
use basearch.Tests.Registry.{raw, raw_tsk, raw-SemsApart, name, name-IsName}

create-failure_example :
    base_queue_create 0 0 name 88 2 1 (zeros 100) (some 50) (base_queue_init 0 7 raw).1
    ≡ (failure, bad_free)
unfolding queue_bytes
create-failure_example =
    create-failure 7 88 2 1 100 (replicate 91 0) name (zeros 100) (some 50) raw raw-SemsApart
      name-IsName refl (omega arith) (omega arith)

abbrev world : World
world = record { lock = λ k. 0; spawn = λ a. some 77 }

create-any_policy_example :
    base_task_create world 0 name 1 10 4096 5000 0 raw
    ≡ base_task_create world 0 name 2 10 4096 5000 0 raw
create-any_policy_example = create-any_policy world 0 name 1 2 10 4096 5000 0 raw

-- The task 1 runs as the thread 9 and has event 0 set.
abbrev one : TskEntry
one = record raw_tsk { thr_id = 9; u4_events = 1; au1_name = name }

abbrev running : Registry
running = record raw { tsks = raw_tsk ∷ one ∷ raw_tsk ∷ [] }

own_task : base_task_cur_get 9 running ≡ 1
unfolding base_task_cur_get find_slot scan
own_task = refl

by_name : base_task_info_find 0 (short_name (84 ∷ 83 ∷ 75 ∷ 49 ∷ 0 ∷ [])) osix_tsk running ≡ some 1
unfolding base_task_info_find find_slot scan is_empty_name is_named memcmp_eq fill_name chars_of
    write_bytes replicate
by_name = refl

receive_events_example :
    (t : TskEntry) × (get_elem? running.tsks 1 ≡ some t)
    × (t.thr_id ≡ 9)
    × Receives 1 3 0 1 t running (base_event_receive 1 9 3 0 running)
receive_events_example = receive_events 1 9 3 0 1 running own_task (λ e. absurd (omega arith))

send-receive_example :
    (h : Registry) × (base_event_send 0 (84 ∷ 83 ∷ 75 ∷ 49 ∷ 0 ∷ []) 4 running ≡ (success, h))
    × (t : TskEntry) × (get_elem? running.tsks 1 ≡ some t)
    × (ev : ℕ) × (g' : Registry) × (base_event_receive 1 9 4 0 h ≡ got ev g')
    × Delivered 4 1 (or_events 4 t) h ev g'
    × ((i : ℕ) → i < 32 → (bit_at i 4 && bit_at i 4) ≡ true → bit_at i ev ≡ true)
send-receive_example =
    send-receive 1 9 4 4 0 1 (84 ∷ 83 ∷ 75 ∷ 49 ∷ 0 ∷ []) running by_name own_task
      (λ e. absurd (omega arith)) (2, omega arith, refl)

abbrev fresh : Registry
fresh = (base_task_init 0 7 raw).1

-- The registry after "TSK1" is created with priority 10.
abbrev started_one : Registry
started_one = (base_task_create world 0 (84 ∷ 83 ∷ 75 ∷ 49 ∷ []) 1 10 4096 5000 0 fresh).2

creates :
    base_task_create world 0 (84 ∷ 83 ∷ 75 ∷ 49 ∷ []) 1 10 4096 5000 0 fresh
    ≡ (base_e_none, some 1, started_one)
unfolding base_task_create launch base_task_info_find base_task_info_add base_task_init find_slot
    scan add_slot is_empty_name is_named memcmp_eq read_bytes fill_name chars_of write_bytes
    replicate no_name
creates = refl

create-get_task_example :
    (base_task_info_find 0 (stored_name (84 ∷ 83 ∷ 75 ∷ 49 ∷ [])) osix_tsk fresh ≡ none)
    × IsRegistry started_one
    × (length (chars_of 16 (84 ∷ 83 ∷ 75 ∷ 49 ∷ [])) ≤ osix_name_len
        → base_task_get 0 (84 ∷ 83 ∷ 75 ∷ 49 ∷ []) started_one ≡ some 1)
    × (osix_name_len < length (chars_of 16 (84 ∷ 83 ∷ 75 ∷ 49 ∷ []))
        → base_task_get 0 (84 ∷ 83 ∷ 75 ∷ 49 ∷ []) started_one
          ≡ base_task_get 0 (84 ∷ 83 ∷ 75 ∷ 49 ∷ []) fresh)
create-get_task_example =
    create-get_task world 0 84 (83 ∷ 75 ∷ 49 ∷ []) 1 10 4096 5000 0 1 fresh started_one
      (init-IsRegistry 7 raw raw-SemsApart) (λ e. absurd (omega arith)) (λ k. refl) creates

abbrev quiet : Trace
quiet = record { modules = 1; levels = 1; enable = 1 }

switch-prints_example :
    (base_trace_prints 3 2
        (base_trace_set_level 2 (some true) (base_trace_set_module 3 (some true) quiet))
      ≡ some true)
    × (base_trace_prints 3 2 (base_trace_set_module 3 (some false) quiet) ≡ some (2 == trace_l_err))
    × (base_trace_prints 3 2 (base_trace_set_module 4 (some true) quiet)
        ≡ base_trace_prints 3 2 quiet)
unfolding zip_bits
switch-prints_example =
    switch-prints 3 2 4 quiet (omega arith) (omega arith) (omega arith) (omega arith) refl refl
