-- ===== src/Queue/Unnamed.antt =====
-- `base_queue_create` looks its name up where it should register it (src/linux/base_queue.c).
use basearch.Prelude.{
  ℕ, ◌+◌, ◌-◌, ◌%◌, ◌^◌, ◌<◌, arith, some, false, ◌==◌, eq_false_of_ne, refl, ◌≡◌, sym, ap, ◌∙◌,
  inl, inr, Option, none, List, get_elem?-map, map, Bool-cases,
}
use basearch.Registry.Slots.{find_slot, find_slot-none}
use basearch.Registry.Table.{is_named, is_named_eq, slot_id, no_name}
use basearch.Registry.Other.{ne-no_name}
use basearch.Registry.Add.{IsName, find-que}
use basearch.Registry.Invariant.{SemsApart, init-IsRegistry}
use basearch.Registry.{failure, Registry, que_name, que_free, reset_que, osix_que, base_task_init}
use basearch.Queue.{Fate, queue_bytes, bad_free, pthread_create_msg_q, pthread_delete_msg_q}
use basearch.Queue.Osix.{followed, base_queue_create, base_queue_init, base_queue_info_find}

no_slot :
    (ticks : ℕ) (g : Registry) (n : List ℕ)
    → SemsApart g.sems
    → IsName n
    → find_slot (is_named que_name n) (base_task_init 0 ticks g).1.ques ≡ none
unfolding base_task_init
no_slot ticks g n apart nm =
    let tab = (init-IsRegistry ticks g apart).que_table in
    find_slot-none (is_named que_name n) (map reset_que g.ques) (λ i x le gx.
      elim (Bool-cases (is_named que_name n x)) [
        | inr miss ↦ miss
        | inl hit ↦
            let (y, gy, e) = get_elem?-map g.ques i reset_que x gx in
            let blank : x.au1_name ≡ no_name = ap que_name e in
            absurd (
              ne-no_name n nm.full
                (sym (is_named_eq que_free que_name tab n i x nm.size gx hit ∙ blank)))
      ])

-- No queue is found in a registry that was just initialised.
init-no_queue :
    (ticks : ℕ) (g : Registry) (n : List ℕ)
    → SemsApart g.sems
    → IsName n
    → base_queue_info_find 0 n osix_que (base_queue_init 0 ticks g).1 ≡ none
unfolding base_queue_info_find base_queue_init
init-no_queue ticks g n apart nm =
    find-que n nm (base_task_init 0 ticks g).1 ∙ rw (slot_id, no_slot ticks g n apart nm)

follows : (address : ℕ) (fate : Fate) → address < 2 ^ 32 → followed address fate ≡ fate
unfolding followed
follows address fate low = ground arith

-- With the mutexes free and a block of memory below 2^32 for the queue, `base_queue_create` with a
-- name of 8 bytes that is not empty fails on a registry as it was initialised, and passes the block
-- of the pool to `free`.
pub create-failure :
    (ticks header max_msgs msg_len address : ℕ) (bytes n : List ℕ) (block : ℕ → Option (ℕ × List ℕ))
    (mutex : Option ℕ) (g : Registry)
    → SemsApart g.sems
    → IsName n
    → block (queue_bytes header max_msgs msg_len) ≡ some (address, bytes)
    → 0 < address
    → address < 2 ^ 32
    → base_queue_create 0 0 n header max_msgs msg_len block mutex (base_queue_init 0 ticks g).1
      ≡ (failure, bad_free)
unfolding base_queue_create pthread_create_msg_q pthread_delete_msg_q
create-failure ticks header max_msgs msg_len address bytes n block none g apart nm has pos low =
    rw (base_queue_create, pthread_create_msg_q, has) refl
create-failure ticks header max_msgs msg_len address bytes n block (some m) g apart nm has pos low =
    let same : address + header - header ≡ address = omega arith in
    let full : (address % 2 ^ 32 == 0) ≡ false = eq_false_of_ne _ _ (λ e. absurd (omega arith)) in
    rw (base_queue_create, pthread_create_msg_q, has, same, full, init-no_queue ticks g n apart nm)
      (ap (λ f. (failure, f)) (ap (λ a. followed a bad_free) same ∙ follows address bad_free low))
