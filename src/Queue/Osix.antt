-- ===== src/Queue/Osix.antt =====
-- The calls `base_queue_*` of src/linux/base_queue.c, over the registry and the circular queues.
use basearch.Prelude.{
  ℕ, ◌-◌, ◌==◌, ltb, if◌then◌else◌, ◌+◌, ◌*◌, ◌/◌, ◌%◌, ◌^◌, Option, none, some, List,
}
use basearch.Registry.{
  Status, success, failure, Registry, base_task_init, base_task_info_find, base_task_info_add,
  base_task_info_del, osix_que,
}
use basearch.Queue.{
  MsgQ, Fate, no_queue, bad_free, wild, live, pthread_create_msg_q, pthread_delete_msg_q,
  pthread_send_msg_q, pthread_receive_msg_q, failed, blocked, got,
}

-- base_queue.c has its own text of the four functions of the registry, which is that of
-- base_task.c word for word.
unfoldable pub base_queue_init : ℕ → ℕ → Registry → Status × Registry
base_queue_init rc ticks g = base_task_init rc ticks g

unfoldable pub base_queue_info_find : ℕ → List ℕ → ℕ → Registry → Option ℕ
base_queue_info_find lock name ty g = base_task_info_find lock name ty g

unfoldable pub base_queue_info_add : ℕ → List ℕ → ℕ → ℕ → Registry → Status × Registry
base_queue_info_add lock name ty id g = base_task_info_add lock name ty id g

unfoldable pub base_queue_info_del : ℕ → ℕ → ℕ → Registry → Registry
base_queue_info_del lock ty id g = base_task_info_del lock ty id g

-- The search writes the id that it finds to the queue's own first word, since the queue is passed
-- as the pointer: the low half of `pQBase` is lost.
abbrev pub overwrite_base : ℕ → MsgQ → MsgQ
overwrite_base id q = record q { q_base = q.q_base / 2 ^ 32 * 2 ^ 32 + id % 2 ^ 32 }

-- `*pQueId` is a UINT32: a queue at an address of more bits is lost, and the pointer that is made
-- of the id again is another.
unfoldable pub followed : ℕ → Fate → Fate
followed address fate = if ltb address (2 ^ 32) then fate else wild

-- `find_lock` is what the lock of the registry's mutex returns, `del_lock` that of the queue's.
-- The registry is only read. Where the fate has no defined result the status is the one that the
-- code would go on to return.
unfoldable pub base_queue_create :
    ℕ
    → ℕ
    → List ℕ
    → (header max_msgs msg_len : ℕ) → (ℕ → Option (ℕ × List ℕ))
    → Option ℕ
    → Registry
    → Status × Fate
base_queue_create find_lock del_lock name header max_msgs msg_len block mutex g =
    elim (pthread_create_msg_q header max_msgs msg_len block mutex) [
      | no_queue ↦ (failure, no_queue)
      | bad_free ↦ (failure, bad_free)
      | wild ↦ (failure, wild)
      | live q ↦
          if (q.q_base - header) % 2 ^ 32 == 0
          then (failure, live q)
          else elim (base_queue_info_find find_lock name osix_que g) [
            | none ↦ (failure, followed (q.q_base - header) (pthread_delete_msg_q del_lock q))
            | some id ↦ (success, followed (q.q_base - header) (live (overwrite_base id q)))
          ]
    ]

unfoldable pub base_queue_delete : ℕ → ℕ → ℕ → MsgQ → Registry → Registry × Fate
base_queue_delete del_lock lock id q g =
    (base_queue_info_del del_lock osix_que id g, pthread_delete_msg_q lock q)

unfoldable pub base_queue_send : ℕ → List ℕ → ℕ → MsgQ → Status × MsgQ
base_queue_send lock msg msg_len q =
    let (st, q') = pthread_send_msg_q lock msg q in
    elim st [ failure ↦ (failure, q') | success ↦ (success, q') ]

-- The result of a receive: the status with the message and the queue, or a caller that waits.
pub data Delivery : Type 0 where
  lost : Delivery
  waiting : Delivery
  delivered : List ℕ → MsgQ → Delivery

unfoldable pub base_queue_receive : ℕ → ℕ → ℕ → MsgQ → Delivery
base_queue_receive lock msg_len timeout q = elim (pthread_receive_msg_q lock timeout q) [
  | failed ↦ lost
  | blocked ↦ waiting
  | got m q' ↦ delivered m q'
]
