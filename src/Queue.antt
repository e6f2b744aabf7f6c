-- ===== src/Queue.antt =====
-- The circular message queue of src/linux/base_queue.c, with `tPthreadQ` of base_queue.h: the
-- functions PTHREAD_Create_MsgQ, PTHREAD_Send_MsgQ, PTHREAD_Receive_MsgQ and
-- PTHREAD_MsgQ_NumMsgs. Pointers are addresses, and `q_mem` holds the bytes from `pQBase` to the
-- end of the block. The queue's mutex is held from the lock to each return, so a call is one
-- step, but for a receiver that waits: it has let the mutex go, and its call is made again.
pub mod Ring
pub mod Fifo
pub mod Holds
pub mod Refine
pub mod History
pub mod Osix
pub mod Unnamed
use basearch.Prelude.{
  ℕ, ◌+◌, ◌-◌, ◌*◌, ◌/◌, ◌%◌, ◌^◌, Bool, true, false, not, ◌&&◌, Option, none, some, List,
  if◌then◌else◌, ◌==◌, length, ltb, read_bytes, write_bytes,
}
use basearch.Registry.{Status, success, failure}

-- `tPthreadQ`, less the condition and the mutex.
pub record MsgQ : Type 0 where
  pub q_mem : List ℕ
  pub q_base : ℕ
  pub q_end : ℕ
  pub q_read : ℕ
  pub q_write : ℕ
  pub msg_len : ℕ
  pub over_flows : ℕ

-- `(u4MaxMsgs + 1) * u4MsgLen`, on 32 bits.
abbrev pub ring_bytes : ℕ → ℕ → ℕ
ring_bytes max_msgs msg_len = ((max_msgs + 1) % 2 ^ 32 * msg_len) % 2 ^ 32

-- What is left of a queue: none was made, it can be used, or the code does what has no defined
-- result: it passes a block of the pool to `free`, or follows a pointer that was cut to 32 bits.
pub data Fate : Type 0 where
  no_queue bad_free wild : Fate
  live : MsgQ → Fate

-- The bytes that MEM_MALLOC, `base_mem_malloc` with its UINT32, is asked for; `header` is
-- `sizeof (tPthreadQ)`.
unfoldable pub queue_bytes : ℕ → ℕ → ℕ → ℕ
queue_bytes header max_msgs msg_len = (ring_bytes max_msgs msg_len + header) % 2 ^ 32

-- The queue in a block at an address: `pQBase` is behind the header.
abbrev pub new_queue : (header max_msgs msg_len address : ℕ) → List ℕ → MsgQ
new_queue header max_msgs msg_len address bytes = record {
  q_mem = read_bytes bytes header (length bytes - header);
  q_base = address + header;
  q_end = address + header + ring_bytes max_msgs msg_len;
  q_read = address + header;
  q_write = address + header;
  msg_len = msg_len;
  over_flows = 0;
}

-- `block` is what MEM_MALLOC returns for a number of bytes, an address and the bytes there, and
-- `mutex` what it returns for the mutex; `none` is NULL.
unfoldable pub pthread_create_msg_q :
    (header max_msgs msg_len : ℕ) → (ℕ → Option (ℕ × List ℕ)) → Option ℕ → Fate
pthread_create_msg_q header max_msgs msg_len block mutex =
    elim (block (queue_bytes header max_msgs msg_len)) [
      | none ↦ no_queue
      | some b ↦ elim mutex [
        | none ↦ bad_free
        | some m ↦ live (new_queue header max_msgs msg_len b.0 b.1)
      ]
    ]

-- The code counts the overflow after it has let the mutex go; here that is part of the step.
abbrev pub overflowed : MsgQ → Status × MsgQ
overflowed q = (failure, record q { over_flows = (q.over_flows + 1) % 2 ^ 32 })

-- `lock` is what `pthread_mutex_lock` returns. The results 0 and -1 are `success` and `failure`.
unfoldable pub pthread_send_msg_q : ℕ → List ℕ → MsgQ → Status × MsgQ
pthread_send_msg_q lock msg q =
    if not (lock == 0)
    then (failure, q)
    else if (q.q_write + q.msg_len == q.q_end) && (q.q_read == q.q_base)
    then overflowed q
    else if q.q_write + q.msg_len == q.q_read
    then overflowed q
    else let write = q.q_write + q.msg_len in
      (
        success,
        record q {
          q_mem = write_bytes q.q_mem (q.q_write - q.q_base) (read_bytes msg 0 q.msg_len);
          q_write = if write == q.q_end then q.q_base else write;
        },
      )

-- What becomes of a call of PTHREAD_Receive_MsgQ: it fails with -1, it waits on the condition, or
-- it returns 0 with a message, and leaves the queue that is given.
pub data Received : Type 0 where
  failed : Received
  blocked : Received
  got : List ℕ → MsgQ → Received

-- `timeout` is the bit pattern of `i4Timeout`, of which only 0 is told apart: the absolute time
-- that the code computes from it is not used.
unfoldable pub pthread_receive_msg_q : ℕ → ℕ → MsgQ → Received
pthread_receive_msg_q lock timeout q =
    if not (lock == 0)
    then failed
    else if (timeout == 0) && (q.q_write == q.q_read)
    then failed
    else if q.q_write == q.q_read
    then blocked
    else let read = q.q_read + q.msg_len in
      got (read_bytes q.q_mem (q.q_read - q.q_base) q.msg_len)
        (record q { q_read = if read == q.q_end then q.q_base else read })

unfoldable pub pthread_msg_q_num_msgs : MsgQ → ℕ
pthread_msg_q_num_msgs q =
    if ltb q.q_write q.q_read
    then (q.q_write - q.q_base + q.q_end - q.q_read) % 2 ^ 32 / q.msg_len
    else (q.q_write - q.q_read) / q.msg_len % 2 ^ 32

-- The mutex and the queue, blocks of the pool, are passed to `free`, unless the mutex cannot be
-- taken.
unfoldable pub pthread_delete_msg_q : ℕ → MsgQ → Fate
pthread_delete_msg_q lock q = if not (lock == 0) then live q else bad_free
