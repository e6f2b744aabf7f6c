-- ===== src/Tests/Queue.antt =====
-- A queue of two messages of a byte each (src/linux/base_queue.c).
use basearch.Prelude.{
  suc, ◌*◌, Option, replicate, ℕ, ◌≡◌, refl, ◌+◌, ◌≤◌, List, [], ◌∷◌, some, length, arith,
  read_bytes,
}
use basearch.Queue.Fifo.{fifo_send, fifo_receive}
use basearch.Queue.Holds.{Holds, create-Holds}
use basearch.Queue.Refine.{send_refines, Delivers, receive_refines, num_msgs-length}
use basearch.Queue.History.{Traffic, InOrder, Reach, here, next, receives, Reach-InOrder}
use basearch.Queue.{
  live, MsgQ, overflowed, pthread_create_msg_q, pthread_send_msg_q, pthread_receive_msg_q,
  pthread_msg_q_num_msgs,
}

-- The ring of three bytes at 100, read from slot `r` and written at slot `w`.
abbrev ring : ℕ → ℕ → List ℕ → MsgQ
ring r w bytes = record {
  q_mem = bytes;
  q_base = 100;
  q_end = 103;
  q_read = 100 + r;
  q_write = 100 + w;
  msg_len = 1;
  over_flows = 0;
}

abbrev empty : MsgQ
empty = ring 0 0 (0 ∷ 0 ∷ 0 ∷ [])

abbrev two : List (List ℕ)
two = (7 ∷ []) ∷ (8 ∷ []) ∷ []

-- The two messages 7 and 8 from the last slot on.
abbrev full : MsgQ
full = ring 2 1 (8 ∷ 0 ∷ 7 ∷ [])

empty-Holds : Holds 2 1 empty []
empty-Holds = record {
  slot = 0;
  pos = omega arith;
  small = omega arith;
  slot_in = omega arith;
  few = omega arith;
  size = refl;
  mem_size = refl;
  end_at = refl;
  read_at = refl;
  write_at = refl;
  msgs = refl;
}

full-Holds : Holds 2 1 full two
unfolding read_bytes
full-Holds = record {
  slot = 2;
  pos = omega arith;
  small = omega arith;
  slot_in = omega arith;
  few = omega arith;
  size = refl;
  mem_size = refl;
  end_at = refl;
  read_at = refl;
  write_at = refl;
  msgs = refl;
}

-- An allocator that has as many zeros as are asked for at an address.
abbrev pub zeros : ℕ → ℕ → Option (ℕ × List ℕ)
zeros at n = some (at, replicate n 0)

all_zeros : length {A = ℕ} (replicate 91 0) ≡ suc 2 * 1 + 88
unfolding replicate
all_zeros = refl

create-Holds_example :
    (q : MsgQ) × (pthread_create_msg_q 88 2 1 (zeros 100) (some 50) ≡ live q) × Holds 2 1 q []
create-Holds_example =
    create-Holds 88 2 1 100 50 (zeros 100) (replicate 91 0) (omega arith) (omega arith) refl
      all_zeros

send_refines_example :
    ((pthread_send_msg_q 0 (9 ∷ []) full).0 ≡ (fifo_send 2 1 (9 ∷ []) two).0)
    × Holds 2 1 (pthread_send_msg_q 0 (9 ∷ []) full).1 (fifo_send 2 1 (9 ∷ []) two).1
    × (length two ≡ 2 → pthread_send_msg_q 0 (9 ∷ []) full ≡ overflowed full)
send_refines_example = send_refines full-Holds (9 ∷ []) (omega arith)

receive_refines_example : Delivers 2 1 5 (fifo_receive two) (pthread_receive_msg_q 0 5 full)
receive_refines_example = receive_refines two 5 full-Holds

num_msgs-length_example : pthread_msg_q_num_msgs full ≡ 2
num_msgs-length_example = num_msgs-length full-Holds

abbrev quiet : Traffic
quiet = record { queue = full; sent = two; received = [] }

abbrev after_receive : Traffic
after_receive = record { queue = ring 0 1 (8 ∷ 0 ∷ 7 ∷ []); sent = two; received = (7 ∷ []) ∷ [] }

quiet-InOrder : InOrder 2 1 quiet
quiet-InOrder = record { waiting = two; holds = full-Holds; order = refl }

one_step : Reach 1 quiet after_receive
unfolding pthread_receive_msg_q read_bytes
one_step = next here (receives 1 (7 ∷ []) (ring 0 1 (8 ∷ 0 ∷ 7 ∷ [])) refl)

Reach-InOrder_example :
    InOrder 2 1 after_receive × (length after_receive.sent ≤ length after_receive.received + 2)
Reach-InOrder_example = Reach-InOrder quiet-InOrder one_step
