-- ===== src/Queue/Refine.antt =====
-- The queue of base_queue.c is a bounded first-in first-out list.
use basearch.Prelude.{
  ℕ, suc, ◌+◌, ◌-◌, ◌*◌, ◌%◌, ◌^◌, ◌≤◌, ◌<◌, ◌≡◌, refl, ap, ◌∙◌, ◌≢◌, inl, inr, true, false, ◌&&◌,
  Option, none, some, List, [], ◌∷◌, ◌++◌, arith, if◌then◌else◌, ◌==◌, ltb, length, length-append,
  read_bytes, length-write_bytes, length-read_bytes, ==_iff, eq_false_of_ne, lt→ltb,
}
use native.Mathlib.Decide.{ℕ_discrete}
use native.Mathlib.Nat.{mul-div_cancel}
use basearch.Queue.Fifo.{fifo_send, fifo_receive}
use basearch.Queue.Holds.{Holds, full_send, room_send, same_slot, wrapped}
use basearch.Queue.Ring.{slot_apart, next_slot, next_slot-lt, after, after_sum, window-write}
use basearch.Queue.{
  MsgQ, overflowed, pthread_send_msg_q, Received, failed, blocked, got, pthread_receive_msg_q,
  pthread_msg_q_num_msgs,
}

module _ {cap len : ℕ} {q : MsgQ} {ms : List (List ℕ)} (h : Holds cap len q ms) where
  sent :
      (msg : List ℕ)
      → len ≤ length msg
      → length ms < cap
      → Holds cap len (pthread_send_msg_q 0 msg q).1 (ms ++ (read_bytes msg 0 len ∷ []))
  sent msg fits lt = rw (room_send h msg lt) (record {
    slot = h.slot;
    pos = h.pos;
    small = h.small;
    slot_in = h.slot_in;
    few = omega (arith, longer);
    size = h.size;
    mem_size = length-write_bytes q.q_mem _ _ ∙ h.mem_size;
    end_at = h.end_at;
    read_at = h.read_at;
    write_at = rw longer;
    msgs = rw longer (
        window-write len (suc cap) q.q_mem (read_bytes msg 0 len) h.slot (length ms) _ h.mem_size
          (length-read_bytes msg 0 len (omega arith)) h.slot_in (omega arith) refl
        ∙ ap (λ t. t ++ (read_bytes msg 0 len ∷ [])) h.msgs);
  })
    where
      longer : length (ms ++ (read_bytes msg 0 len ∷ [])) ≡ suc (length ms)
      longer = omega (arith, length-append ms (read_bytes msg 0 len ∷ []))

  -- With the mutex free, PTHREAD_Send_MsgQ of a message of the queue's length or longer, on a queue
  -- that holds `ms`, returns what the bounded list returns, and
  -- leaves the queue holding the list that it leaves; a send to a full queue only counts one
  -- overflow more, on 32 bits.
  pub send_refines :
      (msg : List ℕ)
      → len ≤ length msg
      → ((pthread_send_msg_q 0 msg q).0 ≡ (fifo_send cap len msg ms).0)
        × Holds cap len (pthread_send_msg_q 0 msg q).1 (fifo_send cap len msg ms).1
        × (length ms ≡ cap → pthread_send_msg_q 0 msg q ≡ overflowed q)
  unfolding fifo_send
  send_refines msg fits = elim (ℕ_discrete (length ms) cap) [
    | yes e ↦
        let t : (length ms == cap) ≡ true = (==_iff _ _).1 e in
        let full = full_send h msg e in
        (
          rw (t, full),
          rw (t, full)
              (record {
                slot = h.slot;
                pos = h.pos;
                small = h.small;
                slot_in = h.slot_in;
                few = h.few;
                size = h.size;
                mem_size = h.mem_size;
                end_at = h.end_at;
                read_at = h.read_at;
                write_at = h.write_at;
                msgs = h.msgs;
              }),
          λ _. full,
        )
    | no ne ↦
        let t : (length ms == cap) ≡ false = eq_false_of_ne _ _ ne in
        let lt : length ms < cap = omega (arith, h.few) in
        (rw (t, room_send h msg lt), rw t (sent msg fits lt), λ e. absurd (ne e))
  ]

-- What PTHREAD_Receive_MsgQ owes to the list: the first message, and a queue that holds the
-- rest; on an empty list it fails if it was told not to wait, and waits if not.
abbrev pub Delivers : ℕ → ℕ → ℕ → Option (List ℕ × List (List ℕ)) → Received → Type 0
Delivers cap len timeout none r = r ≡ (if timeout == 0 then failed else blocked)
Delivers cap len timeout (some (m, rest)) r = (q' : MsgQ) × (r ≡ got m q') × Holds cap len q' rest

received_first :
    {cap len : ℕ} {q : MsgQ} (m : List ℕ) (ms : List (List ℕ)) (timeout : ℕ)
    → Holds cap len q (m ∷ ms)
    → Delivers cap len timeout (some (m, ms)) (pthread_receive_msg_q 0 timeout q)
unfolding pthread_receive_msg_q
received_first {cap} {len} {q} m ms timeout h =
    let n = suc cap in
    let k = length ms in
    let wr = h.write_at in
    let en = h.end_at in
    let rd = h.read_at in
    let sz = h.size in
    let few = h.few in
    let p = after_sum n h.slot (suc k) h.slot_in (omega arith) in
    let ne : q.q_write ≢ q.q_read =
      λ e. let s = same_slot h (after n h.slot (suc k)) h.slot (omega arith) in omega arith in
    let t1 : (q.q_write == q.q_read) ≡ false = eq_false_of_ne _ _ ne in
    let t2 : ((timeout == 0) && (q.q_write == q.q_read)) ≡ false = ground arith in
    let off : q.q_read - q.q_base ≡ h.slot * len = omega arith in
    let (first, rest) = uncons h.msgs in
    (
      record q { q_read = q.q_base + next_slot n h.slot * len },
      rw (t2, t1, wrapped h q.q_read h.slot rd, off, sz, first),
      record {
        slot = next_slot n h.slot;
        pos = h.pos;
        small = h.small;
        slot_in = next_slot-lt n h.slot h.slot_in;
        few = omega arith;
        size = h.size;
        mem_size = h.mem_size;
        end_at = h.end_at;
        read_at = refl;
        write_at = h.write_at;
        msgs = rest;
      },
    )
  where
    uncons :
        {x y : List ℕ} {xs ys : List (List ℕ)}
        → ◌≡◌ {A = List (List ℕ)} (x ∷ xs) (y ∷ ys)
        → (x ≡ y) × (xs ≡ ys)
    uncons e = (cc, cc)

-- With the mutex free, PTHREAD_Receive_MsgQ on a queue that holds `ms` delivers the first message
-- and leaves the others, or on an empty queue fails if the timeout is 0 and waits if it is not.
pub receive_refines :
    {cap len : ℕ} {q : MsgQ} (ms : List (List ℕ)) (timeout : ℕ)
    → Holds cap len q ms
    → Delivers cap len timeout (fifo_receive ms) (pthread_receive_msg_q 0 timeout q)
unfolding fifo_receive pthread_receive_msg_q
receive_refines {q} [] timeout h =
    let e : q.q_write ≡ q.q_read = omega (arith, h.write_at, h.read_at) in ground arith
receive_refines (m ∷ ms) timeout h = received_first m ms timeout h

le-mul : (k len : ℕ) → 0 < len → k ≤ k * len
le-mul k len pos = grind arith

-- PTHREAD_MsgQ_NumMsgs counts the messages that the queue holds.
pub num_msgs-length :
    {cap len : ℕ} {q : MsgQ} {ms : List (List ℕ)}
    → Holds cap len q ms
    → pthread_msg_q_num_msgs q ≡ length ms
unfolding pthread_msg_q_num_msgs
num_msgs-length {cap} {len} {q} {ms} h =
    let n = suc cap in
    let k = length ms in
    let j = after n h.slot k in
    let wr : q.q_write ≡ q.q_base + j * len = h.write_at in
    let en = h.end_at in
    let rd = h.read_at in
    let sz = h.size in
    let sm = h.small in
    let few = h.few in
    let below = slot_apart k n len (omega arith) in
    let wide : k ≤ k * len = le-mul k len h.pos in
    elim (after_sum n h.slot k h.slot_in (omega arith)) [
      | inl (lt, e) ↦
          let z = ap (λ (t : ℕ). t * len) e in
          let t : ltb q.q_write q.q_read ≡ false = ground arith in
          let c : q.q_write - q.q_read ≡ k * len = omega arith in
          rw (t, c, sz, mul-div_cancel k h.pos) (omega arith)
      | inr (ge, e) ↦
          let z = ap (λ (t : ℕ). t * len) e in
          let lower = slot_apart j h.slot len (omega (arith, h.slot_in)) in
          let t : ltb q.q_write q.q_read ≡ true = lt→ltb _ _ (omega arith) in
          let c : (q.q_write - q.q_base + q.q_end - q.q_read) % 2 ^ 32 ≡ k * len = omega arith in
          rw (t, c, sz, mul-div_cancel k h.pos)
    ]
