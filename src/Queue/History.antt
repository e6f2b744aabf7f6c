-- ===== src/Queue/History.antt =====
-- Threads that share a queue: each call runs under the queue's mutex, so an execution is a
-- sequence of calls, and a receiver that waits makes its call again after it is woken.
use basearch.Prelude.{
  ℕ, ◌+◌, ◌≤◌, ◌≡◌, sym, ap, ◌∙◌, List, [], ◌∷◌, ◌++◌, append_assoc, arith, ◌==◌, length,
  length-append, read_bytes, ==_iff, eq_false_of_ne, true, false,
}
use native.Mathlib.Decide.{ℕ_discrete}
use basearch.Registry.{success, failure}
use basearch.Queue.Fifo.{fifo_send, fifo_receive}
use basearch.Queue.Holds.{Holds}
use basearch.Queue.Refine.{send_refines, receive_refines}
use basearch.Queue.{MsgQ, pthread_send_msg_q, got, pthread_receive_msg_q}

-- The queue, with the messages that senders were told were sent and those that receivers got.
pub record Traffic : Type 0 where
  pub queue : MsgQ
  pub sent : List (List ℕ)
  pub received : List (List ℕ)

-- A call with a message of at least `len` bytes, or a call that gets a message. The calls that
-- fail to take the mutex, that fail on an empty queue or that begin to wait change nothing.
pub data Step (len : ℕ) : Traffic → Traffic → Type 0 where
  sends :
      {s : Traffic} (msg : List ℕ) (q' : MsgQ)
      → len ≤ length msg
      → pthread_send_msg_q 0 msg s.queue ≡ (success, q')
      → Step len s (record s { queue = q'; sent = s.sent ++ (read_bytes msg 0 len ∷ []) })
  refuses :
      {s : Traffic} (msg : List ℕ) (q' : MsgQ)
      → len ≤ length msg
      → pthread_send_msg_q 0 msg s.queue ≡ (failure, q')
      → Step len s (record s { queue = q' })
  receives :
      {s : Traffic} (timeout : ℕ) (m : List ℕ) (q' : MsgQ)
      → pthread_receive_msg_q 0 timeout s.queue ≡ got m q'
      → Step len s (record s { queue = q'; received = s.received ++ (m ∷ []) })

pub data Reach (len : ℕ) (s : Traffic) : Traffic → Type 0 where
  here : Reach len s s
  next : {t u : Traffic} → Reach len s t → Step len t u → Reach len s u

-- What was sent is what was received, in order, followed by what the queue holds.
pub record InOrder (cap len : ℕ) (s : Traffic) : Type 0 where
  pub waiting : List (List ℕ)
  pub holds : Holds cap len s.queue waiting
  pub order : s.sent ≡ s.received ++ waiting

Step-InOrder : {cap len : ℕ} {s t : Traffic} → Step len s t → InOrder cap len s → InOrder cap len t
unfolding fifo_send fifo_receive
Step-InOrder {cap} {len} (sends {s} msg q' fits e) inv =
    let (rc, keeps, full) = send_refines inv.holds msg fits in
    elim (ℕ_discrete (length inv.waiting) cap) [
      | yes k ↦ absurd (ground (arith, full k))
      | no ne ↦
          let t : (length inv.waiting == cap) ≡ false = eq_false_of_ne _ _ ne in
          record {
            waiting = inv.waiting ++ (read_bytes msg 0 len ∷ []);
            holds = rw (e, t) at keeps;
            order =
                ap (λ l. l ++ (read_bytes msg 0 len ∷ [])) inv.order
                ∙ append_assoc s.received inv.waiting (read_bytes msg 0 len ∷ []);
          }
    ]
Step-InOrder {cap} (refuses {s} msg q' fits e) inv =
    let (rc, keeps, full) = send_refines inv.holds msg fits in
    elim (ℕ_discrete (length inv.waiting) cap) [
      | yes k ↦
          let t : (length inv.waiting == cap) ≡ true = (==_iff _ _).1 k in
          record { waiting = inv.waiting; holds = rw (e, t) at keeps; order = inv.order }
      | no ne ↦
          let t : (length inv.waiting == cap) ≡ false = eq_false_of_ne _ _ ne in
          absurd (ground arith)
    ]
Step-InOrder {cap} {len} (receives {s} timeout m q' e) inv = go inv.waiting inv.holds inv.order
  where
    go :
        (ms : List (List ℕ))
        → Holds cap len s.queue ms
        → s.sent ≡ s.received ++ ms
        → InOrder cap len (record s { queue = q'; received = s.received ++ (m ∷ []) })
    go [] h o = let d = receive_refines [] timeout h in absurd (ground arith)
    go (x ∷ ms) h o =
        let (q'', d, h') = receive_refines (x ∷ ms) timeout h in
        let same : q'' ≡ q' = ground arith in
        let first : x ≡ m = ground arith in
        record {
          waiting = ms;
          holds = rw same at h';
          order = o ∙ rw first (sym (append_assoc s.received (m ∷ []) ms));
        }

along : {cap len : ℕ} {s t : Traffic} → InOrder cap len s → Reach len s t → InOrder cap len t
along inv here = inv
along inv (next r st) = Step-InOrder st (along inv r)

bounded : {cap len : ℕ} {t : Traffic} → InOrder cap len t → length t.sent ≤ length t.received + cap
bounded {t = t} i =
    omega (arith, ap length i.order, length-append t.received i.waiting, i.holds.few)

-- However the calls of the threads are interleaved, every message that was received was sent, in
-- the order of the sends and once, and the messages sent and not yet received are in the queue,
-- which never holds more than its capacity.
pub Reach-InOrder :
    {cap len : ℕ} {s t : Traffic}
    → InOrder cap len s
    → Reach len s t
    → InOrder cap len t × (length t.sent ≤ length t.received + cap)
Reach-InOrder inv r = let i = along inv r in (i, bounded i)
