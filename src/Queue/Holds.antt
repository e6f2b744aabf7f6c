-- ===== src/Queue/Holds.antt =====
-- When a queue of base_queue.c holds a list of messages, and what its functions do to that list.
use basearch.Prelude.{
  ℕ, suc, ◌+◌, ◌-◌, ◌*◌, ◌%◌, ◌^◌, ◌≤◌, ◌<◌, ◌≡◌, refl, ap, ◌∙◌, ◌≢◌, ◌⊎◌, inl, inr, true, false,
  ◌&&◌, some, Option, length-read_bytes, List, [], arith, if◌then◌else◌, ◌==◌, length, read_bytes,
  write_bytes, ==_iff, eq_false_of_ne,
}
use native.Mathlib.Decide.{ℕ_discrete}
use basearch.Registry.{success}
use basearch.Queue.Ring.{
  slot_apart, slot_cancel, next_slot, next_slot_cases, after, after_sum, after-next, window,
}
use basearch.Queue.{
  live, new_queue, queue_bytes, MsgQ, ring_bytes, pthread_create_msg_q, overflowed,
  pthread_send_msg_q,
}

-- The ring of `cap + 1` slots of `len` bytes holds the messages `ms`, the oldest first: it has a
-- read slot, the write slot stands `length ms` slots further on, and the slots between hold them.
pub record Holds (cap len : ℕ) (q : MsgQ) (ms : List (List ℕ)) : Type 0 where
  pub slot : ℕ
  pub pos : 0 < len
  pub small : suc cap * len < 2 ^ 32
  pub slot_in : slot < suc cap
  pub few : length ms ≤ cap
  pub size : q.msg_len ≡ len
  pub mem_size : length q.q_mem ≡ suc cap * len
  pub end_at : q.q_end ≡ q.q_base + suc cap * len
  pub read_at : q.q_read ≡ q.q_base + slot * len
  pub write_at : q.q_write ≡ q.q_base + after (suc cap) slot (length ms) * len
  pub msgs : window len (suc cap) q.q_mem slot (length ms) ≡ ms

-- If the ring's size and the header's fit 32 bits, and there are a block of as many bytes and one
-- for the mutex, creation gives an empty queue of as many messages as were asked for.
pub create-Holds :
    (header cap len base m : ℕ) (block : ℕ → Option (ℕ × List ℕ)) (bytes : List ℕ)
    → 0 < len
    → suc cap * len + header < 2 ^ 32
    → block (suc cap * len + header) ≡ some (base, bytes)
    → length bytes ≡ suc cap * len + header
    → (q : MsgQ) × (pthread_create_msg_q header cap len block (some m) ≡ live q)
      × Holds cap len q []
unfolding pthread_create_msg_q queue_bytes
create-Holds header cap len base m block bytes pos small has size = (
  new_queue header cap len base bytes,
  rw (pthread_create_msg_q, asked, has) refl,
  record {
    slot = 0;
    pos = pos;
    small = omega arith;
    slot_in = omega arith;
    few = omega arith;
    size = refl;
    mem_size = length-read_bytes bytes header (length bytes - header) (omega arith) ∙ omega arith;
    end_at = ap (λ t. base + header + t) ring;
    read_at = omega arith;
    write_at = omega arith;
    msgs = refl;
  },
)
  where
    cap-lt : cap + 1 < 2 ^ 32
    cap-lt = let p = slot_apart 0 len (suc cap) pos in omega arith

    ring : ring_bytes cap len ≡ suc cap * len
    ring = let e : (cap + 1) % 2 ^ 32 ≡ suc cap = omega (arith, cap-lt) in rw e (omega arith)

    asked : queue_bytes header cap len ≡ suc cap * len + header
    asked = rw (queue_bytes, ring) (omega arith)

module _ {cap len : ℕ} {q : MsgQ} {ms : List (List ℕ)} (h : Holds cap len q ms) where
  -- The two tests for a full ring, by slots.
  full_tests :
      length ms ≡ cap
      → ((suc (after (suc cap) h.slot (length ms)) ≡ suc cap) × (h.slot ≡ 0))
        ⊎ (suc (after (suc cap) h.slot (length ms)) ≡ h.slot)
  full_tests e =
      let p = after_sum (suc cap) h.slot (length ms) h.slot_in (omega (arith, h.few)) in
      let q = h.slot_in in
      elim (ℕ_discrete h.slot 0) [ yes z ↦ inl (omega arith, z) | no nz ↦ inr (omega arith) ]

  room_tests :
      length ms < cap
      → ((suc (after (suc cap) h.slot (length ms)) ≡ suc cap) → h.slot ≡ 0 → ⊥)
        × (suc (after (suc cap) h.slot (length ms)) ≡ h.slot → ⊥)
  room_tests lt =
      let p = after_sum (suc cap) h.slot (length ms) h.slot_in (omega (arith, h.few)) in
      let q = h.slot_in in (λ a b. omega arith, λ a. omega arith)

  pub same_slot : (a b : ℕ) → q.q_base + a * len ≡ q.q_base + b * len → a ≡ b
  same_slot a b e = slot_cancel a b len h.pos (omega arith)

  -- A pointer that is moved on goes to the next slot of the circle.
  pub wrapped :
      (p j : ℕ)
      → p ≡ q.q_base + j * len
      → (if p + q.msg_len == q.q_end then q.q_base else p + q.msg_len)
        ≡ q.q_base + next_slot (suc cap) j * len
  wrapped p j at =
      let en = h.end_at in
      let sz = h.size in
      elim (next_slot_cases (suc cap) j) [
        | inl (e, z) ↦
            let w = ap (λ (t : ℕ). t * len) e in
            let t : (p + q.msg_len == q.q_end) ≡ true = (==_iff _ _).1 (omega arith) in
            rw (z, t) (omega arith)
        | inr (ne, z) ↦
            let t : (p + q.msg_len == q.q_end) ≡ false =
              eq_false_of_ne _ _ (λ e. ne (same_slot (suc j) (suc cap) (omega arith))) in
            rw (z, t) (omega arith)
      ]

  -- The code's tests on the pointers say whether the ring is full.
  pub full_send : (msg : List ℕ) → length ms ≡ cap → pthread_send_msg_q 0 msg q ≡ overflowed q
  unfolding pthread_send_msg_q
  full_send msg e =
      let wr = h.write_at in
      let en = h.end_at in
      let rd = h.read_at in
      let sz = h.size in
      elim (full_tests e) [
        | inl (a, b) ↦
            let x : q.q_write + q.msg_len ≡ q.q_end =
              let z = ap (λ (t : ℕ). t * len) a in omega arith in
            let y : q.q_read ≡ q.q_base = let z = ap (λ (t : ℕ). t * len) b in omega arith in
            ground arith
        | inr a ↦
            let x : q.q_write + q.msg_len ≡ q.q_read =
              let z = ap (λ (t : ℕ). t * len) a in omega arith in
            ground arith
      ]

  -- With room the message goes to the write slot, and the pointer moves on by one slot.
  pub room_send :
      (msg : List ℕ)
      → length ms < cap
      → pthread_send_msg_q 0 msg q ≡ (
        success,
        record q {
          q_mem =
              write_bytes q.q_mem (after (suc cap) h.slot (length ms) * len) (read_bytes msg 0 len);
          q_write = q.q_base + after (suc cap) h.slot (suc (length ms)) * len;
        },
      )
  unfolding pthread_send_msg_q
  room_send msg lt =
      let j = after (suc cap) h.slot (length ms) in
      let wr : q.q_write ≡ q.q_base + j * len = h.write_at in
      let en = h.end_at in
      let rd = h.read_at in
      let sz = h.size in
      let off : q.q_write - q.q_base ≡ j * len = omega arith in
      let x : (q.q_write + q.msg_len ≡ q.q_end) → suc j ≡ suc cap =
        λ e. same_slot (suc j) (suc cap) (omega arith) in
      let y : (q.q_read ≡ q.q_base) → h.slot ≡ 0 = λ e. same_slot h.slot 0 (omega arith) in
      let z : q.q_write + q.msg_len ≢ q.q_read =
        λ e. (room_tests lt).1 (same_slot (suc j) h.slot (omega arith)) in
      let t1 : ((q.q_write + q.msg_len == q.q_end) && (q.q_read == q.q_base)) ≡ false =
        not_both (λ a b. (room_tests lt).0 (x a) (y b)) in
      let t2 : (q.q_write + q.msg_len == q.q_read) ≡ false = eq_false_of_ne _ _ z in
      rw (t1, t2, wrapped q.q_write j wr, off, sz, after-next (suc cap) h.slot (length ms))
    where
      not_both : {a b c d : ℕ} → (a ≡ b → c ≡ d → ⊥) → ((a == b) && (c == d)) ≡ false
      not_both f = ground arith
