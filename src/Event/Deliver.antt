-- ===== src/Event/Deliver.antt =====
-- Events sent are or-ed into the entry, and a receiver takes out exactly those that it asks for.
use basearch.Prelude.{
  no_common, ℕ, zero, suc, ◌<◌, ◌≡◌, refl, sym, ap, ◌∙◌, ◌≢◌, ◌⊎◌, inl, inr, Bool, true, false, not,
  ◌&&◌, ◌||◌, some, List, [], ◌∷◌, arith, if◌then◌else◌, ◌==◌, ==_iff, eq_false_of_ne, Bool-cases,
  Option-cases, get_elem?, modify, get_elem?-modify_self, bit_at, and32, or32, and_not32,
  bit_at-zip_bits, zip_bits-some,
}
use native.Mathlib.Decide.{ℕ_discrete}
use basearch.Registry.Slots.{find_slot, find_slot-some, find_slot-modify}
use basearch.Registry.{success, TskEntry, Registry, base_task_info_find, osix_tsk}
use basearch.Name.{short_name}
use basearch.Task.{base_task_cur_get}
use basearch.Event.{
  base_event_send, base_event_receive, receive_locked, EventReceived, failed, blocked, got,
  or_events, clear_events,
}

-- Some event of the mask is set in the word.
abbrev pub SomeEvent : ℕ → ℕ → Type 0
SomeEvent word mask = (i : ℕ) × (i < 32) × ((bit_at i word && bit_at i mask) ≡ true)

-- What a receiver that asks for `events` takes from the entry `t` of the task `cur`: the events
-- that are both set and asked for leave the entry, and nothing else changes.
pub record Delivered (events cur : ℕ) (t : TskEntry) (g : Registry) (ev : ℕ) (g' : Registry)
    : Type 0 where
  pub some_event : SomeEvent t.u4_events events
  pub bits : (i : ℕ) → i < 32 → bit_at i ev ≡ (bit_at i t.u4_events && bit_at i events)
  pub left : ℕ
  pub left_bits : (i : ℕ) → i < 32 → bit_at i left ≡ (bit_at i t.u4_events && not (bit_at i events))
  pub result : g' ≡ record g { tsks = modify g.tsks cur (λ x. record x { u4_events = left }) }

-- It is delivered to, or no event that it asks for is set, and it fails with 0 written if it will
-- not wait, and waits if it will.
abbrev pub Receives : ℕ → ℕ → ℕ → ℕ → TskEntry → Registry → EventReceived → Type 0
Receives no_wait events flags cur t g r =
    ((ev : ℕ) × (g' : Registry) × (r ≡ got ev g') × Delivered events cur t g ev g')
    ⊎ (((i : ℕ) → i < 32 → (bit_at i t.u4_events && bit_at i events) ≡ false)
        × (r ≡ (if flags == no_wait then failed (some 0) else blocked)))

taken_out : (x y : Bool) → (x && not (x && y)) ≡ (x && not y)
taken_out true y = refl
taken_out false y = refl

modify-same :
    {A : Type 0} (xs : List A) (i : ℕ) (f h : A → A) (x : A)
    → get_elem? xs i ≡ some x
    → f x ≡ h x
    → modify xs i f ≡ modify xs i h
modify-same [] i f h x gx e = refl
modify-same (y ∷ xs) zero f h x gx e = let k : y ≡ x = cc in ap (λ z. z ∷ xs) (rw k e)
modify-same (y ∷ xs) (suc i) f h x gx e = ap (λ l. y ∷ l) (modify-same xs i f h x gx e)

locked-Receives :
    (no_wait events flags cur : ℕ) (t : TskEntry) (g : Registry)
    → get_elem? g.tsks cur ≡ some t
    → Receives no_wait events flags cur t g (receive_locked no_wait events flags cur t g)
unfolding receive_locked
locked-Receives no_wait events flags cur t g gt = elim (ℕ_discrete (and32 t.u4_events events) 0) [
  | yes e ↦
      let q : (and32 t.u4_events events == 0) ≡ true = (==_iff _ _).1 e in
      inr (
        no_common t.u4_events events e,
        elim (Bool-cases (flags == no_wait)) [ inl z ↦ rw (z, q) | inr z ↦ rw (z, q) ],
      )
  | no ne ↦
      let q : (and32 t.u4_events events == 0) ≡ false = eq_false_of_ne _ _ ne in
      let common = and32 t.u4_events events in
      inl (
        common,
        record g { tsks = modify g.tsks cur (clear_events common) },
        elim (Bool-cases (flags == no_wait)) [ inl z ↦ rw (z, q) | inr z ↦ rw (z, q) ],
        record {
          some_event = zip_bits-some (λ x y. x && y) 32 t.u4_events events ne;
          bits = λ i lt. bit_at-zip_bits (λ x y. x && y) 32 i t.u4_events events lt;
          left = and_not32 t.u4_events common;
          left_bits = λ i lt.
              bit_at-zip_bits (λ x y. x && not y) 32 i t.u4_events common lt
              ∙ ap (λ c. bit_at i t.u4_events && not c)
                  (bit_at-zip_bits (λ x y. x && y) 32 i t.u4_events events lt)
              ∙ taken_out (bit_at i t.u4_events) (bit_at i events);
          result = ap (λ l. record g { tsks = l }) (modify-same g.tsks cur _ _ t gt refl);
        },
      )
]

-- The thread that `base_task_cur_get` finds owns the entry.
entry :
    (thr cur : ℕ) (g : Registry)
    → base_task_cur_get thr g ≡ cur
    → cur ≢ 0
    → (t : TskEntry) × (get_elem? g.tsks cur ≡ some t) × (t.thr_id ≡ thr)
unfolding base_task_cur_get
entry thr cur g here ne = elim (Option-cases (find_slot (λ t. t.thr_id == thr) g.tsks)) [
  | inl e ↦ absurd (ne (sym here ∙ rw (base_task_cur_get, e)))
  | inr (i, e) ↦
      let (_, (t, gt, hit), _) = find_slot-some (λ t. t.thr_id == thr) g.tsks i e in
      let k : cur ≡ i = sym here ∙ rw (base_task_cur_get, e) in (t, rw k gt, (==_iff _ _).0 hit)
]

receive_known :
    (no_wait thr events flags cur : ℕ) (t : TskEntry) (g : Registry)
    → base_task_cur_get thr g ≡ cur
    → cur ≢ 0
    → get_elem? g.tsks cur ≡ some t
    → base_event_receive no_wait thr events flags g ≡ receive_locked no_wait events flags cur t g
unfolding base_event_receive
receive_known no_wait thr events flags cur t g here ne gt =
    let q : (cur == 0) ≡ false = eq_false_of_ne _ _ ne in
    rw (here, q, gt) (ap (λ c. receive_locked no_wait events flags c t g) here)

-- A call of `base_event_receive` by the thread of a task gets exactly the events that are both set
-- for the task and asked for; they leave the task's entry and nothing else changes. If there are
-- none, it fails with 0 written if it is told not to wait, and waits if it is not.
pub receive_events :
    (no_wait thr events flags cur : ℕ) (g : Registry)
    → base_task_cur_get thr g ≡ cur
    → cur ≢ 0
    → (t : TskEntry) × (get_elem? g.tsks cur ≡ some t)
      × (t.thr_id ≡ thr)
      × Receives no_wait events flags cur t g (base_event_receive no_wait thr events flags g)
receive_events no_wait thr events flags cur g here ne =
    let (t, gt, own) = entry thr cur g here ne in
    (
      t,
      gt,
      own,
      rw (receive_known no_wait thr events flags cur t g here ne gt)
          (locked-Receives no_wait events flags cur t g gt),
    )

-- Sending leaves the thread of each task as it is.
cur_get-modify :
    (thr i events : ℕ) (g : Registry)
    → base_task_cur_get thr (record g { tsks = modify g.tsks i (or_events events) })
      ≡ base_task_cur_get thr g
unfolding base_task_cur_get
cur_get-modify thr i events g = rw (
  base_task_cur_get,
  find_slot-modify (λ t. t.thr_id == thr) g.tsks i (or_events events) (λ x. refl),
)

send_found :
    (lock cur events : ℕ) (name : List ℕ) (g : Registry)
    → base_task_info_find lock (short_name name) osix_tsk g ≡ some cur
    → base_event_send lock name events g
      ≡ (success, record g { tsks = modify g.tsks cur (or_events events) })
unfolding base_event_send
send_found lock cur events name g found = rw (base_event_send, found)

either : (x y m : Bool) → (y && m) ≡ true → ((x || y) && m) ≡ true
either true true m e = e
either true false m e = cc
either false y m e = e

-- With the registry's mutex free, events sent by name to the task of a thread, some of which it
-- asks for, with whatever flags, are delivered to its next call: the send succeeds, and the call
-- returns every event sent that is asked for, and every event set before that is asked for, and no
-- other; what is not asked for stays set.
pub send-receive :
    (no_wait thr events mask flags cur : ℕ) (name : List ℕ) (g : Registry)
    → base_task_info_find 0 (short_name name) osix_tsk g ≡ some cur
    → base_task_cur_get thr g ≡ cur
    → cur ≢ 0
    → SomeEvent events mask
    → (h : Registry) × (base_event_send 0 name events g ≡ (success, h))
      × (t : TskEntry) × (get_elem? g.tsks cur ≡ some t)
      × (ev : ℕ) × (g' : Registry) × (base_event_receive no_wait thr mask flags h ≡ got ev g')
      × Delivered mask cur (or_events events t) h ev g'
      × ((i : ℕ) → i < 32 → (bit_at i events && bit_at i mask) ≡ true → bit_at i ev ≡ true)
send-receive no_wait thr events mask flags cur name g found here ne (k, lt, both) =
    let (t, gt, own) = entry thr cur g here ne in
    let h = record g { tsks = modify g.tsks cur (or_events events) } in
    let gt' : get_elem? h.tsks cur ≡ some (or_events events t) =
      get_elem?-modify_self g.tsks cur (or_events events) t gt in
    let set : (i : ℕ)
        → i < 32
        → (bit_at i events && bit_at i mask) ≡ true
        → (bit_at i (or32 t.u4_events events) && bit_at i mask) ≡ true =
      λ i l e.
        ap (λ b. b && bit_at i mask) (bit_at-zip_bits (λ x y. x || y) 32 i t.u4_events events l)
        ∙ either (bit_at i t.u4_events) (bit_at i events) (bit_at i mask) e in
    let run =
      receive_known no_wait thr mask flags cur (or_events events t) h
        (cur_get-modify thr cur events g ∙ here) ne gt' in
    elim (locked-Receives no_wait mask flags cur (or_events events t) h gt') [
      | inr (nothing, r) ↦ absurd (ground (arith, nothing k lt, set k lt both))
      | inl (ev, g', r, d) ↦ (
        h,
        send_found 0 cur events name g found,
        t,
        gt,
        ev,
        g',
        run ∙ r,
        d,
        λ i l e. d.bits i l ∙ set i l e,
      )
    ]
