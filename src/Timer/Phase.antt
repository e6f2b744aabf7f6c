-- ===== src/Timer/Phase.antt =====
-- One timer followed through the loop of `stw_timer_tick` (src/timer/base_timer.c).
use basearch.Prelude.{
  ℕ, ◌-◌, ◌/◌, ◌<◌, ◌≡◌, ◌≢◌, sym, ap, ◌∙◌, inl, inr, ◌⊎◌, List, ◌∷◌, ◌++◌, arith, subst,
}
use native.Mathlib.Decide.{ℕ_discrete}
use basearch.Timer.{Cell, State, Call, visit, ticks_of}
use basearch.Timer.Store.{count, count_self, count-other, count-append, asked}
use basearch.Timer.Rings.{Spokes, IsTimer}
use basearch.Timer.Invariant.{IsWheel, Same, shape, calls_of}
use basearch.Timer.Enqueue.{spoke_of, turns_of, turns_pos}
use basearch.Timer.Start.{place-shape}
use basearch.Timer.Visit.{call_of, visited}
use basearch.Timer.Visit.Keeps.{visit-Same}
use basearch.Timer.Visit.Step.{Rest, here_on}
use basearch.Timer.Visit.Own.{At, Idle, counts_down, is_done, is_back, own_lem}

pub At-Same :
    {t spoke turns : ℕ} {c : Cell} {cs : List Call} {s s' : State} {l l' : Spokes}
    → Same t s s' l l'
    → At t s l spoke turns c cs
    → At t s' l' spoke turns c cs
At-Same {spoke = spoke} a b = record {
  on = let e = a.place spoke in omega (arith, b.on);
  left = ap (λ c. c.rotation_count) a.kept ∙ b.left;
  wants = ap asked a.kept ∙ b.wants;
  made = a.called ∙ b.made;
}

pub At-eq :
    {t k k' u u' : ℕ} {c c' : Cell} {cs cs' : List Call} {s : State} {l : Spokes}
    → At t s l k u c cs
    → k ≡ k'
    → u ≡ u'
    → c ≡ c'
    → cs ≡ cs'
    → At t s l k' u' c' cs'
At-eq {t} {l = l} a p q r m = record {
  on = subst (λ x. 0 < count t (l x)) p a.on;
  left = a.left ∙ q;
  wants = a.wants ∙ r;
  made = a.made ∙ m;
}

pub Idle-Same :
    {t : ℕ} {cs : List Call} {s s' : State} {l l' : Spokes}
    → Same t s s' l l'
    → Idle t s l cs
    → Idle t s' l' cs
Idle-Same a b = record {
  off = λ k. a.place k ∙ b.off k;
  null_next = a.idle b.null_next b.off;
  made = a.called ∙ b.made;
}

-- The timer `t`, from `s0` on, when it was on spoke `j` with `r` rotations left.
module _ (t : ℕ) (s0 : State) (j r : ℕ) (c : Cell) (cs : List Call) where
  abbrev i : ℕ
  i = s0.stw.spoke_index

  abbrev pub new_spoke : ℕ
  new_spoke = spoke_of s0 c.periodic_delay

  abbrev pub new_turns : ℕ
  new_turns = turns_of s0 c.periodic_delay

  abbrev pub called : List Call
  called = cs ++ call_of t c

  -- What has become of it, and whether the loop still comes to it.
  pub data Phase (s : State) (l : Spokes) (todo : List ℕ) : Type 0 where
    elsewhere : j ≢ i → count t todo ≡ 0 → At t s l j r c cs → Phase s l todo
    waiting : j ≡ i → 0 < count t todo → At t s l j r c cs → Phase s l todo
    counted : j ≡ i → count t todo ≡ 0 → r ≢ 0 → At t s l j (r - 1) c cs → Phase s l todo
    fired :
        j ≡ i → count t todo ≡ 0 → r ≡ 0 → c.periodic_delay ≡ 0 → Idle t s l called → Phase s l todo
    put_back :
        j ≡ i
        → r ≡ 0
        → 0 < c.periodic_delay
        → At t s l new_spoke new_turns c called
        → Phase s l todo
    put_back_counted :
        j ≡ i
        → count t todo ≡ 0
        → r ≡ 0
        → 0 < c.periodic_delay
        → new_spoke ≡ i
        → 0 < new_turns
        → At t s l i (new_turns - 1) c called
        → Phase s l todo

  -- Another timer that is met changes nothing of it.
  Phase-other :
      {s s' : State} {l l' : Spokes} (todo todo' : List ℕ)
      → Same t s s' l l'
      → count t todo' ≡ count t todo
      → Phase s l todo
      → Phase s' l' todo'
  Phase-other todo todo' a e (elsewhere n z p) = elsewhere n (e ∙ z) (At-Same a p)
  Phase-other todo todo' a e (waiting n z p) = waiting n (omega arith) (At-Same a p)
  Phase-other todo todo' a e (counted n z ne p) = counted n (e ∙ z) ne (At-Same a p)
  Phase-other todo todo' a e (fired n z q d p) = fired n (e ∙ z) q d (Idle-Same a p)
  Phase-other todo todo' a e (put_back n q d p) = put_back n q d (At-Same a p)
  Phase-other todo todo' a e (put_back_counted n z q d b pos p) =
      put_back_counted n (e ∙ z) q d b pos (At-Same a p)

  module _ (l0 : Spokes) (v0 : IsWheel s0 l0) {s : State} {l : Spokes} (v : IsWheel s l)
      (same : shape s.stw ≡ shape s0.stw) where
    index : s.stw.spoke_index ≡ i
    index = ap (λ w. w.spoke_index) same

    spoke-eq : asked (s.mem t) ≡ c → spoke_of s (s.mem t).periodic_delay ≡ new_spoke
    spoke-eq w =
        ap (λ x. spoke_of s x.periodic_delay) w ∙ place-shape s.stw s0.stw c.periodic_delay same

    turns-eq : asked (s.mem t) ≡ c → turns_of s (s.mem t).periodic_delay ≡ new_turns
    turns-eq w =
        ap (λ x. turns_of s x.periodic_delay) w
        ∙ ap (λ w. ticks_of w.granularity c.periodic_delay / w.wheel_size) same

    period-eq : asked (s.mem t) ≡ c → (s.mem t).periodic_delay ≡ c.periodic_delay
    period-eq w = ap (λ x. x.periodic_delay) w

    called-eq :
        asked (s.mem t) ≡ c
        → calls_of t s.calls ≡ cs
        → calls_of t s.calls ++ call_of t (s.mem t) ≡ called
    called-eq w m = ap (λ u. u ++ call_of t (s.mem t)) m ∙ ap (λ x. cs ++ call_of t x) w

    -- The timer is met: at first with its rotations, and once more if it was put back.
    module _ (before rest todo : List ℕ) (on : 0 < count t (l s.stw.spoke_index))
        (whole : visited t s l s.stw.spoke_index ≡ before ++ todo)
        (own : (count t todo ≡ 0) ⊎ ((s.mem t).rotation_count ≡ 0)) where
      left_behind : (s.mem t).rotation_count ≢ 0 → count t todo ≡ 0
      left_behind ne = elim own [ inl z ↦ z | inr e ↦ absurd (ne e) ]

      met_waiting : j ≡ i → At t s l j r c cs → Phase (visit t s) (visited t s l) todo
      met_waiting n p = elim (own_lem t s l v s.stw.spoke_index on) [
        | counts_down ne a ↦
            counted n (left_behind ne) (λ e. ne (p.left ∙ e))
              (At-eq a (index ∙ sym n) (ap (λ u. u - 1) p.left) p.wants p.made)
        | is_done e z a ↦
            let o = a.off s.stw.spoke_index in
            let w = ap (count t) whole in
            let k : count t todo ≡ 0 = omega (arith, count-append t before todo) in
            fired n k (sym p.left ∙ e) (sym (period-eq p.wants) ∙ z) (record {
              off = a.off;
              null_next = a.null_next;
              made = a.made ∙ called-eq p.wants p.made;
            })
        | is_back e lt a ↦
            let d = period-eq p.wants in
            put_back n (sym p.left ∙ e) (omega arith)
              (At-eq a (spoke-eq p.wants) (turns-eq p.wants) p.wants (called-eq p.wants p.made))
      ]

      met_put_back :
          j ≡ i
          → r ≡ 0
          → 0 < c.periodic_delay
          → At t s l new_spoke new_turns c called
          → Phase (visit t s) (visited t s l) todo
      met_put_back n z lt p =
          let b : new_spoke ≡ i = v.rings.apart new_spoke s.stw.spoke_index t p.on on ∙ index in
          let pos = turns_pos s0 c.periodic_delay v0.index_lt v0.size_fits v0.grain b in
          elim (own_lem t s l v s.stw.spoke_index on) [
            | counts_down ne a ↦
                put_back_counted n (left_behind ne) z lt b pos
                  (At-eq a index (ap (λ u. u - 1) p.left) p.wants p.made)
            | is_done e _ _ ↦ absurd (omega (arith, p.left))
            | is_back e _ _ ↦ absurd (omega (arith, p.left))
          ]

      Phase-own : Phase s l (t ∷ rest) → Phase (visit t s) (visited t s l) todo
      Phase-own (elsewhere n z p) = absurd (omega (arith, count_self t rest))
      Phase-own (waiting n z p) = met_waiting n p
      Phase-own (counted n z ne p) = absurd (omega (arith, count_self t rest))
      Phase-own (fired n z q d p) = absurd (omega (arith, count_self t rest))
      Phase-own (put_back n q d p) = met_put_back n q d p
      Phase-own (put_back_counted n z q d b pos p) = absurd (omega (arith, count_self t rest))

    -- A step of the loop.
    pub Phase-step :
        (x : ℕ) (done rest : List ℕ) (at : l s.stw.spoke_index ≡ done ++ x ∷ rest)
        → IsTimer s0.stw.spokes s0.stw.wheel_size t
        → (r : Rest x s l v done rest at) → Phase s l (x ∷ rest)
        → Phase (visit x s) (visited x s l) r.todo
    Phase-step x done rest at new q p = elim (ℕ_discrete t x) [
      | yes e ↦
          subst
            (λ y.
              0 < count y (l s.stw.spoke_index)
              → visited y s l s.stw.spoke_index ≡ q.before ++ q.todo
              → (count y q.todo ≡ 0) ⊎ ((s.mem y).rotation_count ≡ 0)
              → Phase s l (y ∷ rest)
              → Phase (visit y s) (visited y s l) q.todo)
            e (λ on w o p. Phase-own q.before rest q.todo on w o p) (here_on x s l v done rest at)
            q.whole q.own p
      | no ne ↦
          let ne' : x ≢ t = λ e. ne (sym e) in
          let new' = subst (λ w. IsTimer w.spokes w.wheel_size t) (sym same) new in
          Phase-other (x ∷ rest) q.todo
            (visit-Same x s l v s.stw.spoke_index (here_on x s l v done rest at) t new' ne')
            (q.others t ne' ∙ sym (count-other t x rest ne')) p
    ]
