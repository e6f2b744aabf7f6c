-- ===== src/Timer/Enqueue.antt =====
-- Where `tmr_enqueue_unlocked` of src/timer/base_timer.c puts a timer, and when it is due there.
use basearch.Prelude.{
  ℕ, ◌+◌, ◌-◌, ◌*◌, ◌/◌, ◌%◌, ◌^◌, ◌≤◌, ◌<◌, ◌≡◌, ◌≢◌, refl, sym, ap, ◌∙◌, inl, inr, ◌⊎◌, true,
  false, ◌∷◌, arith, ltb, ltb→ge, ltb→lt, Bool-cases, lt→ltb, if◌then◌else◌, subst, ◌==◌, ==_iff,
  eq_false_of_ne,
}
use native.Mathlib.Nat.{mod-lt, mod-eq_of_lt, mod-eq-sub-mod, div-add-mod'}
use native.Mathlib.Decide.{ℕ_discrete}
use basearch.Timer.{
  Store, State, cursor_of, ticks_of, set_rotation, append_links, tmr_enqueue_unlocked,
}
use basearch.Timer.Store.{
  count, count-other, job, asked, next-set_rotation, prev-set_rotation, set_rotation-other,
  write-same, job-set_next, job-set_prev,
}
use basearch.Timer.Links.{Seg-last, count-last, last_of}
use basearch.Timer.Splice.{Joined, append_links-Joined, uncounted}
use basearch.Timer.Rings.{Spokes, Rings, IsTimer}
use basearch.Timer.Lists.{add, add-Rings, count-add_other}
use basearch.Timer.Invariant.{due, Same, ticks_of_pos}

module _ (n i t : ℕ) (index : i < n) (fits : n ≤ 2 ^ 31) where
  sum_fits : (i + t % n) % 2 ^ 32 ≡ i + t % n
  sum_fits = let lt : t % n < n = mod-lt t (omega arith) in omega arith

  spoke_lem :
      ((i + t % n < n) × ((i + t % n) % 2 ^ 32 % n ≡ i + t % n))
      ⊎ ((n ≤ i + t % n) × ((i + t % n) % 2 ^ 32 % n ≡ i + t % n - n))
  spoke_lem =
      let lt : t % n < n = mod-lt t (omega arith) in
      let f = sum_fits in
      elim (Bool-cases (ltb (i + t % n) n)) [
        | inl e ↦
            let k : i + t % n < n = ltb→lt _ _ e in inl (k, ap (λ x. x % n) f ∙ mod-eq_of_lt k)
        | inr e ↦
            let k : n ≤ i + t % n = ltb→ge _ _ e in
            let below : i + t % n - n < n = omega arith in
            inr (k, ap (λ x. x % n) f ∙ mod-eq-sub-mod k ∙ mod-eq_of_lt below)
      ]

  -- Off a whole number of turns, the timer is due after its ticks.
  due_part : t % n ≢ 0 → due n i ((i + t % n) % 2 ^ 32 % n) (t / n) ≡ t
  due_part ne =
      let lt : t % n < n = mod-lt t (omega arith) in
      let whole = div-add-mod' t n in
      elim spoke_lem [
        | inl (k, c) ↦
            let q : ltb i (i + t % n) ≡ true = lt→ltb _ _ (omega arith) in rw c (rw q (omega arith))
        | inr (k, c) ↦
            let q : ltb i (i + t % n - n) ≡ false = ground arith in rw c (rw q (omega arith))
      ]

  -- For whole turns of the wheel, it is due one turn later than that.
  due_turns : t % n ≡ 0 → due n i ((i + t % n) % 2 ^ 32 % n) (t / n) ≡ t + n
  due_turns z =
      let whole = div-add-mod' t n in
      elim spoke_lem [
        | inl (k, c) ↦ let q : ltb i (i + t % n) ≡ false = ground arith in rw c (rw q (omega arith))
        | inr (k, c) ↦ absurd (omega arith)
      ]

job-append_links : (h t u : ℕ) (m : Store) → job (append_links h t m u) ≡ job (m u)
unfolding append_links
job-append_links h t u m =
    job-set_prev h t u _ ∙ job-set_next _ t u _ ∙ job-set_prev t _ u _ ∙ job-set_next t h u m

-- The spoke, and the rotations, that a timer of a delay gets.
abbrev pub spoke_of : State → ℕ → ℕ
spoke_of s d = cursor_of s.stw (ticks_of s.stw.granularity d)

abbrev pub turns_of : State → ℕ → ℕ
turns_of s d = ticks_of s.stw.granularity d / s.stw.wheel_size

module _ (s : State) (t d : ℕ) where
  pub spoke_lt : s.stw.spoke_index < s.stw.wheel_size → (spoke_of s d) < s.stw.wheel_size
  unfolding cursor_of
  spoke_lt lt = mod-lt _ (omega arith)

  -- A delay of whole turns of the wheel is due a turn late, any other on time.
  pub due_new :
      s.stw.spoke_index < s.stw.wheel_size
      → s.stw.wheel_size ≤ 2 ^ 31
      → due s.stw.wheel_size s.stw.spoke_index (spoke_of s d) (turns_of s d) ≡ (
          if ticks_of s.stw.granularity d % s.stw.wheel_size == 0
          then ticks_of s.stw.granularity d + s.stw.wheel_size
          else ticks_of s.stw.granularity d)
  unfolding cursor_of
  due_new lt fits =
      let n = s.stw.wheel_size in
      let k = ticks_of s.stw.granularity d in
      elim (ℕ_discrete (k % n) 0) [
        | yes e ↦
            let q : (k % n == 0) ≡ true = (==_iff _ _).1 e in
            rw q (due_turns n s.stw.spoke_index k lt fits e)
        | no ne ↦
            let q : (k % n == 0) ≡ false = eq_false_of_ne _ _ ne in
            rw q (due_part n s.stw.spoke_index k lt fits ne)
      ]

  abbrev turned : Store
  turned = set_rotation t (turns_of s d) s.mem

  abbrev spoke_at : ℕ
  spoke_at = s.stw.spokes + (spoke_of s d)

  module _ {l : Spokes} (r : Rings s.mem s.stw.spokes s.stw.wheel_size l)
      (lt : s.stw.spoke_index < s.stw.wheel_size) (new : IsTimer s.stw.spokes s.stw.wheel_size t)
      (out : (k : ℕ) → count t (l k) ≡ 0) where
    head_ne : spoke_at ≢ t
    head_ne e = new.outer (spoke_of s d) (spoke_lt lt) (sym e)

    last_ne : (s.mem spoke_at).prev ≢ t
    last_ne e =
        let p = Seg-last (r.ring (spoke_of s d) (spoke_lt lt)) in
        let z = count-other t spoke_at (l (spoke_of s d)) head_ne ∙ out (spoke_of s d) in
        uncounted t (last_of spoke_at (l (spoke_of s d))) (spoke_at ∷ l (spoke_of s d))
          (count-last spoke_at (l (spoke_of s d))) z (sym p ∙ e)

    enqueue-Joined : Joined s.mem (tmr_enqueue_unlocked s t d).mem t (s.mem spoke_at).prev spoke_at
    unfolding tmr_enqueue_unlocked
    enqueue-Joined =
        let m = turned in
        let p = prev-set_rotation t (turns_of s d) spoke_at s.mem in
        let j0 = append_links-Joined spoke_at t m head_ne (λ e. last_ne (sym p ∙ e)) in
        let j = subst (λ x. Joined m (append_links spoke_at t m) t x spoke_at) p j0 in
        record {
          next_new = j.next_new;
          prev_new = j.prev_new;
          next_at = j.next_at;
          prev_at = j.prev_at;
          next_off = λ y a b. j.next_off y a b ∙ next-set_rotation t (turns_of s d) y s.mem;
          prev_off = λ y a b. j.prev_off y a b ∙ prev-set_rotation t (turns_of s d) y s.mem;
        }

    -- The timer is at the end of its spoke.
    pub enqueue-Rings :
        Rings
          (tmr_enqueue_unlocked s t d).mem
          s.stw.spokes
          s.stw.wheel_size
          (add (spoke_of s d) t l)
    enqueue-Rings =
        add-Rings s.mem (tmr_enqueue_unlocked s t d).mem s.stw.spokes s.stw.wheel_size l
          (spoke_of s d) t r (spoke_lt lt) new out enqueue-Joined

    -- Another timer is where it was.
    pub enqueue-Same :
        (u : ℕ)
        → t ≢ u
        → IsTimer s.stw.spokes s.stw.wheel_size u
        → Same u s (tmr_enqueue_unlocked s t d) l (add (spoke_of s d) t l)
    unfolding tmr_enqueue_unlocked
    enqueue-Same u ne other = record {
      kept =
          job-append_links spoke_at t u turned
          ∙ ap job (set_rotation-other t (turns_of s d) u s.mem ne);
      called = refl;
      place = λ k. count-add_other (spoke_of s d) t u k l ne;
      idle = λ z o.
          let p = Seg-last (r.ring (spoke_of s d) (spoke_lt lt)) in
          enqueue-Joined.next_off u
            (λ e.
              uncounted u (last_of spoke_at (l (spoke_of s d))) (spoke_at ∷ l (spoke_of s d))
                (count-last spoke_at (l (spoke_of s d)))
                (count-other u spoke_at (l (spoke_of s d))
                    (λ x. other.outer (spoke_of s d) (spoke_lt lt) (sym x))
                  ∙ o (spoke_of s d))
                (sym (e ∙ p)))
            (λ e. ne (sym e))
          ∙ z;
    }

  -- Of the timer itself, all but the rotations and links is as it was.
  pub enqueue-rotation : ((tmr_enqueue_unlocked s t d).mem t).rotation_count ≡ (turns_of s d)
  unfolding tmr_enqueue_unlocked set_rotation
  enqueue-rotation =
      ap (λ c. c.rotation_count) (job-append_links spoke_at t t turned)
      ∙ ap (λ c. c.rotation_count) (write-same t _ t s.mem refl)

  pub enqueue-asked : asked ((tmr_enqueue_unlocked s t d).mem t) ≡ asked (s.mem t)
  unfolding tmr_enqueue_unlocked set_rotation
  enqueue-asked =
      ap asked (job-append_links spoke_at t t turned) ∙ ap asked (write-same t _ t s.mem refl)

-- A timer that gets the spoke where the wheel stands waits whole turns, and at least one.
pub whole_turns :
    (s : State) (d : ℕ)
    → s.stw.spoke_index < s.stw.wheel_size
    → s.stw.wheel_size ≤ 2 ^ 31
    → spoke_of s d ≡ s.stw.spoke_index
    → ticks_of s.stw.granularity d % s.stw.wheel_size ≡ 0
unfolding cursor_of
whole_turns s d lt fits e =
    let n = s.stw.wheel_size in
    let i = s.stw.spoke_index in
    let k = ticks_of s.stw.granularity d in
    let below : k % n < n = mod-lt k (omega arith) in
    elim (spoke_lem n i k lt fits) [
      | inl (_, c) ↦ let f : i + k % n ≡ i = sym c ∙ e in omega arith
      | inr (over, c) ↦ let f : i + k % n - n ≡ i = sym c ∙ e in omega arith
    ]

pub turns_pos :
    (s : State) (d : ℕ)
    → s.stw.spoke_index < s.stw.wheel_size
    → s.stw.wheel_size ≤ 2 ^ 31
    → 0 < s.stw.granularity
    → spoke_of s d ≡ s.stw.spoke_index
    → 0 < turns_of s d
turns_pos s d lt fits g e =
    let n = s.stw.wheel_size in
    let k = ticks_of s.stw.granularity d in
    let pos = ticks_of_pos s.stw.granularity d g in
    let whole = div-add-mod' k n in
    let z : k % n ≡ 0 = whole_turns s d lt fits e in
    elim (ℕ_discrete (k / n) 0) [
      | no ne ↦ omega arith
      | yes q ↦
          let w : 0 * n + k % n ≡ k = subst (λ t. t * n + k % n ≡ k) q whole in absurd (omega arith)
    ]
