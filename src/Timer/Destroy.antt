-- ===== src/Timer/Destroy.antt =====
-- A timer wheel destroyed (`stw_timer_destroy` of src/timer/base_timer.c): every timer is stopped.
use basearch.Prelude.{
  ℕ, zero, suc, ◌+◌, ◌≤◌, ◌<◌, ◌≡◌, ◌≢◌, refl, sym, ap, ◌∙◌, inl, inr, true, false, Option, none,
  some, List, [], ◌∷◌, length, arith, subst, ◌==◌, ==_iff, eq_false_of_ne, if◌then◌else◌,
}
use native.Mathlib.Decide.{ℕ_discrete}
use basearch.Timer.{
  Store, State, Rc, ok, null_wheel, invalid_wheel, magic, stw_timer_stop, stop_checked,
  stw_timer_running,
}
use basearch.Timer.Store.{count, count_nil, count_self}
use basearch.Timer.Links.{first_of, Seg-first}
use basearch.Timer.Rings.{Spokes, IsTimer, put-same}
use basearch.Timer.Lists.{
  total, total-without, without, without_cut, count-without_self, count-without_other,
}
use basearch.Timer.Invariant.{IsWheel, Placed, shape}
use basearch.Timer.Stop.{stop_lem, stop-Same, stop_next, stop-shape, not_running}
use basearch.Timer.Follow.{length-le-total}

-- `while ((stw_links_t *)tmr != spoke)`: the first timer is stopped. `none` is the end of the fuel.
unfoldable pub stop_spoke : ℕ → ℕ → ℕ → State → Option State
stop_spoke zero stw spoke s = none
stop_spoke (suc fuel) stw spoke s = elim ((s.mem spoke).next == spoke) [
  | true ↦ some s
  | false ↦ stop_spoke fuel stw spoke (stw_timer_stop stw (s.mem spoke).next s).1
]

-- `for (j = 0; j < stw->wheel_size; j++)`, by the spokes that are left.
unfoldable pub stop_spokes : ℕ → ℕ → ℕ → ℕ → State → Option State
stop_spokes fuel zero j stw s = some s
stop_spokes fuel (suc n) j stw s = elim (stop_spoke fuel stw (s.stw.spokes + j) s) [
  | none ↦ none
  | some s' ↦ stop_spokes fuel n (j + 1) stw s'
]

-- What a call does: it refuses the wheel, or it returns RC_STW_OK and leaves a memory without the
-- wheel, which was freed with a tag; the list is what is freed, in this order.
pub data Destroyed : Type 0 where
  refused : Rc → Destroyed
  destroyed : (tag : ℕ) → Store → List ℕ → Destroyed

unfoldable pub stw_timer_destroy : ℕ → ℕ → State → Option Destroyed
stw_timer_destroy fuel stw s =
    if stw == 0
    then some (refused null_wheel)
    else if (s.stw.magic_tag == magic)
    then elim (stop_spokes fuel s.stw.wheel_size 0 stw s) [
      | none ↦ none
      | some s' ↦
          let t = record s' { stw = record s'.stw { magic_tag = 0 } } in
          some (destroyed t.stw.magic_tag t.mem (t.stw.spokes ∷ stw ∷ []))
    ]
    else some (refused invalid_wheel)

-- A wheel with no more timers than before, where no timer is lost.
pub record Emptier (s s' : State) (l l' : Spokes) : Type 0 where
  pub valid : IsWheel s' l'
  pub shaped : shape s'.stw ≡ shape s.stw
  pub fewer : (k u : ℕ) → count u (l' k) ≤ count u (l k)
  pub places : (u : ℕ) → IsTimer s.stw.spokes s.stw.wheel_size u → Placed u s l → Placed u s' l'
  pub shorter : total s.stw.wheel_size l' ≤ total s.stw.wheel_size l

Emptier-trans :
    {s s' s'' : State} {l l' l'' : Spokes}
    → Emptier s s' l l'
    → Emptier s' s'' l' l''
    → Emptier s s'' l l''
Emptier-trans {s} {s'} {l' = l'} {l'' = l''} a b =
    let n : s'.stw.wheel_size ≡ s.stw.wheel_size = ap (λ w. w.wheel_size) a.shaped in
    record {
      valid = b.valid;
      shaped = b.shaped ∙ a.shaped;
      fewer = λ k u. omega (arith, a.fewer k u, b.fewer k u);
      places = λ u new p.
          b.places u (subst (λ w. IsTimer w.spokes w.wheel_size u) (sym a.shaped) new)
            (a.places u new p);
      shorter =
          let c = subst (λ x. total x l'' ≤ total x l') n b.shorter in omega (arith, a.shorter);
    }

without_fewer : (t u k : ℕ) (l : Spokes) → count u (without t l k) ≤ count u (l k)
without_fewer t u k l = elim (ℕ_discrete t u) [
  | yes e ↦ rw e (omega (arith, count-without_self u k l))
  | no ne ↦ omega (arith, count-without_other t u k l ne)
]

-- One timer stopped.
one_stopped :
    (t : ℕ) (s : State) (l : Spokes) (j : ℕ)
    → IsWheel s l
    → 0 < count t (l j)
    → Emptier s (stop_checked t s) l (without t l)
one_stopped t s l j v on =
    let new : IsTimer s.stw.spokes s.stw.wheel_size t = record {
      outer = λ k lt. v.rings.outer j t k on lt;
      nonnull = v.rings.nonnull j t on;
    } in
    let (_, w, _) = stop_lem 1 t s l (λ e. absurd (omega arith)) new (inl (j, on)) v in
    record {
      valid = w;
      shaped = stop-shape t s;
      fewer = λ k u. without_fewer t u k l;
      shorter = omega (arith, total-without v.rings j t on);
      places = λ u other p. elim (ℕ_discrete t u) [
        | yes e ↦
            subst (λ x. Placed x (stop_checked t s) (without t l)) e
              (inr (stop_next s l t v (inl (j, on)), λ k. count-without_self t k l))
        | no ne ↦
            let a = stop-Same s l t v u (inl (j, on)) other ne in
            elim p [
              | inl (i, c) ↦ inl (i, let e = a.place i in omega arith)
              | inr (z, o) ↦ inr (a.idle z o, λ k. a.place k ∙ o k)
            ]
      ];
    }

stop_spoke-end :
    (fuel stw spoke : ℕ) (s : State)
    → (s.mem spoke).next ≡ spoke
    → stop_spoke (suc fuel) stw spoke s ≡ some s
unfolding stop_spoke
stop_spoke-end fuel stw spoke s e =
    let q : ((s.mem spoke).next == spoke) ≡ true = (==_iff _ _).1 e in rw (stop_spoke, q)

stop_spoke-next :
    (fuel stw spoke t : ℕ) (s s' : State)
    → (s.mem spoke).next ≡ t
    → t ≢ spoke
    → stw_timer_stop stw t s ≡ (ok, s')
    → stop_spoke (suc fuel) stw spoke s ≡ stop_spoke fuel stw spoke s'
unfolding stop_spoke
stop_spoke-next fuel stw spoke t s s' e ne run =
    let q : ((s.mem spoke).next == spoke) ≡ false = eq_false_of_ne _ _ (λ x. ne (sym e ∙ x)) in
    let r = ap (λ u. (stw_timer_stop stw u s).1) e ∙ ap (λ p. p.1) run in
    rw (stop_spoke, q) (ap (stop_spoke fuel stw spoke) r)

module _ (stw : ℕ) (ne : stw ≢ 0) where
  -- One spoke is emptied.
  spoke_emptied :
      (fuel j : ℕ) (s : State) (l : Spokes) (xs : List ℕ)
      → IsWheel s l
      → j < s.stw.wheel_size
      → l j ≡ xs
      → length xs < fuel
      → (s' : State) × (l' : Spokes) × (stop_spoke fuel stw (s.stw.spokes + j) s ≡ some s')
        × Emptier s s' l l'
        × (l' j ≡ [])
  spoke_emptied zero j s l xs v lt e enough = absurd (omega arith)
  spoke_emptied (suc fuel) j s l [] v lt e enough =
      let first = Seg-first (v.rings.ring j lt) ∙ ap (λ u. first_of u (s.stw.spokes + j)) e in
      (
        s,
        l,
        stop_spoke-end fuel stw (s.stw.spokes + j) s first,
        record {
          valid = v;
          shaped = refl;
          fewer = λ k u. omega arith;
          places = λ u new p. p;
          shorter = omega arith;
        },
        e,
      )
  spoke_emptied (suc fuel) j s l (x ∷ xs) v lt e enough =
      let h = s.stw.spokes + j in
      let first = Seg-first (v.rings.ring j lt) ∙ ap (λ u. first_of u h) e in
      let on : 0 < count x (l j) = rw e (omega (arith, count_self x xs)) in
      let new : IsTimer s.stw.spokes s.stw.wheel_size x = record {
        outer = λ k lt. v.rings.outer j x k on lt;
        nonnull = v.rings.nonnull j x on;
      } in
      let (run, _, _) = stop_lem stw x s l ne new (inl (j, on)) v in
      let one = one_stopped x s l j v on in
      let rest : without x l j ≡ xs =
        ap (λ k. k j) (without_cut v.rings j x [] xs e) ∙ put-same j j xs l refl in
      let sp = ap (λ w. w.spokes + j) one.shaped in
      let n = ap (λ w. w.wheel_size) one.shaped in
      let (s', l', r, more, z) =
        spoke_emptied fuel j (stop_checked x s) (without x l) xs one.valid (omega arith) rest
          (omega arith) in
      (
        s',
        l',
        stop_spoke-next fuel stw h x s (stop_checked x s) first (v.rings.outer j x j on lt) run
            ∙ ap (λ u. stop_spoke fuel stw u (stop_checked x s)) (sym sp)
            ∙ r,
        Emptier-trans one more,
        z,
      )

  -- The spokes from `j` on are emptied.
  spokes_emptied :
      (fuel n j : ℕ) (s : State) (l : Spokes)
      → IsWheel s l
      → j + n ≡ s.stw.wheel_size
      → total s.stw.wheel_size l < fuel
      → ((k u : ℕ) → k < j → count u (l k) ≡ 0)
      → (s' : State) × (l' : Spokes) × (stop_spokes fuel n j stw s ≡ some s')
        × Emptier s s' l l'
        × ((k u : ℕ) → count u (l' k) ≡ 0)
  unfolding stop_spokes
  spokes_emptied fuel zero j s l v e enough done = (
    s,
    l,
    refl,
    record {
      valid = v;
      shaped = refl;
      fewer = λ k u. omega arith;
      places = λ u new p. p;
      shorter = omega arith;
    },
    λ k u. elim (ℕ_discrete (count u (l k)) 0) [
      | yes z ↦ z
      | no nz ↦ let lt = v.rings.within k u (omega arith) in absurd (nz (done k u (omega arith)))
    ],
  )
  spokes_emptied fuel (suc n) j s l v e enough done =
      let le = length-le-total s.stw.wheel_size j l (omega arith) in
      let (s1, l1, r1, a, z) = spoke_emptied fuel j s l (l j) v (omega arith) refl (omega arith) in
      let size = ap (λ w. w.wheel_size) a.shaped in
      let small = subst (λ x. total x l1 < fuel) (sym size) (omega (arith, a.shorter)) in
      let (s2, l2, r2, b, all) =
        spokes_emptied fuel n (j + 1) s1 l1 a.valid (omega arith) small (λ k u lt.
          elim (ℕ_discrete k j) [
            | yes q ↦ ap (λ i. count u (l1 i)) q ∙ ap (count u) z ∙ count_nil u
            | no nq ↦ omega (arith, a.fewer k u, done k u (omega arith))
          ]) in
      (s2, l2, rw (stop_spokes, r1) r2, Emptier-trans a b, all)

idle_next :
    (u : ℕ) (s : State) (l : Spokes)
    → ((k : ℕ) → count u (l k) ≡ 0)
    → Placed u s l
    → (s.mem u).next ≡ 0
idle_next u s l z (inl (j, on)) = let e = z j in absurd (omega arith)
idle_next u s l z (inr (e, o)) = e

-- A wheel is destroyed with fuel for the timers on its spokes: the call ends and returns RC_STW_OK,
-- no timer that was on a spoke, or was prepared and on none, runs afterwards, and the spokes are
-- freed and then the wheel, without its tag.
pub destroy_lem :
    (fuel stw u : ℕ) (s : State) (l : Spokes)
    → stw ≢ 0
    → total s.stw.wheel_size l < fuel
    → IsTimer s.stw.spokes s.stw.wheel_size u
    → Placed u s l
    → IsWheel s l
    → (m : Store) × (stw_timer_destroy fuel stw s ≡ some (destroyed 0 m (s.stw.spokes ∷ stw ∷ [])))
      × (stw_timer_running u m ≡ false)
unfolding stw_timer_destroy
destroy_lem fuel stw u s l ne enough new p v =
    let (t, k, r, a, z) =
      spokes_emptied stw ne fuel s.stw.wheel_size 0 s l v (omega arith) enough
        (λ k u lt. absurd (omega arith)) in
    let q : (stw == 0) ≡ false = eq_false_of_ne _ _ ne in
    let m : (s.stw.magic_tag == magic) ≡ true = (==_iff _ _).1 v.tagged in
    let sp : t.stw.spokes ≡ s.stw.spokes = ap (λ w. w.spokes) a.shaped in
    (
      t.mem,
      rw (stw_timer_destroy, q, m, r) (ap (λ x. some (destroyed 0 t.mem (x ∷ stw ∷ []))) sp),
      not_running u t.mem (idle_next u t k (λ i. z i u) (a.places u new p)),
    )
