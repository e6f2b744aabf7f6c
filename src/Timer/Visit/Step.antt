-- ===== src/Timer/Visit/Step.antt =====
-- What is left of the loop of `stw_timer_tick` (src/timer/base_timer.c) after one timer: the
-- timers behind it, and the timer itself where it is put back on the spoke behind others.
use basearch.Prelude.{
  ℕ, suc, ◌+◌, ◌/◌, true, false, ◌<◌, ◌≡◌, ◌≢◌, refl, sym, ap, ◌∙◌, inl, inr, ◌⊎◌, List, [], ◌∷◌,
  ◌++◌, append-nil, append_assoc, arith, ◌==◌, if◌then◌else◌, ==_iff, eq_false_of_ne,
}
use native.Mathlib.Decide.{ℕ_discrete}
use basearch.Timer.{Store, State, ticks_of, visit, tmr_enqueue_unlocked}
use basearch.Timer.Store.{count, count_nil, count_self, count-other, count-cons-le, count-append}
use basearch.Timer.Links.{first_of}
use basearch.Timer.Rings.{Spokes, IsTimer, put-same}
use basearch.Timer.Lists.{without, add, add_here, add_there, without_cut}
use basearch.Timer.Invariant.{IsWheel}
use basearch.Timer.Enqueue.{spoke_of, turns_of, enqueue-rotation, turns_pos}
use basearch.Timer.Visit.{visited, expired, back}
use basearch.Timer.Visit.Keeps.{visit_rule, visit-Same, expired-shape}

-- How much of the loop a list of timers can still cause: a timer that fires may be met once more.
unfoldable pub weight : Store → List ℕ → ℕ
weight m [] = 0
weight m (x ∷ xs) = (if (m x).rotation_count == 0 then 2 else 1) + weight m xs

weight-frame :
    (m m' : Store) (xs : List ℕ)
    → ((y : ℕ) → 0 < count y xs → (m' y).rotation_count ≡ (m y).rotation_count)
    → weight m' xs ≡ weight m xs
unfolding weight
weight-frame m m' [] h = refl
weight-frame m m' (x ∷ xs) h =
    let e = h x (omega (arith, count_self x xs)) in
    let ih = weight-frame m m' xs (λ y c. h y (omega (arith, count-cons-le y x xs))) in rw (e, ih)

weight-append : (m : Store) (xs ys : List ℕ) → weight m (xs ++ ys) ≡ weight m xs + weight m ys
unfolding weight
weight-append m [] ys = omega arith
weight-append m (x ∷ xs) ys = omega (arith, weight-append m xs ys)

weight-one : (m : Store) (x : ℕ) → 0 < (m x).rotation_count → weight m (x ∷ []) ≡ 1
unfolding weight
weight-one m x lt =
    let q : ((m x).rotation_count == 0) ≡ false = eq_false_of_ne _ _ (λ e. absurd (omega arith)) in
    rw q

weight-two :
    (m : Store) (x : ℕ) (xs : List ℕ)
    → (m x).rotation_count ≡ 0
    → weight m (x ∷ xs) ≡ 2 + weight m xs
unfolding weight
weight-two m x xs z = let q : ((m x).rotation_count == 0) ≡ true = (==_iff _ _).1 z in rw q

weight_pos : (m : Store) (x : ℕ) (xs : List ℕ) → weight m xs < weight m (x ∷ xs)
unfolding weight
weight_pos m x xs = ground arith

-- The spoke `i` after the timer `x` in front of `rest` was met.
pub data Left (i x : ℕ) (rest : List ℕ) (s t : State) (k : Spokes) : Type 0 where
  passed : (done : List ℕ) → k i ≡ done ++ rest → Left i x rest s t k
  behind :
      (done : List ℕ) (y : ℕ) (ys : List ℕ)
      → rest ≡ y ∷ ys
      → k i ≡ done ++ (rest ++ x ∷ [])
      → (s.mem x).rotation_count ≡ 0
      → 0 < (t.mem x).rotation_count
      → Left i x rest s t k

put_back :
    (i x : ℕ) (done rest : List ℕ) (s t : State) (k : Spokes)
    → k i ≡ (done ++ rest) ++ x ∷ []
    → (s.mem x).rotation_count ≡ 0
    → 0 < (t.mem x).rotation_count
    → Left i x rest s t k
put_back i x done [] s t k e a b = passed ((done ++ []) ++ x ∷ []) (e ∙ sym (append-nil _))
put_back i x done (y ∷ ys) s t k e a b =
    behind done y ys refl (e ∙ append_assoc done (y ∷ ys) (x ∷ [])) a b

module _ (x : ℕ) (s : State) (l : Spokes) (v : IsWheel s l) (done rest : List ℕ)
    (at : l s.stw.spoke_index ≡ done ++ x ∷ rest) where
  abbrev i : ℕ
  i = s.stw.spoke_index

  pub here_on : 0 < count x (l i)
  here_on = rw at (omega (arith, count-append x done (x ∷ rest), count_self x rest))

  pub rest_out : count x rest ≡ 0
  rest_out =
      let c : count x (l i) ≡ count x done + suc (count x rest) =
        ap (count x) at ∙ omega (arith, count-append x done (x ∷ rest), count_self x rest) in
      omega (arith, v.rings.once i x)

  cut_here : without x l i ≡ done ++ rest
  cut_here =
      ap (λ k. k i) (without_cut v.rings i x done rest at) ∙ put-same i i (done ++ rest) l refl

  pub left_lem : Left i x rest s (visit x s) (visited x s l)
  unfolding tmr_enqueue_unlocked
  left_lem =
      visit_rule x s l v i here_on (λ t k. Left i x rest s t k)
        (λ ne. passed (done ++ x ∷ []) (at ∙ sym (append_assoc done (x ∷ []) rest)))
        (λ e z. passed done cut_here)
        (λ e lt.
          let d = (s.mem x).periodic_delay in
          let c = spoke_of s d in
          elim (ℕ_discrete i c) [
            | no ne ↦ passed done (add_there c x i (without x l) ne ∙ cut_here)
            | yes q ↦
                let w : add c x (without x l) i ≡ (done ++ rest) ++ x ∷ [] =
                  ap (add c x (without x l)) q
                  ∙ add_here c x (without x l)
                  ∙ ap (λ j. without x l j ++ x ∷ []) (sym q)
                  ∙ ap (λ u. u ++ x ∷ []) cut_here in
                let turns : turns_of (expired x s) d ≡ turns_of s d =
                  ap (λ w. ticks_of w.granularity d / w.wheel_size)
                    (expired-shape x s l v i here_on) in
                let r : ((back x s).mem x).rotation_count ≡ turns_of s d =
                  enqueue-rotation (expired x s) x d ∙ turns in
                let p = turns_pos s d v.index_lt v.size_fits v.grain (sym q) in
                put_back i x done rest s _ _ w e (rw r p)
          ])

  -- Another timer of the list keeps its rotations.
  rest_frame : weight (visit x s).mem rest ≡ weight s.mem rest
  rest_frame = weight-frame s.mem (visit x s).mem rest (λ y c.
      let cy : 0 < count y (l i) =
        rw at (omega (arith, count-append y done (x ∷ rest), count-cons-le y x rest)) in
      let other : IsTimer s.stw.spokes s.stw.wheel_size y = record {
        outer = λ k lt. v.rings.outer i y k cy lt;
        nonnull = v.rings.nonnull i y cy;
      } in
      let ne : x ≢ y =
        λ e. let c' : 0 < count x rest = rw e c in absurd (omega (arith, rest_out)) in
      ap (λ c. c.rotation_count) (visit-Same x s l v i here_on y other ne).kept)

  -- The list of the loop after `x`: what it is, and that less is left to do.
  pub record Rest : Type 0 where
    pub before : List ℕ
    pub todo : List ℕ
    pub whole : visited x s l i ≡ before ++ todo
    pub first : (h : ℕ) → first_of todo h ≡ first_of rest h
    pub others : (u : ℕ) → x ≢ u → count u todo ≡ count u rest
    pub own : (count x todo ≡ 0) ⊎ ((s.mem x).rotation_count ≡ 0)
    pub lighter : weight (visit x s).mem todo < weight s.mem (x ∷ rest)

  pub rest_lem : Rest
  rest_lem = elim left_lem [
    | passed before whole ↦ record {
      before = before;
      todo = rest;
      whole = whole;
      first = λ h. refl;
      others = λ u ne. refl;
      own = inl rest_out;
      lighter = omega (arith, rest_frame, weight_pos s.mem x rest);
    }
    | behind before y ys e whole z turns ↦ record {
      before = before;
      todo = rest ++ x ∷ [];
      whole = whole;
      first = λ h. ap (λ u. first_of (u ++ x ∷ []) h) e ∙ sym (ap (λ u. first_of u h) e);
      others =
          λ u ne. omega (arith, count-append u rest (x ∷ []), count-other u x [] ne, count_nil u);
      own = inr z;
      lighter = omega (
        arith,
        rest_frame,
        weight-append (visit x s).mem rest (x ∷ []),
        weight-one (visit x s).mem x turns,
        weight-two s.mem x rest z,
      );
    }
  ]
