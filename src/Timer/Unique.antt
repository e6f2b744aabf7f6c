-- ===== src/Timer/Unique.antt =====
-- The timers on the spokes of a wheel are those that its store links (src/timer/base_timer.c).
use mathlib.Core.Path.{fun_ext}
use basearch.Prelude.{ℕ, ◌+◌, ◌<◌, ◌≡◌, refl, sym, ap₂, ◌∙◌, List, [], ◌∷◌, arith, subst}
use native.Mathlib.Decide.{ℕ_discrete, dec_lt}
use basearch.Timer.{State, Store}
use basearch.Timer.Store.{count, count_self, count-cons-le}
use basearch.Timer.Links.{Seg, end, link}
use basearch.Timer.Rings.{Spokes}
use basearch.Timer.Invariant.{IsWheel}

-- A store has one list from a head to the head.
Seg-unique :
    {m : Store} {b a : ℕ} {xs ys : List ℕ}
    → Seg m b a xs
    → Seg m b a ys
    → count b xs ≡ 0
    → count b ys ≡ 0
    → xs ≡ ys
Seg-unique (end n p) (end n' p') z z' = refl
Seg-unique {b = b} {ys = y ∷ ys} (end n p) (link n' p' s') z z' =
    let e : y ≡ b = sym n' ∙ n in
    let k = subst (λ u. count b (u ∷ ys) ≡ 0) e z' in absurd (omega (arith, count_self b ys))
Seg-unique {b = b} {xs = x ∷ xs} (link n p s) (end n' p') z z' =
    let e : x ≡ b = sym n ∙ n' in
    let k = subst (λ u. count b (u ∷ xs) ≡ 0) e z in absurd (omega (arith, count_self b xs))
Seg-unique {m} {b} {xs = x ∷ xs} {ys = y ∷ ys} (link n p s) (link n' p' s') z z' =
    let e : y ≡ x = sym n' ∙ n in
    let t = subst (λ u. Seg m b u ys) e s' in
    let w =
      Seg-unique s t (omega (arith, count-cons-le b x xs)) (omega (arith, count-cons-le b y ys)) in
    ap₂ (λ u us. u ∷ us) (sym e) w

count_all_zero : (xs : List ℕ) → ((x : ℕ) → count x xs ≡ 0) → xs ≡ []
count_all_zero [] h = refl
count_all_zero (x ∷ xs) h = absurd (omega (arith, h x, count_self x xs))

head_free :
    (s : State) (l : Spokes) (j : ℕ)
    → IsWheel s l
    → j < s.stw.wheel_size
    → count (s.stw.spokes + j) (l j) ≡ 0
head_free s l j v lt = elim (ℕ_discrete (count (s.stw.spokes + j) (l j)) 0) [
  | yes e ↦ e
  | no ne ↦ absurd (v.rings.outer j (s.stw.spokes + j) j (omega arith) lt refl)
]

none_there :
    (s : State) (l : Spokes) (j x : ℕ) → IsWheel s l → ¬ (j < s.stw.wheel_size) → count x (l j) ≡ 0
none_there s l j x v ge = elim (ℕ_discrete (count x (l j)) 0) [
  | yes e ↦ e
  | no ne ↦ absurd (ge (v.rings.within j x (omega arith)))
]

-- So the timers on the spokes are those that the store links.
pub lists_unique : (s : State) (l l' : Spokes) → IsWheel s l → IsWheel s l' → l ≡ l'
lists_unique s l l' v v' = fun_ext (λ j. elim (dec_lt j s.stw.wheel_size) [
  | yes lt ↦
      Seg-unique (v.rings.ring j lt) (v'.rings.ring j lt) (head_free s l j v lt)
        (head_free s l' j v' lt)
  | no ge ↦
      count_all_zero (l j) (λ x. none_there s l j x v ge)
      ∙ sym (count_all_zero (l' j) (λ x. none_there s l' j x v' ge))
])
