-- ===== src/Timer/Rings.antt =====
-- The spokes of a wheel and the timers on each: what a taken out or appended timer leaves
-- (src/timer/base_timer.c).
pub mod Remove
pub mod Append
use basearch.Prelude.{
  ℕ, zero, suc, ◌+◌, ◌≤◌, ◌<◌, ◌≡◌, ◌≢◌, refl, sym, ap, ◌∙◌, inl, inr, ◌⊎◌, Bool, true, false, List,
  [], ◌∷◌, ◌++◌, arith, ◌==◌, ==_iff, ==_refl, eq_false_of_ne, if◌then◌else◌, subst,
}
use native.Mathlib.Decide.{ℕ_discrete}
use basearch.Timer.{Cell, Store}
use basearch.Timer.Store.{
  count, count_self, count-other, count-cons-le, count-append, count_split, count_nil,
}
use basearch.Timer.Links.{
  Seg, last_of, first_of, Seg-first, Seg-last, count-last, Seg-frame, Seg-before, Seg-after,
}
use basearch.Timer.Splice.{Bypass, Joined, Seg-bypass, Seg-join, uncounted}

-- The timers on each spoke, in the order of its list.
abbrev pub Spokes : Type 0
Spokes = ℕ → List ℕ

unfoldable pub put : ℕ → List ℕ → Spokes → Spokes
put j xs l = λ k. if k == j then xs else l k

pub put-same : (j k : ℕ) (xs : List ℕ) (l : Spokes) → k ≡ j → put j xs l k ≡ xs
unfolding put
put-same j k xs l e = let t : (k == j) ≡ true = (==_iff k j).1 e in rw t

pub put-other : (j k : ℕ) (xs : List ℕ) (l : Spokes) → k ≢ j → put j xs l k ≡ l k
unfolding put
put-other j k xs l ne = let t : (k == j) ≡ false = eq_false_of_ne k j ne in rw t

-- The `n` spokes from `sp` on head circular lists; no timer stands on two, or is a spoke.
pub record Rings (m : Store) (sp n : ℕ) (l : Spokes) : Type 0 where
  pub base : 0 < sp
  pub ring : (j : ℕ) → j < n → Seg m (sp + j) (sp + j) (l j)
  pub once : (j x : ℕ) → count x (l j) ≤ 1
  pub apart : (i j x : ℕ) → 0 < count x (l i) → 0 < count x (l j) → i ≡ j
  pub outer : (j x k : ℕ) → 0 < count x (l j) → k < n → x ≢ sp + k
  pub nonnull : (j x : ℕ) → 0 < count x (l j) → 0 < x
  pub within : (j x : ℕ) → 0 < count x (l j) → j < n

-- A timer that may be put on a spoke: it is none of the spokes, and not NULL.
pub record IsTimer (sp n t : ℕ) : Type 0 where
  pub outer : (k : ℕ) → k < n → t ≢ sp + k
  pub nonnull : 0 < t

module _ {m : Store} {sp n : ℕ} {l : Spokes} (r : Rings m sp n l) where
  -- A timer on a spoke is not its head.
  head_out : (j k : ℕ) → k < n → count (sp + k) (l j) ≡ 0
  head_out j k lt = elim (ℕ_discrete (count (sp + k) (l j)) 0) [
    | yes e ↦ e
    | no ne ↦ absurd (r.outer j (sp + k) k (omega arith) lt refl)
  ]

  pub full_once : (j y : ℕ) → j < n → count y ((sp + j) ∷ l j) ≤ 1
  full_once j y lt = elim (ℕ_discrete (sp + j) y) [
    | yes e ↦ let o = head_out j j lt in rw (← e) (omega (arith, o, count_self (sp + j) (l j)))
    | no ne ↦ omega (arith, r.once j y, count-other y (sp + j) (l j) ne)
  ]

  -- A head or a timer belongs to one spoke.
  pub full_apart :
      (i j y : ℕ)
      → i < n
      → j < n
      → 0 < count y ((sp + i) ∷ l i)
      → 0 < count y ((sp + j) ∷ l j)
      → i ≡ j
  full_apart i j y hi hj ci cj = elim (ℕ_discrete (sp + i) y) [
    | yes e ↦ elim (ℕ_discrete (sp + j) y) [
      | yes e' ↦ omega arith
      | no ne' ↦
          let o = head_out j i hi in
          let c : 0 < count (sp + i) (l j) = rw e (count_split y (sp + j) (l j) cj ne') in
          absurd (omega arith)
    ]
    | no ne ↦ elim (ℕ_discrete (sp + j) y) [
      | yes e' ↦
          let o = head_out i j hj in
          let c : 0 < count (sp + j) (l i) = rw e' (count_split y (sp + i) (l i) ci ne) in
          absurd (omega arith)
      | no ne' ↦
          r.apart i j y (count_split y (sp + i) (l i) ci ne) (count_split y (sp + j) (l j) cj ne')
    ]
  ]

  -- The neighbours of a timer on a spoke.
  pub neighbours :
      (j x : ℕ) (ys zs : List ℕ)
      → j < n
      → l j ≡ ys ++ x ∷ zs
      → ((m x).prev ≡ last_of (sp + j) ys) × ((m x).next ≡ first_of zs (sp + j))
  neighbours j x ys zs lt e =
      let s = subst (λ t. Seg m (sp + j) (sp + j) t) e (r.ring j lt) in
      (Seg-last (Seg-before ys zs s), Seg-first (Seg-after ys zs s))
