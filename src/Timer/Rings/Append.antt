-- ===== src/Timer/Rings/Append.antt =====
-- A timer that is put at the end of a spoke (`tmr_enqueue_unlocked` of src/timer/base_timer.c).
use basearch.Prelude.{
  ℕ, ◌+◌, ◌≤◌, ◌<◌, ◌≡◌, ◌≢◌, sym, ap, ◌∙◌, inl, inr, ◌⊎◌, [], ◌∷◌, ◌++◌, arith, subst,
}
use native.Mathlib.Decide.{ℕ_discrete}
use basearch.Timer.{Store}
use basearch.Timer.Store.{count, count_self, count-other, count-append, count_nil}
use basearch.Timer.Links.{last_of, Seg-last, count-last, Seg-frame}
use basearch.Timer.Splice.{Joined, Seg-join, uncounted}
use basearch.Timer.Rings.{Spokes, put, put-same, put-other, Rings, IsTimer, full_once, full_apart}

put-more :
    (l : Spokes) (c t k y : ℕ)
    → count y (put c (l c ++ t ∷ []) l k) ≤ count y (l k) + count y (t ∷ [])
put-more l c t k y = elim (ℕ_discrete k c) [
  | yes q ↦
      let a = put-same c k (l c ++ t ∷ []) l q in
      let b = ap l q in rw (a, b) (omega (arith, count-append y (l c) (t ∷ [])))
  | no ne ↦ let a = put-other c k (l c ++ t ∷ []) l ne in rw a (omega arith)
]

-- What is counted after an append is the new timer, on its spoke, or was counted before.
pub put_cases :
    (l : Spokes) (c t k y : ℕ)
    → 0 < count y (put c (l c ++ t ∷ []) l k)
    → ((k ≡ c) × (y ≡ t)) ⊎ (0 < count y (l k))
put_cases l c t k y h = elim (ℕ_discrete (count y (l k)) 0) [
  | no nz ↦ inr (omega arith)
  | yes z ↦ elim (ℕ_discrete t y) [
    | no ne ↦ absurd (omega (arith, put-more l c t k y, count-other y t [] ne, count_nil y))
    | yes e ↦ elim (ℕ_discrete k c) [
      | yes q ↦ inl (q, sym e)
      | no ne ↦ let a = ap (count y) (put-other c k (l c ++ t ∷ []) l ne) in absurd (omega arith)
    ]
  ]
]

-- A timer that was on no spoke is appended to one.
pub Joined-Rings :
    (m m' : Store) (sp n : ℕ) (l : Spokes) (c t : ℕ)
    → Rings m sp n l
    → c < n
    → IsTimer sp n t
    → ((k : ℕ) → count t (l k) ≡ 0)
    → Joined m m' t (m (sp + c)).prev (sp + c)
    → Rings m' sp n (put c (l c ++ t ∷ []) l)
Joined-Rings m m' sp n l c t r lt new out j0 =
    let h = sp + c in
    let p = Seg-last (r.ring c lt) in
    let j = subst (λ q. Joined m m' t q h) p j0 in
    let kept : (k y : ℕ) → y ≢ t → count y (put c (l c ++ t ∷ []) l k) ≤ count y (l k) = λ k y ne.
      omega (arith, put-more l c t k y, count-other y t [] (λ e. ne (sym e)), count_nil y) in
    record {
      base = r.base;
      once = λ k y. elim (ℕ_discrete y t) [
        | yes e ↦ rw e (omega (arith, put-more l c t k t, out k, count_self t [], count_nil t))
        | no ne ↦ omega (arith, kept k y ne, r.once k y)
      ];
      apart = λ i k y a b. elim (put_cases l c t i y a) [
        | inl (e, f) ↦ elim (put_cases l c t k y b) [
          | inl (e', f') ↦ omega arith
          | inr o' ↦
              let z : count t (l k) ≡ count y (l k) = ap (λ x. count x (l k)) (sym f) in
              absurd (omega (arith, out k))
        ]
        | inr o ↦ elim (put_cases l c t k y b) [
          | inl (e', f') ↦
              let z : count t (l i) ≡ count y (l i) = ap (λ x. count x (l i)) (sym f') in
              absurd (omega (arith, out i))
          | inr o' ↦ r.apart i k y o o'
        ]
      ];
      outer = λ k y i a lt'. elim (put_cases l c t k y a) [
        | inl (e, f) ↦ rw f (new.outer i lt')
        | inr o ↦ r.outer k y i o lt'
      ];
      nonnull = λ k y a. elim (put_cases l c t k y a) [
        | inl (e, f) ↦ rw f new.nonnull
        | inr o ↦ r.nonnull k y o
      ];
      within =
          λ k y a. elim (put_cases l c t k y a) [ inl (e, f) ↦ rw e lt | inr o ↦ r.within k y o ];
      ring = λ k lk. elim (ℕ_discrete k c) [
        | yes ek ↦
            let z : count t (h ∷ l c) ≡ 0 =
              count-other t h (l c) (λ e. new.outer c lt (sym e)) ∙ out c in
            let s = Seg-join m' h t (l c) (λ y. full_once r c y lt) z j (r.ring c lt) in
            rw (put-same c k (l c ++ t ∷ []) l ek, ek) s
        | no ne ↦
            let z : count t ((sp + k) ∷ l k) ≡ 0 =
              count-other t (sp + k) (l k) (λ e. new.outer k lk (sym e)) ∙ out k in
            let far : (x y : ℕ) → 0 < count x (h ∷ l c) → 0 < count y ((sp + k) ∷ l k) → y ≢ x =
              λ x y cx cy eq.
                let k0 : 0 < count y (h ∷ l c) = rw eq cx in ne (full_apart r k c y lk lt cy k0) in
            rw (put-other c k (l c ++ t ∷ []) l ne) (
              Seg-frame m'
                (λ y cy.
                  j.next_off y (far (last_of h (l c)) y (count-last h (l c)) cy)
                    (uncounted t y ((sp + k) ∷ l k) cy z))
                (λ y cy.
                  j.prev_off y (far h y (omega (arith, count_self h (l c))) cy)
                    (uncounted t y ((sp + k) ∷ l k) cy z))
                (r.ring k lk))
      ];
    }
