-- ===== src/Timer/Rings/Remove.antt =====
-- A timer that is passed by leaves its spoke (the unlinking of src/timer/base_timer.c).
use basearch.Prelude.{ℕ, suc, ◌+◌, ◌≤◌, ◌<◌, ◌≡◌, ◌≢◌, ap, ◌∙◌, List, [], ◌∷◌, ◌++◌, arith, subst}
use native.Mathlib.Decide.{ℕ_discrete}
use basearch.Timer.{Store}
use basearch.Timer.Store.{count, count_self, count-cons-le, count-append}
use basearch.Timer.Links.{Seg, last_of, first_of, count-last, Seg-frame}
use basearch.Timer.Splice.{Bypass, Seg-bypass}
use basearch.Timer.Rings.{
  Spokes, put, put-same, put-other, Rings, full_once, full_apart, neighbours,
}

-- The lists but for one timer count no more than before.
count-without :
    (y h x : ℕ) (ys zs : List ℕ)
    → count y (h ∷ (ys ++ x ∷ zs)) ≡ count y (h ∷ ys) + count y (x ∷ zs)
count-without y h x ys zs = count-append y (h ∷ ys) (x ∷ zs)

pub put-fewer :
    (l : Spokes) (j x k y : ℕ) (ys zs : List ℕ)
    → l j ≡ ys ++ x ∷ zs
    → count y (put j (ys ++ zs) l k) ≤ count y (l k)
put-fewer l j x k y ys zs e = elim (ℕ_discrete k j) [
  | yes q ↦
      let a = put-same j k (ys ++ zs) l q in
      let b = ap l q ∙ e in
      rw (a, b)
        (omega (arith, count-append y ys zs, count-append y ys (x ∷ zs), count-cons-le y x zs))
  | no ne ↦ let a = put-other j k (ys ++ zs) l ne in rw a (omega arith)
]

pub put-gone :
    (l : Spokes) (j x : ℕ) (ys zs : List ℕ)
    → ((i x : ℕ) → count x (l i) ≤ 1)
    → ((i k x : ℕ) → 0 < count x (l i) → 0 < count x (l k) → i ≡ k)
    → l j ≡ ys ++ x ∷ zs
    → (k : ℕ) → count x (put j (ys ++ zs) l k) ≡ 0
put-gone l j x ys zs once apart e k =
    let c : count x (l j) ≡ count x ys + suc (count x zs) =
      ap (count x) e ∙ omega (arith, count-append x ys (x ∷ zs), count_self x zs) in
    elim (ℕ_discrete k j) [
      | yes q ↦
          let a = put-same j k (ys ++ zs) l q in
          rw a (omega (arith, once j x, count-append x ys zs))
      | no ne ↦
          let a = put-other j k (ys ++ zs) l ne in
          rw a (elim (ℕ_discrete (count x (l k)) 0) [
            | yes z ↦ z
            | no nz ↦ absurd (ne (apart k j x (omega arith) (omega arith)))
          ])
    ]

first_counted :
    (h x : ℕ) (ys zs : List ℕ) → 0 < count (first_of zs h) (h ∷ ys) + count (first_of zs h) (x ∷ zs)
first_counted h x ys [] = omega (arith, count_self h ys)
first_counted h x ys (z ∷ zs) = omega (arith, count_self z zs, count-cons-le z x (z ∷ zs))

-- A timer passed by has left its spoke, and the rest stands as before.
pub Bypass-Rings :
    (m m' : Store) (sp n : ℕ) (l : Spokes) (j x : ℕ) (ys zs : List ℕ)
    → Rings m sp n l
    → j < n
    → l j ≡ ys ++ x ∷ zs
    → Bypass m m' x (m x).prev (m x).next
    → Rings m' sp n (put j (ys ++ zs) l)
Bypass-Rings m m' sp n l j x ys zs r lt e b0 =
    let (p, q) = neighbours r j x ys zs lt e in
    let h = sp + j in
    let b1 = subst (λ t. Bypass m m' x t (m x).next) p b0 in
    let b = subst (λ t. Bypass m m' x (last_of h ys) t) q b1 in
    let fewer = λ (k y : ℕ). put-fewer l j x k y ys zs e in
    let inside : (y : ℕ) → 0 < count y (h ∷ ys) + count y (x ∷ zs) → 0 < count y (h ∷ l j) =
      λ y c. rw e (omega (arith, count-without y h x ys zs)) in
    record {
      base = r.base;
      once = λ k y. omega (arith, fewer k y, r.once k y);
      apart = λ i k y a c. r.apart i k y (omega (arith, fewer i y)) (omega (arith, fewer k y));
      outer = λ k y i a lt'. r.outer k y i (omega (arith, fewer k y)) lt';
      nonnull = λ k y a. r.nonnull k y (omega (arith, fewer k y));
      within = λ k y a. r.within k y (omega (arith, fewer k y));
      ring = λ k lk. elim (ℕ_discrete k j) [
        | yes ek ↦
            let s = subst (λ t. Seg m h h t) e (r.ring j lt) in
            let o : (y : ℕ) → count y (h ∷ (ys ++ x ∷ zs)) ≤ 1 =
              λ y. subst (λ t. count y (h ∷ t) ≤ 1) e (full_once r j y lt) in
            let t = Seg-bypass m' h x ys zs o b s in rw (put-same j k (ys ++ zs) l ek, ek) t
        | no ne ↦
            let off : (y : ℕ) → 0 < count y ((sp + k) ∷ l k) → count y (h ∷ l j) ≡ 0 = λ y c.
              elim (ℕ_discrete (count y (h ∷ l j)) 0) [
                | yes z ↦ z
                | no nz ↦ absurd (ne (full_apart r k j y lk lt c (omega arith)))
              ] in
            let far : (z y : ℕ)
                → 0 < count z (h ∷ ys) + count z (x ∷ zs)
                → 0 < count y ((sp + k) ∷ l k)
                → y ≢ z =
              λ z y cz c eq.
                let k0 : 0 < count y (h ∷ l j) = rw eq (inside z cz) in
                let k1 = off y c in absurd (omega arith) in
            let far_x = λ (y : ℕ) (c : 0 < count y ((sp + k) ∷ l k)).
              far x y (omega (arith, count_self x zs)) c in
            rw (put-other j k (ys ++ zs) l ne) (
              Seg-frame m'
                (λ y c.
                  b.next_off y (far (last_of h ys) y (omega (arith, count-last h ys)) c)
                    (far_x y c))
                (λ y c.
                  b.prev_off y (far (first_of zs h) y (first_counted h x ys zs) c) (far_x y c))
                (r.ring k lk))
      ];
    }
