-- ===== src/Timer/Links.antt =====
-- A stretch of a doubly linked list: what it is, what leaves it as it is, and how it is cut and
-- joined (the lists of src/timer/base_timer.c).
use basearch.Prelude.{ℕ, ◌≤◌, ◌<◌, ◌≡◌, ◌≢◌, ◌∙◌, List, [], ◌∷◌, ◌++◌, arith}
use native.Mathlib.Decide.{ℕ_discrete}
use basearch.Timer.{Store}
use basearch.Timer.Store.{count, count_self, count-other, count-cons-le}

-- From the cell `a`, the cells `xs` follow, and then `b`: each points to the next and back.
pub data Seg (m : Store) (b : ℕ) : ℕ → List ℕ → Type 0 where
  end : {a : ℕ} → (m a).next ≡ b → (m b).prev ≡ a → Seg m b a []
  link :
      {a x : ℕ} {xs : List ℕ} → (m a).next ≡ x → (m x).prev ≡ a → Seg m b x xs → Seg m b a (x ∷ xs)

-- The last of a cell and those that follow it.
abbrev pub last_of : ℕ → List ℕ → ℕ
last_of a [] = a
last_of a (x ∷ xs) = last_of x xs

-- The first of some cells, or the one behind them.
abbrev pub first_of : List ℕ → ℕ → ℕ
first_of [] b = b
first_of (x ∷ xs) b = x

pub Seg-first : {m : Store} {b a : ℕ} {xs : List ℕ} → Seg m b a xs → (m a).next ≡ first_of xs b
Seg-first (end n p) = n
Seg-first (link n p s) = n

pub Seg-last : {m : Store} {b a : ℕ} {xs : List ℕ} → Seg m b a xs → (m b).prev ≡ last_of a xs
Seg-last (end n p) = p
Seg-last (link n p s) = Seg-last s

pub count-last : (a : ℕ) (xs : List ℕ) → 0 < count (last_of a xs) (a ∷ xs)
count-last a [] = omega (arith, count_self a [])
count-last a (x ∷ xs) = omega (arith, count-last x xs, count-cons-le (last_of x xs) a (x ∷ xs))

-- Cells whose links stay as they are.
pub Seg-frame :
    {m : Store} (m' : Store) {b a : ℕ} {xs : List ℕ}
    → ((y : ℕ) → 0 < count y (a ∷ xs) → (m' y).next ≡ (m y).next)
    → ((y : ℕ) → 0 < count y (b ∷ xs) → (m' y).prev ≡ (m y).prev)
    → Seg m b a xs
    → Seg m' b a xs
Seg-frame m' {b} {a} hn hp (end n p) =
    end (hn a (omega (arith, count_self a [])) ∙ n) (hp b (omega (arith, count_self b [])) ∙ p)
Seg-frame m' {b} {a} {xs = x ∷ xs} hn hp (link n p s) =
    link (hn a (omega (arith, count_self a (x ∷ xs))) ∙ n)
      (hp x (omega (arith, count_self x xs, count-cons-le x b (x ∷ xs))) ∙ p)
      (Seg-frame m' (λ y h. hn y (omega (arith, count-cons-le y a (x ∷ xs))))
        (λ y h. hp y (elim (ℕ_discrete b y) [
          | yes e ↦ rw e (omega (arith, count_self y (x ∷ xs)))
          | no ne ↦
              omega
                (arith, count-other y b xs ne, count-other y b (x ∷ xs) ne, count-cons-le y x xs)
        ]))
        s)

pub Seg-append :
    {m : Store} {b a x : ℕ} (xs ys : List ℕ)
    → Seg m x a xs
    → Seg m b x ys
    → Seg m b a (xs ++ x ∷ ys)
Seg-append [] ys (end n p) t = link n p t
Seg-append (y ∷ xs) ys (link n p s) t = link n p (Seg-append xs ys s t)

-- A stretch cut at one of its cells.
pub Seg-before : {m : Store} {b a x : ℕ} (xs ys : List ℕ) → Seg m b a (xs ++ x ∷ ys) → Seg m x a xs
Seg-before [] ys (link n p s) = end n p
Seg-before (y ∷ xs) ys (link n p s) = link n p (Seg-before xs ys s)

pub Seg-after : {m : Store} {b a x : ℕ} (xs ys : List ℕ) → Seg m b a (xs ++ x ∷ ys) → Seg m b x ys
Seg-after [] ys (link n p s) = s
Seg-after (y ∷ xs) ys (link n p s) = Seg-after xs ys s

-- The same cells with another one behind them, once the last of them points there and back.
pub Seg-retarget :
    {m : Store} (m' : Store) {x a : ℕ} (b : ℕ) {xs : List ℕ}
    → ((y : ℕ) → count y (a ∷ xs) ≤ 1)
    → (m' (last_of a xs)).next ≡ b
    → (m' b).prev ≡ last_of a xs
    → ((y : ℕ) → 0 < count y (a ∷ xs) → y ≢ last_of a xs → (m' y).next ≡ (m y).next)
    → ((y : ℕ) → 0 < count y xs → (m' y).prev ≡ (m y).prev)
    → Seg m x a xs
    → Seg m' b a xs
Seg-retarget m' b once n' p' hn hp (end n p) = end n' p'
Seg-retarget m' {x} {a} b {xs = z ∷ xs} once n' p' hn hp (link n p s) =
    let apart : a ≢ last_of z xs = λ e.
      let c : 0 < count a (z ∷ xs) = rw e (count-last z xs) in
      absurd (omega (arith, once a, count_self a (z ∷ xs))) in
    link (hn a (omega (arith, count_self a (z ∷ xs))) apart ∙ n)
      (hp z (omega (arith, count_self z xs)) ∙ p)
      (Seg-retarget m' b (λ y. omega (arith, once y, count-cons-le y a (z ∷ xs))) n' p'
        (λ y h ne. hn y (omega (arith, count-cons-le y a (z ∷ xs))) ne)
        (λ y h. hp y (omega (arith, count-cons-le y z xs))) s)
