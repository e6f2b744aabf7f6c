-- ===== src/Timer/Store.antt =====
-- What the writes of src/timer/base_timer.c leave at each address, and how often an address stands
-- in a list.
use basearch.Prelude.{
  ℕ, suc, ◌+◌, ◌≤◌, ◌<◌, ◌≡◌, ◌≢◌, refl, sym, ap, ◌∙◌, true, false, List, [], ◌∷◌, ◌++◌, arith,
  ◌==◌, ==_iff, ==_refl, eq_false_of_ne, if◌then◌else◌,
}
use native.Mathlib.Decide.{ℕ_discrete}
use basearch.Timer.{Cell, Store, write, set_next, set_prev, set_rotation}

-- How often `x` stands in a list.
unfoldable pub count : ℕ → List ℕ → ℕ
count x [] = 0
count x (y ∷ ys) = (if y == x then 1 else 0) + count x ys

pub count_nil : (x : ℕ) → count x [] ≡ 0
unfolding count
count_nil x = refl

pub count_self : (x : ℕ) (xs : List ℕ) → count x (x ∷ xs) ≡ suc (count x xs)
unfolding count
count_self x xs = let e = ==_refl x in rw e (omega arith)

pub count-other : (x y : ℕ) (xs : List ℕ) → y ≢ x → count x (y ∷ xs) ≡ count x xs
unfolding count
count-other x y xs ne = let e : (y == x) ≡ false = eq_false_of_ne y x ne in rw e (omega arith)

pub count-cons-le : (x y : ℕ) (xs : List ℕ) → count x xs ≤ count x (y ∷ xs)
unfolding count
count-cons-le x y xs = omega arith

pub count-append : (x : ℕ) (xs ys : List ℕ) → count x (xs ++ ys) ≡ count x xs + count x ys
unfolding count
count-append x [] ys = omega arith
count-append x (y ∷ xs) ys = omega (arith, count-append x xs ys)

-- A counted element is the head or is counted in the tail.
pub count_split : (x y : ℕ) (xs : List ℕ) → 0 < count x (y ∷ xs) → y ≢ x → 0 < count x xs
count_split x y xs h ne = omega (arith, count-other x y xs ne)

-- Where a list is cut at an element that stands in it.
pub record Cut (x : ℕ) (xs : List ℕ) : Type 0 where
  pub before : List ℕ
  pub after : List ℕ
  pub whole : xs ≡ before ++ x ∷ after

pub cut : (x : ℕ) (xs : List ℕ) → 0 < count x xs → Cut x xs
unfolding count
cut x [] h = absurd (omega arith)
cut x (y ∷ xs) h = elim (ℕ_discrete y x) [
  | yes e ↦ record { before = []; after = xs; whole = ap (λ t. t ∷ xs) e }
  | no ne ↦
      let c = cut x xs (count_split x y xs h ne) in
      record { before = y ∷ c.before; after = c.after; whole = ap (λ t. y ∷ t) c.whole }
]

-- A cell but for its links.
abbrev pub job : Cell → Cell
job c = record c { next = 0; prev = 0 }

-- What the caller asked for: a timer but for its links and rotations.
abbrev pub asked : Cell → Cell
asked c = record c { next = 0; prev = 0; rotation_count = 0 }

-- A part of the cells that a write leaves as it was.
pub write_keeps {ℓ} :
    {A : Type ℓ} (f : Cell → A) (p : ℕ) (c : Cell) (q : ℕ) (m : Store)
    → f c ≡ f (m p)
    → f (write p c m q) ≡ f (m q)
unfolding write
write_keeps f p c q m same = elim (ℕ_discrete q p) [
  | yes e ↦ let t : (q == p) ≡ true = (==_iff q p).1 e in rw t (same ∙ ap (λ a. f (m a)) (sym e))
  | no ne ↦ let t : (q == p) ≡ false = eq_false_of_ne q p ne in rw t
]

pub write-same : (p : ℕ) (c : Cell) (q : ℕ) (m : Store) → p ≡ q → write p c m q ≡ c
unfolding write
write-same p c q m e = let t : (q == p) ≡ true = (==_iff q p).1 (sym e) in rw t

pub write-other : (p : ℕ) (c : Cell) (q : ℕ) (m : Store) → p ≢ q → write p c m q ≡ m q
unfolding write
write-other p c q m ne = let t : (q == p) ≡ false = eq_false_of_ne q p (λ e. ne (sym e)) in rw t

module _ (p v q : ℕ) (m : Store) where
  pub next-set_same : p ≡ q → (set_next p v m q).next ≡ v
  unfolding set_next
  next-set_same e = ap (λ c. c.next) (write-same p _ q m e)

  pub next-set_ne : p ≢ q → (set_next p v m q).next ≡ (m q).next
  unfolding set_next
  next-set_ne ne = ap (λ c. c.next) (write-other p _ q m ne)

  pub prev-set_same : p ≡ q → (set_prev p v m q).prev ≡ v
  unfolding set_prev
  prev-set_same e = ap (λ c. c.prev) (write-same p _ q m e)

  pub prev-set_ne : p ≢ q → (set_prev p v m q).prev ≡ (m q).prev
  unfolding set_prev
  prev-set_ne ne = ap (λ c. c.prev) (write-other p _ q m ne)

  pub prev-set_next : (set_next p v m q).prev ≡ (m q).prev
  unfolding set_next
  prev-set_next = write_keeps (λ c. c.prev) p _ q m refl

  pub next-set_prev : (set_prev p v m q).next ≡ (m q).next
  unfolding set_prev
  next-set_prev = write_keeps (λ c. c.next) p _ q m refl

  pub job-set_next : job (set_next p v m q) ≡ job (m q)
  unfolding set_next
  job-set_next = write_keeps job p _ q m refl

  pub job-set_prev : job (set_prev p v m q) ≡ job (m q)
  unfolding set_prev
  job-set_prev = write_keeps job p _ q m refl

  pub next-set_rotation : (set_rotation p v m q).next ≡ (m q).next
  unfolding set_rotation
  next-set_rotation = write_keeps (λ c. c.next) p _ q m refl

  pub prev-set_rotation : (set_rotation p v m q).prev ≡ (m q).prev
  unfolding set_rotation
  prev-set_rotation = write_keeps (λ c. c.prev) p _ q m refl

  pub set_rotation-other : p ≢ q → set_rotation p v m q ≡ m q
  unfolding set_rotation
  set_rotation-other ne = write-other p _ q m ne
