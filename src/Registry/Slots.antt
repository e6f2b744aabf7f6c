-- ===== src/Registry/Slots.antt =====
-- Tables of slots as the loops `for (u4Idx = 1; u4Idx <= OSIX_MAX_...; u4Idx++)` scan them: the
-- element 0 is not used, and the table holds one element more than the loop's bound.
use basearch.Prelude.{
  ℕ, zero, suc, ◌+◌, ◌≤◌, ◌<◌, ◌≡◌, refl, Bool, true, false, Option, none, some, List, [], ◌∷◌,
  arith, if◌then◌else◌, get_elem?, modify, Bool-cases, inl, inr,
}

module _ {ℓ} {A : Type ℓ} where
  -- The first index, counted from `k` on, whose element passes the test.
  unfoldable pub scan : (A → Bool) → List A → ℕ → Option ℕ
  scan p [] k = none
  scan p (x ∷ xs) k = if p x then some k else scan p xs (k + 1)

  unfoldable pub find_slot : (A → Bool) → List A → Option ℕ
  unfolding scan
  find_slot p [] = none
  find_slot p (x ∷ xs) = scan p xs 1

  -- No slot below `j` passes.
  abbrev pub NoneBelow : (A → Bool) → List A → ℕ → Type ℓ
  NoneBelow p xs j = (i : ℕ) (x : A) → i < j → get_elem? xs i ≡ some x → p x ≡ false

  pub scan-some :
      (p : A → Bool) (xs : List A) (k j : ℕ)
      → scan p xs k ≡ some j
      → (i : ℕ) × (j ≡ k + i)
        × ((x : A) × (get_elem? xs i ≡ some x) × (p x ≡ true))
        × NoneBelow p xs i
  unfolding scan
  scan-some p [] k j h = cc
  scan-some p (x ∷ xs) k j h = elim (Bool-cases (p x)) [
    | inl e ↦ (0, ground arith, (x, refl, e), λ i y lt g. absurd (omega arith))
    | inr e ↦
        let (i, q, r, s) = scan-some p xs (k + 1) j (ground arith) in
        (suc i, omega arith, r, below e i s)
  ]
    where
      below : p x ≡ false → (i : ℕ) → NoneBelow p xs i → NoneBelow p (x ∷ xs) (suc i)
      below e i s zero y lt g = ground arith
      below e i s (suc m) y lt g = s m y (omega arith) g

  pub scan-first :
      (p : A → Bool) (xs : List A) (k i : ℕ) (x : A)
      → get_elem? xs i ≡ some x
      → p x ≡ true
      → NoneBelow p xs i
      → scan p xs k ≡ some (k + i)
  unfolding scan
  scan-first p [] k i x g h s = cc
  scan-first p (y ∷ xs) k zero x g h s = ground arith
  scan-first p (y ∷ xs) k (suc i) x g h s =
      ground
        (arith, s 0 y, scan-first p xs (k + 1) i x g h (λ m z lt e. s (suc m) z (omega arith) e))

  pub scan-none :
      (p : A → Bool) (xs : List A) (k : ℕ)
      → ((i : ℕ) (x : A) → get_elem? xs i ≡ some x → p x ≡ false)
      → scan p xs k ≡ none
  unfolding scan
  scan-none p [] k s = refl
  scan-none p (y ∷ xs) k s = ground (arith, s 0 y, scan-none p xs (k + 1) (λ m z e. s (suc m) z e))

  pub scan-none_inv :
      (p : A → Bool) (xs : List A) (k i : ℕ) (x : A)
      → scan p xs k ≡ none
      → get_elem? xs i ≡ some x
      → p x ≡ false
  unfolding scan
  scan-none_inv p [] k i x h g = cc
  scan-none_inv p (y ∷ xs) k zero x h g = ground arith
  scan-none_inv p (y ∷ xs) k (suc i) x h g = elim (Bool-cases (p y)) [
    | inl e ↦ ground arith
    | inr e ↦ scan-none_inv p xs (k + 1) i x (ground arith) g
  ]

  -- What a scan finds is a slot from 1 on that passes, and no slot before it does.
  pub find_slot-some :
      (p : A → Bool) (xs : List A) (j : ℕ)
      → find_slot p xs ≡ some j
      → (1 ≤ j)
        × ((x : A) × (get_elem? xs j ≡ some x) × (p x ≡ true))
        × ((i : ℕ) (y : A) → 1 ≤ i → i < j → get_elem? xs i ≡ some y → p y ≡ false)
  unfolding find_slot
  find_slot-some p [] j h = cc
  find_slot-some p (x ∷ xs) j h =
      let (i, e, (y, g, t), s) = scan-some p xs 1 j h in
      (omega arith, (y, at i e y g, t), below i e s)
    where
      at : (i : ℕ) → j ≡ 1 + i → (y : A) → get_elem? xs i ≡ some y → get_elem? (x ∷ xs) j ≡ some y
      at i e y g = let q : j ≡ suc i = omega arith in rw q g

      below :
          (i : ℕ)
          → j ≡ 1 + i
          → NoneBelow p xs i
          → (m : ℕ) (y : A) → 1 ≤ m
          → m < j
          → get_elem? (x ∷ xs) m ≡ some y
          → p y ≡ false
      below i e s zero y le lt g = absurd (omega arith)
      below i e s (suc m) y le lt g = s m y (omega arith) g

  -- A scan finds the first slot that passes.
  pub find_slot-first :
      (p : A → Bool) (xs : List A) (j : ℕ) (x : A)
      → 1 ≤ j
      → get_elem? xs j ≡ some x
      → p x ≡ true
      → ((i : ℕ) (y : A) → 1 ≤ i → i < j → get_elem? xs i ≡ some y → p y ≡ false)
      → find_slot p xs ≡ some j
  unfolding find_slot
  find_slot-first p [] j x le g t s = cc
  find_slot-first p (z ∷ xs) zero x le g t s = absurd (omega arith)
  find_slot-first p (z ∷ xs) (suc j) x le g t s =
      ground
        (arith, scan-first p xs 1 j x g t (λ m y lt e. s (suc m) y (omega arith) (omega arith) e))

  pub find_slot-none :
      (p : A → Bool) (xs : List A)
      → ((i : ℕ) (x : A) → 1 ≤ i → get_elem? xs i ≡ some x → p x ≡ false)
      → find_slot p xs ≡ none
  unfolding find_slot
  find_slot-none p [] s = refl
  find_slot-none p (z ∷ xs) s = scan-none p xs 1 (λ i x g. s (suc i) x (omega arith) g)

  -- A scan that finds nothing has seen every slot fail.
  pub find_slot-none_inv :
      (p : A → Bool) (xs : List A) (i : ℕ) (x : A)
      → find_slot p xs ≡ none
      → 1 ≤ i
      → get_elem? xs i ≡ some x
      → p x ≡ false
  unfolding find_slot
  find_slot-none_inv p [] i x h le g = cc
  find_slot-none_inv p (z ∷ xs) zero x h le g = absurd (omega arith)
  find_slot-none_inv p (z ∷ xs) (suc i) x h le g = scan-none_inv p xs 1 i x h g

  -- A change that the test does not see leaves the search as it is.
  pub scan-modify :
      (p : A → Bool) (xs : List A) (k i : ℕ) (f : A → A)
      → ((x : A) → p (f x) ≡ p x)
      → scan p (modify xs i f) k ≡ scan p xs k
  unfolding scan
  scan-modify p [] k i f same = refl
  scan-modify p (x ∷ xs) k zero f same = rw (same x)
  scan-modify p (x ∷ xs) k (suc i) f same = rw (scan-modify p xs (k + 1) i f same)

  pub find_slot-modify :
      (p : A → Bool) (xs : List A) (i : ℕ) (f : A → A)
      → ((x : A) → p (f x) ≡ p x)
      → find_slot p (modify xs i f) ≡ find_slot p xs
  unfolding find_slot
  find_slot-modify p [] i f same = refl
  find_slot-modify p (x ∷ xs) zero f same = refl
  find_slot-modify p (x ∷ xs) (suc i) f same = scan-modify p xs 1 i f same

  -- Tests that agree find the same slot.
  scan-same :
      (p q : A → Bool) (xs : List A) (k : ℕ) → ((x : A) → p x ≡ q x) → scan p xs k ≡ scan q xs k
  unfolding scan
  scan-same p q [] k same = refl
  scan-same p q (x ∷ xs) k same = rw (same x, scan-same p q xs (k + 1) same)

  pub find_slot-same :
      (p q : A → Bool) (xs : List A) → ((x : A) → p x ≡ q x) → find_slot p xs ≡ find_slot q xs
  unfolding find_slot
  find_slot-same p q [] same = refl
  find_slot-same p q (x ∷ xs) same = scan-same p q xs 1 same
