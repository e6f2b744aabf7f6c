-- ===== src/Registry/Table.antt =====
-- What the three resource tables share: names of `OSIX_NAME_LEN + 4` bytes, the search by name,
-- the first free slot taken, and the invariant that makes the search by name right.
use basearch.Prelude.{
  ℕ, ◌+◌, ◌≤◌, ◌<◌, ◌≡◌, sym, ◌∙◌, ◌≢◌, Bool, true, false, Option, none, some, List, [], ◌∷◌, arith,
  get_elem?, length, modify, replicate, memcmp_eq, memcmp_eq→eq, memcmp_eq_refl, Bool-cases, inl,
  inr, ◌==◌,
}
use basearch.Registry.Slots.{find_slot, find_slot-first, find_slot-none, find_slot-none_inv}

abbrev pub osix_name_len : ℕ
osix_name_len = 4

-- The size of `au1Name`.
abbrev pub name_size : ℕ
name_size = osix_name_len + 4

-- `memset (name, '\0', OSIX_NAME_LEN + 4)`
unfoldable pub no_name : List ℕ
no_name = replicate name_size 0

-- `STRCMP (name, "") == 0`
unfoldable pub is_empty_name : List ℕ → Bool
is_empty_name [] = true
is_empty_name (c ∷ _) = c == 0

module _ {ℓ} {A : Type ℓ} where
  -- `MEMCMP (au1Name, slot.au1Name, OSIX_NAME_LEN + 4) == 0`
  unfoldable pub is_named : (A → List ℕ) → List ℕ → A → Bool
  is_named name n x = memcmp_eq name_size n (name x)

  -- A field of the slot that a scan found.
  abbrev pub slot_id : (A → ℕ) → List A → Option ℕ → Option ℕ
  slot_id f xs none = none
  slot_id f xs (some i) = elim (get_elem? xs i) [ none ↦ none | some x ↦ some (f x) ]

  -- The first free slot is filled in place.
  unfoldable pub add_slot : (A → Bool) → (A → A) → List A → Option (List A)
  add_slot free fill xs = elim (find_slot free xs) [
    | none ↦ none
    | some i ↦ some (modify xs i fill)
  ]

module _ {ℓ} {A : Type ℓ} (free : A → Bool) (name : A → List ℕ) where
  -- No slot from 1 on has the name.
  abbrev pub IsFresh : List ℕ → List A → Type ℓ
  IsFresh n xs = (i : ℕ) (x : A) → 1 ≤ i → get_elem? xs i ≡ some x → name x ≢ n

  -- A free slot has no name, and no two slots have the same name.
  pub record IsTable (xs : List A) : Type ℓ where
    pub sized : (i : ℕ) (x : A) → get_elem? xs i ≡ some x → length (name x) ≡ name_size
    pub blank : (i : ℕ) (x : A) → get_elem? xs i ≡ some x → free x ≡ true → name x ≡ no_name
    pub unique :
        (i j : ℕ) (x y : A)
        → 1 ≤ i
        → 1 ≤ j
        → get_elem? xs i ≡ some x
        → get_elem? xs j ≡ some y
        → name x ≡ name y
        → is_empty_name (name x) ≡ false
        → i ≡ j

  module _ {xs : List A} (table : IsTable xs) where
    pub is_named_eq :
        (n : List ℕ) (i : ℕ) (x : A)
        → length n ≡ name_size
        → get_elem? xs i ≡ some x
        → is_named name n x ≡ true
        → n ≡ name x
    unfolding is_named
    is_named_eq n i x len g h = memcmp_eq→eq name_size n (name x) len (table.sized i x g) h

    -- The search by name finds the slot that has the name.
    pub find_slot-is_named :
        (n : List ℕ) (i : ℕ) (x : A)
        → length n ≡ name_size
        → is_empty_name n ≡ false
        → 1 ≤ i
        → get_elem? xs i ≡ some x
        → name x ≡ n
        → find_slot (is_named name n) xs ≡ some i
    unfolding is_named
    find_slot-is_named n i x len full le g e =
        find_slot-first (is_named name n) xs i x le g same before
      where
        same : memcmp_eq name_size n (name x) ≡ true
        same = rw e (memcmp_eq_refl name_size n (omega arith))

        before :
            (m : ℕ) (y : A)
            → 1 ≤ m
            → m < i
            → get_elem? xs m ≡ some y
            → memcmp_eq name_size n (name y) ≡ false
        before m y le' lt gy = elim (Bool-cases (memcmp_eq name_size n (name y))) [
          | inr out ↦ out
          | inl hit ↦
              let q : n ≡ name y = memcmp_eq→eq name_size n (name y) len (table.sized m y gy) hit in
              let k : m ≡ i = table.unique m i y x le' le gy g (sym q ∙ sym e) (rw (← q) full) in
              absurd (omega arith)
        ]

    -- It finds nothing exactly when no slot has the name.
    pub find_slot-fresh :
        (n : List ℕ) → length n ≡ name_size → IsFresh n xs → find_slot (is_named name n) xs ≡ none
    unfolding is_named
    find_slot-fresh n len fresh = find_slot-none (is_named name n) xs λ i x le g.
        elim (Bool-cases (memcmp_eq name_size n (name x))) [
          | inr out ↦ out
          | inl hit ↦
              absurd (
                fresh i x le g
                  (sym (memcmp_eq→eq name_size n (name x) len (table.sized i x g) hit)))
        ]

    pub IsFresh-find_slot :
        (n : List ℕ) → length n ≡ name_size → find_slot (is_named name n) xs ≡ none → IsFresh n xs
    unfolding is_named
    IsFresh-find_slot n len h i x le g e =
        let miss : memcmp_eq name_size n (name x) ≡ false =
          find_slot-none_inv (is_named name n) xs i x h le g in
        let hit : memcmp_eq name_size n (name x) ≡ true =
          rw e (memcmp_eq_refl name_size n (omega arith)) in
        cc
