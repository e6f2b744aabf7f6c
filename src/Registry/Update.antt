-- ===== src/Registry/Update.antt =====
-- What filling and clearing a slot do to a table.
use basearch.Prelude.{
  ℕ, ◌≤◌, ◌<◌, ◌≡◌, refl, sym, ◌∙◌, ◌≢◌, Bool, true, false, none, some, List, arith, get_elem?,
  get_elem?-modify, get_elem?-modify_self, get_elem?-modify_ne, get_elem?-map, length,
  length-replicate, modify, map, Option-cases, ◌⊎◌, inl, inr, replicate,
}
use basearch.Registry.Slots.{find_slot, find_slot-some, find_slot-none_inv}
use basearch.Registry.Table.{
  name_size, no_name, is_empty_name, is_named, add_slot, IsFresh, IsTable, find_slot-is_named,
}

pub length-no_name : length no_name ≡ name_size
unfolding no_name
length-no_name = length-replicate name_size 0

pub is_empty_name-no_name : is_empty_name no_name ≡ true
unfolding is_empty_name no_name replicate
is_empty_name-no_name = refl

module _ {ℓ} {A : Type ℓ} (free : A → Bool) (name : A → List ℕ) where
  -- Clearing every slot makes a table.
  pub map-IsTable :
      (xs : List A) (clear : A → A)
      → ((x : A) → name (clear x) ≡ no_name)
      → IsTable free name (map clear xs)
  map-IsTable xs clear c = record {
    sized = λ i y g. let (x, _, e) = get_elem?-map xs i clear y g in rw (e, c x) length-no_name;
    blank = λ i y g h. let (x, _, e) = get_elem?-map xs i clear y g in rw (e, c x);
    unique = λ i j y z _ _ g _ _ full.
        let (x, _, e) = get_elem?-map xs i clear y g in
        let p : is_empty_name (name y) ≡ true = rw (e, c x) is_empty_name-no_name in cc;
  }

  module _ {xs : List A} (table : IsTable free name xs) where
    -- Clearing the name of a slot keeps the table, whatever becomes of its mark.
    pub clear-IsTable :
        (i : ℕ) (clear : A → A)
        → ((x : A) → name (clear x) ≡ no_name)
        → IsTable free name (modify xs i clear)
    clear-IsTable i clear c = record { sized = sized; blank = blank; unique = unique }
      where
        name_of :
            (j : ℕ) (y : A)
            → get_elem? (modify xs i clear) j ≡ some y
            → (get_elem? xs j ≡ some y) ⊎ (name y ≡ no_name)
        name_of j y g = elim (get_elem?-modify xs i j clear y g) [
          | inl k ↦ inl k.1
          | inr (q, (x, gx, e)) ↦ inr (rw (e, c x))
        ]

        sized :
            (j : ℕ) (y : A) → get_elem? (modify xs i clear) j ≡ some y → length (name y) ≡ name_size
        sized j y g = elim (name_of j y g) [
          | inl k ↦ table.sized j y k
          | inr k ↦ rw k length-no_name
        ]

        blank :
            (j : ℕ) (y : A)
            → get_elem? (modify xs i clear) j ≡ some y
            → free y ≡ true
            → name y ≡ no_name
        blank j y g h = elim (name_of j y g) [ inl k ↦ table.blank j y k h | inr k ↦ k ]

        hidden : (y : A) → name y ≡ no_name → is_empty_name (name y) ≡ false → ⊥
        hidden y k full = let p : is_empty_name (name y) ≡ true = rw k is_empty_name-no_name in cc

        unique :
            (j k : ℕ) (y z : A)
            → 1 ≤ j
            → 1 ≤ k
            → get_elem? (modify xs i clear) j ≡ some y
            → get_elem? (modify xs i clear) k ≡ some z
            → name y ≡ name z
            → is_empty_name (name y) ≡ false
            → j ≡ k
        unique j k y z lj lk gy gz same full = elim (name_of j y gy) [
          | inr q ↦ absurd (hidden y q full)
          | inl q ↦ elim (name_of k z gz) [
            | inl r ↦ table.unique j k y z lj lk q r same full
            | inr r ↦ absurd (hidden y (same ∙ r) full)
          ]
        ]

    -- After the slot of a name is cleared, the name is gone.
    pub clear-IsFresh :
        (n : List ℕ) (i : ℕ) (x : A) (clear : A → A)
        → ((y : A) → name (clear y) ≡ no_name)
        → is_empty_name n ≡ false
        → 1 ≤ i
        → get_elem? xs i ≡ some x
        → name x ≡ n
        → IsFresh free name n (modify xs i clear)
    clear-IsFresh n i x clear c full le g e j y le' gy same =
        elim (get_elem?-modify xs i j clear y gy) [
          | inl k ↦ k.0 (table.unique i j x y le le' g k.1 (e ∙ sym same) (rw e full))
          | inr (q, (z, gz, f)) ↦
              let p : is_empty_name n ≡ true = rw (← same, f, c z) is_empty_name-no_name in cc
        ]

    module _ (n : List ℕ) (len : length n ≡ name_size) (fill : A → A)
        (used : (x : A) → free (fill x) ≡ false) (names : (x : A) → name (fill x) ≡ n) where
      -- Filling a slot keeps the table, if no slot has the name.
      pub fill-IsTable :
          (i : ℕ)
          → IsFresh free name n xs ⊎ (is_empty_name n ≡ true)
          → IsTable free name (modify xs i fill)
      fill-IsTable i fresh = record { sized = sized; blank = blank; unique = unique }
        where
          sized :
              (j : ℕ) (y : A)
              → get_elem? (modify xs i fill) j ≡ some y
              → length (name y) ≡ name_size
          sized j y g = elim (get_elem?-modify xs i j fill y g) [
            | inl k ↦ table.sized j y k.1
            | inr (q, (x, gx, e)) ↦ rw (e, names x) len
          ]

          blank :
              (j : ℕ) (y : A)
              → get_elem? (modify xs i fill) j ≡ some y
              → free y ≡ true
              → name y ≡ no_name
          blank j y g h = elim (get_elem?-modify xs i j fill y g) [
            | inl k ↦ table.blank j y k.1 h
            | inr (q, (x, gx, e)) ↦ let u : free y ≡ false = rw e (used x) in cc
          ]

          clash :
              (j : ℕ) (y z : A)
              → 1 ≤ j
              → get_elem? xs j ≡ some y
              → name y ≡ name z
              → name z ≡ n
              → is_empty_name (name y) ≡ false
              → ⊥
          clash j y z le g same e full = elim fresh [
            | inl f ↦ f j y le g (same ∙ e)
            | inr p ↦ let t : is_empty_name (name y) ≡ true = rw (same, e) p in cc
          ]

          unique :
              (j k : ℕ) (y z : A)
              → 1 ≤ j
              → 1 ≤ k
              → get_elem? (modify xs i fill) j ≡ some y
              → get_elem? (modify xs i fill) k ≡ some z
              → name y ≡ name z
              → is_empty_name (name y) ≡ false
              → j ≡ k
          unique j k y z lj lk gy gz same full = elim (get_elem?-modify xs i j fill y gy) [
            | inl p ↦ elim (get_elem?-modify xs i k fill z gz) [
              | inl q ↦ table.unique j k y z lj lk p.1 q.1 same full
              | inr (q, (x, gx, e)) ↦ absurd (clash j y z lj p.1 same (rw (e, names x)) full)
            ]
            | inr (p, (x, gx, e)) ↦ elim (get_elem?-modify xs i k fill z gz) [
              | inl q ↦ absurd (clash k z y lk q.1 (sym same) (rw (e, names x)) (rw (← same) full))
              | inr (q, r) ↦ sym p ∙ q
            ]
          ]

      -- The first free slot takes the name, the others stay, and the search by name finds it.
      pub add_slot-some :
          {ys : List A}
          → IsFresh free name n xs
          → is_empty_name n ≡ false
          → add_slot free fill xs ≡ some ys
          → (i : ℕ) × (1 ≤ i)
            × (ys ≡ modify xs i fill)
            × ((x : A) × (get_elem? xs i ≡ some x)
                × (free x ≡ true)
                × (get_elem? ys i ≡ some (fill x)))
            × ((j : ℕ) → i ≢ j → get_elem? ys j ≡ get_elem? xs j)
            × ((j : ℕ) (y : A) → 1 ≤ j → j < i → get_elem? xs j ≡ some y → free y ≡ false)
            × (find_slot (is_named name n) ys ≡ some i)
            × IsTable free name ys
      unfolding add_slot
      add_slot-some {ys} fresh full h = elim (Option-cases (find_slot free xs)) [
        | inl e ↦ absurd (no_slot e)
        | inr (i, e) ↦
            let (le, (x, g, f), before) = find_slot-some free xs i e in
            let same : modify xs i fill ≡ ys = made i e in
            let hit : get_elem? (modify xs i fill) i ≡ some (fill x) =
              get_elem?-modify_self xs i fill x g in
            let kept = fill-IsTable i (inl fresh) in
            (
              i,
              le,
              sym same,
              (x, g, f, rw (← same) hit),
              λ j ne. rw (← same) (get_elem?-modify_ne xs i j fill ne),
              before,
              rw (← same)
                  (find_slot-is_named free name kept n i (fill x) len full le hit (names x)),
              rw (← same) kept,
            )
      ]
        where
          no_slot : find_slot free xs ≡ none → ⊥
          no_slot e = let q = h in ground (arith)

          made : (i : ℕ) → find_slot free xs ≡ some i → modify xs i fill ≡ ys
          made i e = ground arith

module _ {ℓ} {A : Type ℓ} (free : A → Bool) where
  -- Nothing is added only when no slot is free.
  pub add_slot-none :
      (xs : List A) (fill : A → A) (i : ℕ) (x : A)
      → add_slot free fill xs ≡ none
      → 1 ≤ i
      → get_elem? xs i ≡ some x
      → free x ≡ false
  unfolding add_slot
  add_slot-none xs fill i x h le g = elim (Option-cases (find_slot free xs)) [
    | inl e ↦ find_slot-none_inv free xs i x e le g
    | inr (j, e) ↦ ground arith
  ]
