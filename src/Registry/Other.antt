-- ===== src/Registry/Other.antt =====
-- A change of one slot does not disturb the search for other names.
use basearch.Prelude.{
  ℕ, ◌≡◌, sym, subst, ◌∙◌, ◌≢◌, Bool, true, false, some, List, get_elem?, length, Option-cases, inl,
  inr,
}
use native.Mathlib.Decide.{ℕ_discrete}
use basearch.Registry.Slots.{find_slot, find_slot-some}
use basearch.Registry.Table.{
  name_size, no_name, is_empty_name, is_named, IsTable, IsFresh, find_slot-is_named,
  find_slot-fresh, IsFresh-find_slot, is_named_eq,
}
use basearch.Registry.Update.{is_empty_name-no_name}

pub ne-no_name : (n : List ℕ) → is_empty_name n ≡ false → no_name ≢ n
ne-no_name n full e =
    let p : is_empty_name n ≡ true = subst (λ t. is_empty_name t ≡ true) e is_empty_name-no_name in
    cc

module _ {ℓ} {A : Type ℓ} (free : A → Bool) (name : A → List ℕ) where
  -- `ys` is `xs` with another element in slot `i`, neither of which has the name `m`.
  pub find_slot-other :
      {xs ys : List A} (i : ℕ) (x y : A) (m : List ℕ)
      → IsTable free name xs
      → IsTable free name ys
      → length m ≡ name_size
      → is_empty_name m ≡ false
      → get_elem? xs i ≡ some x
      → get_elem? ys i ≡ some y
      → name x ≢ m
      → name y ≢ m
      → ((j : ℕ) → i ≢ j → get_elem? ys j ≡ get_elem? xs j)
      → find_slot (is_named name m) ys ≡ find_slot (is_named name m) xs
  find_slot-other {xs} {ys} i x y m tx ty len full gx gy nx ny same =
      elim (Option-cases (find_slot (is_named name m) xs)) [
        | inr (j, e) ↦
            let (le, (z, gz, hit), _) = find_slot-some (is_named name m) xs j e in
            let q : m ≡ name z = is_named_eq free name tx m j z len gz hit in
            let ne : i ≢ j = λ p. nx (apart j z gz p ∙ sym q) in
            find_slot-is_named free name ty m j z len full le (same j ne ∙ gz) (sym q) ∙ sym e
        | inl e ↦
            find_slot-fresh free name ty m len (fresh (IsFresh-find_slot free name tx m len e))
            ∙ sym e
      ]
    where
      apart : (j : ℕ) (z : A) → get_elem? xs j ≡ some z → i ≡ j → name x ≡ name z
      apart j z gz p = let q : get_elem? xs j ≡ some x = rw (← p) gx in cc

      fresh : IsFresh free name m xs → IsFresh free name m ys
      fresh f j z le gz e = elim (ℕ_discrete i j) [
        | yes p ↦
            let q : get_elem? ys i ≡ some z = rw p gz in let r : name y ≡ name z = cc in ny (r ∙ e)
        | no ne ↦ f j z le (sym (same j ne) ∙ gz) e
      ]
