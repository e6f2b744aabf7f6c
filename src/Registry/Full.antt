-- ===== src/Registry/Full.antt =====
-- When `base_task_info_add` fails.
use basearch.Prelude.{
  ℕ, zero, suc, ◌≤◌, ◌≡◌, refl, ap, ◌≢◌, ◌↔◌, Bool, false, none, some, List, arith, get_elem?, ◌⊎◌,
  inl, inr, Option-cases,
}
use basearch.Registry.Slots.{find_slot-none}
use basearch.Registry.Table.{add_slot}
use basearch.Registry.Update.{add_slot-none}
use basearch.Registry.{
  success, failure, Registry, tsk_free, sem_free, que_free, fill_tsk, fill_sem, fill_que, added,
  base_task_info_add,
}

abbrev pub NoFree {ℓ} : {A : Type ℓ} → (A → Bool) → List A → Type ℓ
NoFree {A} free xs = (i : ℕ) (x : A) → 1 ≤ i → get_elem? xs i ≡ some x → free x ≡ false

-- No slot of the kind is free. A kind that the code does not know has no slots.
abbrev pub AllUsed : ℕ → Registry → Type 0
AllUsed zero g = NoFree tsk_free g.tsks
AllUsed (suc zero) g = NoFree sem_free g.sems
AllUsed (suc (suc zero)) g = NoFree que_free g.ques
AllUsed (suc (suc (suc k))) g = Unit

add_slot-full {ℓ} :
    {A : Type ℓ} (free : A → Bool) (fill : A → A) (xs : List A)
    → NoFree free xs
    → add_slot free fill xs ≡ none
unfolding add_slot
add_slot-full free fill xs h = rw (find_slot-none free xs h, add_slot)

-- A scan that finds room is a success, and one that finds none leaves the registry as it is.
added_iff {ℓ} :
    {A : Type ℓ} (free : A → Bool) (fill : A → A) (xs : List A) (g : Registry)
    (put : List A → Registry)
    → (((added g put (add_slot free fill xs)).0 ≡ failure) ↔ NoFree free xs)
      × (NoFree free xs → added g put (add_slot free fill xs) ≡ (failure, g))
added_iff free fill xs g put = ((fails, λ h. ap₀ (full h)), full)
  where
    full : NoFree free xs → added g put (add_slot free fill xs) ≡ (failure, g)
    full h = rw (add_slot-full free fill xs h)

    ap₀ :
        added g put (add_slot free fill xs) ≡ (failure, g)
        → (added g put (add_slot free fill xs)).0 ≡ failure
    ap₀ e = rw e

    fails : (added g put (add_slot free fill xs)).0 ≡ failure → NoFree free xs
    fails h = elim (Option-cases (add_slot free fill xs)) [
      | inl e ↦ λ i x le gx. add_slot-none free xs fill i x e le gx
      | inr (ys, e) ↦ let q : (added g put (add_slot free fill xs)).0 ≡ success = rw e in cc
    ]

module _ (n : List ℕ) (id : ℕ) (g : Registry) where
  -- Under the mutex the kind's scan decides.
  locked_failure :
      (ty : ℕ)
      → (((base_task_info_add 0 n ty id g).0 ≡ failure) ↔ AllUsed ty g)
        × (AllUsed ty g → base_task_info_add 0 n ty id g ≡ (failure, g))
  unfolding base_task_info_add
  locked_failure zero = added_iff tsk_free (fill_tsk n) g.tsks g (λ xs. record g { tsks = xs })
  locked_failure (suc zero) =
      added_iff sem_free (fill_sem n) g.sems g (λ xs. record g { sems = xs })
  locked_failure (suc (suc zero)) =
      added_iff que_free (fill_que n id) g.ques g (λ xs. record g { ques = xs })
  locked_failure (suc (suc (suc k))) = ground arith

  unlocked_failure : (lock ty : ℕ) → lock ≢ 0 → base_task_info_add lock n ty id g ≡ (failure, g)
  unfolding base_task_info_add
  unlocked_failure lock ty ne = ground arith

  -- An addition that can take the mutex fails exactly when no slot of the kind is free, one that
  -- cannot take it fails, and an addition that fails changes nothing.
  pub info_add_failure :
      (lock ty : ℕ)
      → (((base_task_info_add lock n ty id g).0 ≡ failure) ↔ ((lock ≢ 0) ⊎ AllUsed ty g))
        × ((base_task_info_add lock n ty id g).0 ≡ failure
            → (base_task_info_add lock n ty id g).1 ≡ g)
  info_add_failure zero ty =
      let (iff, all) = locked_failure ty in
      (
        (λ h. inr (iff.0 h), λ c. elim c [ inl ne ↦ absurd (ne refl) | inr used ↦ iff.1 used ]),
        λ h. ap (λ r. r.1) (all (iff.0 h)),
      )
  info_add_failure (suc lock) ty =
      let out = unlocked_failure (suc lock) ty (λ e. omega arith) in
      ((λ h. inl (λ e. omega arith), λ c. ap (λ r. r.0) out), λ h. ap (λ r. r.1) out)
