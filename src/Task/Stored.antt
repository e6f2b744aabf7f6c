-- ===== src/Task/Stored.antt =====
-- The registry reads the first `name_size` bytes of the name that base_task_create passes.
use basearch.Prelude.{
  ℕ, zero, suc, ◌≡◌, refl, sym, ap, ◌∙◌, List, [], ◌∷◌, ◌==◌, take, memcmp_eq, read_bytes, ◌&&◌,
  modify,
}
use basearch.Registry.Slots.{find_slot-same, find_slot-modify}
use basearch.Registry.Table.{name_size, is_empty_name, is_named, add_slot}
use basearch.Registry.Add.{IsName, find-tsk}
use basearch.Registry.{
  TskEntry, Registry, osix_tsk, tsk_name, tsk_free, base_task_info_find, base_task_info_add, added,
}

memcmp_eq-take : (n : ℕ) (a b : List ℕ) → memcmp_eq n (take n a) b ≡ memcmp_eq n a b
unfolding memcmp_eq
memcmp_eq-take zero a b = refl
memcmp_eq-take (suc n) [] b = refl
memcmp_eq-take (suc n) (x ∷ a) [] = refl
memcmp_eq-take (suc n) (x ∷ a) (y ∷ b) = ap (λ t. (x == y) && t) (memcmp_eq-take n a b)

take-take : (n : ℕ) (a : List ℕ) → take n (take n a) ≡ take n a
take-take zero a = refl
take-take (suc n) [] = refl
take-take (suc n) (x ∷ a) = ap (λ l. x ∷ l) (take-take n a)

is_empty-take : (a : List ℕ) → is_empty_name (take name_size a) ≡ is_empty_name a
unfolding is_empty_name
is_empty-take [] = refl
is_empty-take (x ∷ a) = refl

named-take :
    (a : List ℕ) (t : TskEntry) → is_named tsk_name (take name_size a) t ≡ is_named tsk_name a t
unfolding is_named
named-take a t = memcmp_eq-take name_size a t.au1_name

pub info_find-take :
    (a : List ℕ) (g : Registry)
    → base_task_info_find 0 a osix_tsk g ≡ base_task_info_find 0 (take name_size a) osix_tsk g
unfolding base_task_info_find
info_find-take a g = rw (
  is_empty-take a,
  find_slot-same (is_named tsk_name (take name_size a)) (is_named tsk_name a) g.tsks (named-take a),
)

pub info_add-take :
    (a : List ℕ) (id : ℕ) (g : Registry)
    → base_task_info_add 0 a osix_tsk id g ≡ base_task_info_add 0 (take name_size a) osix_tsk id g
unfolding base_task_info_add read_bytes
info_add-take a id g =
    ap
      (λ (l : List ℕ).
        added g (λ xs. record g { tsks = xs })
          (add_slot tsk_free (λ t. record t { u4_events = 0; u2_free = 0; au1_name = l }) g.tsks))
      (sym (take-take name_size a))

-- A change of an entry that leaves its name leaves the searches by name.
pub info_find-modify :
    (m : List ℕ) (g : Registry) (i : ℕ) (f : TskEntry → TskEntry)
    → IsName m
    → ((t : TskEntry) → tsk_name (f t) ≡ tsk_name t)
    → base_task_info_find 0 m osix_tsk (record g { tsks = modify g.tsks i f })
      ≡ base_task_info_find 0 m osix_tsk g
unfolding is_named
info_find-modify m g i f nm same =
    find-tsk m nm (record g { tsks = modify g.tsks i f })
    ∙ find_slot-modify (is_named tsk_name m) g.tsks i f (λ t. ap (memcmp_eq name_size m) (same t))
    ∙ sym (find-tsk m nm g)
