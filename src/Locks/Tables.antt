-- ===== src/Locks/Tables.antt =====
-- The tables of src/linux/base_mutex.c: a mutex created and found by its name, and how many are
-- in use.
use basearch.Prelude.{
  ℕ, zero, suc, ◌+◌, ◌≡◌, ◌≢◌, refl, sym, ap, ◌∙◌, inl, inr, true, false, not, ◌&&◌, none, some,
  List, [], ◌∷◌, arith, subst, ◌==◌, if◌then◌else◌, Bool-cases, Option-cases, get_elem?, modify,
  get_elem?-modify_self, get_elem?-modify_ne,
}
use native.Mathlib.Nat.{zero-add}
use basearch.Registry.Slots.{scan, scan-some, scan-first, scan-none_inv}
use basearch.TimerTable.{text, strcmp_eq}
use basearch.TimerTable.Text.{same_chars_refl, scan-modify_at, differs}
use basearch.Locks.{
  pos, succ, Code, rc, e_full, MutexAttr, MutexEntry, Mutexes, MutexWorld, mutex_attr,
  fwk_create_mutex, fwk_mutex_id,
}

-- The entries in use
unfoldable pub in_use : List MutexEntry → ℕ
in_use [] = 0
in_use (e ∷ es) = (if e.used then 1 else 0) + in_use es

in_use-taken :
    (xs : List MutexEntry) (i : ℕ) (f : MutexEntry → MutexEntry) (e : MutexEntry)
    → get_elem? xs i ≡ some e
    → e.used ≡ false
    → (f e).used ≡ true
    → in_use (modify xs i f) ≡ suc (in_use xs)
unfolding in_use
in_use-taken [] i f e g u w = cc
in_use-taken (x ∷ xs) zero f e g u w =
    let q : (f x).used ≡ true = ground arith in
    let p : x.used ≡ false = ground arith in rw (q, p) (omega arith)
in_use-taken (x ∷ xs) (suc i) f e g u w = omega (arith, in_use-taken xs i f e g u w)

-- The entry that a creation takes.
abbrev made : MutexWorld → MutexAttr → Mutexes → ℕ → Mutexes
made w a t i = record {
  list = modify t.list i (λ e. record { attr = a; used = true });
  count = succ t.count;
}

creates_at :
    (w : MutexWorld) (a : MutexAttr) (t t' : Mutexes) (c : Code) (i : ℕ)
    → fwk_create_mutex w (some a) t ≡ (c, some i, t')
    → (scan (λ e. not e.used) t.list 0 ≡ some i) × (t' ≡ made w a t i)
unfolding fwk_create_mutex mutex_attr
creates_at w a t t' c i run = elim (Option-cases (scan (λ e. not e.used) t.list 0)) [
  | inl miss ↦
      let k : fwk_create_mutex w (some a) t ≡ (e_full, none, t) = rw (fwk_create_mutex, miss) in
      absurd (ground arith)
  | inr (j, at) ↦ elim (Bool-cases (w.init_rc == 0)) [
    | inr e ↦
        let k = fwk_create_mutex w (some a) t in
        let z : k.1 ≡ none = rw (fwk_create_mutex, at, e) in absurd (ground arith)
    | inl e ↦
        let k : fwk_create_mutex w (some a) t ≡ (rc w.attr_destroy_rc, some j, made w a t j) =
          rw (fwk_create_mutex, at, e) in
        let same : j ≡ i = ground arith in
        (at ∙ ap some same, ap (λ p. p.2) (sym run ∙ k) ∙ ap (made w a t) same)
  ]
]

-- A mutex that is created with a name that no mutex in use has: the search by that name finds it,
-- the search by a different name finds what it found before, and a count that was that of the
-- mutexes in use still is.
pub create_mutex-id :
    (w : MutexWorld) (a : MutexAttr) (other : List ℕ) (t t' : Mutexes) (c : Code) (i : ℕ)
    → fwk_create_mutex w (some a) t ≡ (c, some i, t')
    → fwk_mutex_id a.name t ≡ none
    → text a.name ≢ text other
    → t.count ≡ pos (in_use t.list)
    → (fwk_mutex_id a.name t' ≡ some i)
      × (fwk_mutex_id other t' ≡ fwk_mutex_id other t)
      × (t'.count ≡ pos (in_use t'.list))
unfolding fwk_mutex_id succ
create_mutex-id w a other t t' c i run free differ counted =
    let (at, made_eq) = creates_at w a t t' c i run in
    let (k, q, (e, g, u), _) = scan-some (λ e. not e.used) t.list 0 i at in
    let same : k ≡ i = omega arith in
    let here = subst (λ x. get_elem? t.list x ≡ some e) same g in
    let unused : e.used ≡ false = ground arith in
    let f : MutexEntry → MutexEntry = λ e. record { attr = a; used = true } in
    let taken = get_elem?-modify_self t.list i f e here in
    let ours : scan (λ e. e.used && strcmp_eq e.attr.name a.name) (modify t.list i f) 0 ≡ some i =
      scan-first (λ e. e.used && strcmp_eq e.attr.name a.name) (modify t.list i f) 0 i (f e) taken
        (same_chars_refl (text a.name))
        (λ j x lt gx.
          scan-none_inv (λ e. e.used && strcmp_eq e.attr.name a.name) t.list 0 j x free
            (sym (get_elem?-modify_ne t.list i j f (λ z. absurd (omega arith))) ∙ gx))
      ∙ ap some (zero-add i) in
    let not_other : (e.used && strcmp_eq e.attr.name other) ≡ false = rw unused in
    let theirs =
      scan-modify_at (λ e. e.used && strcmp_eq e.attr.name other) t.list 0 i f e here
        (differs a.name other differ ∙ sym not_other) in
    let more = in_use-taken t.list i f e here unused refl in
    let sum : succ t.count ≡ pos (in_use (modify t.list i f)) =
      ap succ counted ∙ ap pos (sym more) in
    subst
      (λ u.
        (fwk_mutex_id a.name u ≡ some i)
        × (fwk_mutex_id other u ≡ fwk_mutex_id other t)
        × (u.count ≡ pos (in_use u.list)))
      (sym made_eq) (ours, theirs, sum)
