-- ===== src/Sem/Values.antt =====
-- A value put at the address of a semaphore (src/linux/base_sem.c): the searches by name and the
-- invariant stay, and which values are read then.
use basearch.Prelude.{
  ℕ, zero, suc, if◌then◌else◌, ◌≤◌, ◌≡◌, refl, sym, ap, ◌∙◌, inl, inr, true, false, Option, none,
  some, List, [], ◌∷◌, arith, ◌==◌, ==_iff, eq_false_of_ne, Option-cases, get_elem?, modify,
}
use native.Mathlib.Decide.{ℕ_discrete}
use basearch.Registry.Slots.{find_slot, find_slot-some, find_slot-modify, find_slot-none_inv}
use basearch.Registry.Table.{is_named, slot_id}
use basearch.Registry.Keep.{modify-IsTable}
use basearch.Registry.Invariant.{IsRegistry, SemsApart, modify-SemsApart}
use basearch.Registry.Add.{IsName, find-sem}
use basearch.Registry.{
  SemEntry, Registry, sem_free, sem_name, sem_id_of, osix_sem, clear_first, base_task_info_find,
}
use basearch.Sem.{count_at, put_count, set_count}
use basearch.Sem.Count.{at_id, count_at-known, count_at-put_count, count_at-put_other}

slot_id-modify {ℓ} :
    {A : Type ℓ} (g : A → ℕ) (xs : List A) (k : ℕ) (f : A → A) (o : Option ℕ)
    → ((x : A) → g (f x) ≡ g x)
    → slot_id g (modify xs k f) o ≡ slot_id g xs o
slot_id-modify g xs k f none same = refl
slot_id-modify g [] k f (some j) same = refl
slot_id-modify g (x ∷ xs) zero f (some zero) same = ap some (same x)
slot_id-modify g (x ∷ xs) zero f (some (suc j)) same = refl
slot_id-modify g (x ∷ xs) (suc k) f (some zero) same = refl
slot_id-modify g (x ∷ xs) (suc k) f (some (suc j)) same = slot_id-modify g xs k f (some j) same

-- Putting a value leaves the registry as it is for the searches by name.
pub put_count-IsRegistry : (id n : ℕ) (g : Registry) → IsRegistry g → IsRegistry (put_count id n g)
unfolding put_count clear_first
put_count-IsRegistry id n g reg = elim (Option-cases (find_slot (λ s. s.sem_id == id) g.sems)) [
  | inl e ↦ rw (put_count, clear_first, e) reg
  | inr (k, e) ↦
      rw (put_count, clear_first, e)
        (record {
          tsk_table = reg.tsk_table;
          sem_table =
              modify-IsTable sem_free sem_name g.sems k (set_count n) (λ x. refl) (λ x. refl)
                reg.sem_table;
          que_table = reg.que_table;
          sems_apart = modify-SemsApart g.sems k (set_count n) (λ x. refl) reg.sems_apart;
          ques_apart = reg.ques_apart;
        })
]

pub put_count-info_find :
    (id n : ℕ) (m : List ℕ) (g : Registry)
    → IsName m
    → base_task_info_find 0 m osix_sem (put_count id n g) ≡ base_task_info_find 0 m osix_sem g
unfolding put_count clear_first is_named
put_count-info_find id n m g nm = elim (Option-cases (find_slot (λ s. s.sem_id == id) g.sems)) [
  | inl e ↦ rw (put_count, clear_first, e)
  | inr (k, e) ↦
      let same = find_slot-modify (is_named sem_name m) g.sems k (set_count n) (λ x. refl) in
      rw (put_count, clear_first, e)
        (find-sem m nm (record g { sems = modify g.sems k (set_count n) })
          ∙ slot_id-modify sem_id_of g.sems k (set_count n)
              (find_slot (is_named sem_name m) (modify g.sems k (set_count n))) (λ x. refl)
          ∙ ap (slot_id sem_id_of g.sems) same
          ∙ sym (find-sem m nm g))
]

-- The slot at an address is the one that its value is read from.
pub count_at-slot_at :
    (i : ℕ) (s : SemEntry) (g : Registry)
    → SemsApart g.sems
    → 1 ≤ i
    → get_elem? g.sems i ≡ some s
    → count_at s.sem_id g ≡ some s.count
count_at-slot_at i s g apart le gs =
    elim (Option-cases (find_slot (λ x. x.sem_id == s.sem_id) g.sems)) [
      | inl miss ↦
          let k = find_slot-none_inv (λ x. x.sem_id == s.sem_id) g.sems i s miss le gs in
          absurd (ground arith)
      | inr (j, at) ↦
          let (_, (x, gx, hit), _) = find_slot-some (λ x. x.sem_id == s.sem_id) g.sems j at in
          let k : j ≡ i = apart j i x s gx gs ((==_iff _ _).0 hit) in
          count_at-known s.sem_id i s g (at ∙ ap some k) gs
    ]

find-put_count :
    (a id n : ℕ) (g : Registry)
    → find_slot (at_id a) (put_count id n g).sems ≡ find_slot (at_id a) g.sems
unfolding put_count clear_first
find-put_count a id n g = elim (Option-cases (find_slot (at_id id) g.sems)) [
  | inl e ↦ rw (put_count, clear_first, e) refl
  | inr (k, e) ↦
      rw (put_count, clear_first, e) (find_slot-modify (at_id a) g.sems k (set_count n) (λ x. refl))
]

no_count : (a : ℕ) (g : Registry) → count_at a g ≡ none → find_slot (at_id a) g.sems ≡ none
no_count a g e = elim (Option-cases (find_slot (at_id a) g.sems)) [
  | inl miss ↦ miss
  | inr (i, at) ↦
      let (_, (x, gx, _), _) = find_slot-some (at_id a) g.sems i at in
      let k = count_at-known a i x g at gx in absurd (cc)
]

miss_count : (a : ℕ) (g : Registry) → find_slot (at_id a) g.sems ≡ none → count_at a g ≡ none
unfolding count_at
miss_count a g e = rw (count_at, e) refl

put_count-absent : (id n : ℕ) (g : Registry) → count_at id g ≡ none → put_count id n g ≡ g
unfolding put_count clear_first
put_count-absent id n g e = let m = no_count id g e in rw (put_count, clear_first, m) refl

-- The value of a semaphore after one is put: that one, if it was put there.
pub count_at-put :
    (a id n v : ℕ) (g : Registry)
    → count_at a (put_count id n g) ≡ some v
    → count_at a (put_count id n g) ≡ (if a == id then some n else count_at a g)
count_at-put a id n v g e = elim (Option-cases (count_at a g)) [
  | inl out ↦
      let m = miss_count a (put_count id n g) (find-put_count a id n g ∙ no_count a g out) in
      absurd (cc)
  | inr (k, at) ↦ elim (ℕ_discrete a id) [
    | yes q ↦
        let t : (a == id) ≡ true = (==_iff _ _).1 q in
        let p : count_at id g ≡ some k = ap (λ x. count_at x g) (sym q) ∙ at in
        rw t (ap (λ x. count_at x (put_count id n g)) q ∙ count_at-put_count id k n g p)
    | no ne ↦
        let t : (a == id) ≡ false = eq_false_of_ne _ _ ne in
        rw t (elim (Option-cases (count_at id g)) [
          | inl out ↦ ap (count_at a) (put_count-absent id n g out)
          | inr (k', at') ↦ count_at-put_other id a k' k n g (λ q. ne (sym q)) at' at ∙ sym at
        ])
  ]
]
