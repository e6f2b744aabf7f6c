-- ===== src/Registry/Keep.antt =====
-- Changes of the tables that the searches by name do not see.
use basearch.Prelude.{
  ℕ, ◌≡◌, refl, ap, subst, sym, ◌∙◌, inl, inr, Bool, false, some, List, length, get_elem?, modify,
  get_elem?-modify,
}
use basearch.Registry.Table.{IsTable, is_empty_name}
use basearch.Registry.Invariant.{IsRegistry}
use basearch.Registry.{TskEntry, Registry, tsk_free, tsk_name}

-- A change that leaves the names and the marks of the slots leaves a table.
pub modify-IsTable {ℓ} :
    {A : Type ℓ} (free : A → Bool) (name : A → List ℕ) (xs : List A) (k : ℕ) (f : A → A)
    → ((x : A) → free (f x) ≡ free x)
    → ((x : A) → name (f x) ≡ name x)
    → IsTable free name xs
    → IsTable free name (modify xs k f)
modify-IsTable {A} free name xs k f same_free same_name tab = record {
  sized = λ i y gy. let (x, gx, n, _) = old i y gy in ap length n ∙ tab.sized i x gx;
  blank = λ i y gy e. let (x, gx, n, u) = old i y gy in n ∙ tab.blank i x gx (sym u ∙ e);
  unique = λ i j y z le le' gy gz e full.
      let (x, gx, n, _) = old i y gy in
      let (x', gx', n', _) = old j z gz in
      tab.unique i j x x' le le' gx gx' (sym n ∙ e ∙ n')
        (subst (λ l. is_empty_name l ≡ false) n full);
}
  where
    old :
        (i : ℕ) (y : A)
        → get_elem? (modify xs k f) i ≡ some y
        → (x : A) × (get_elem? xs i ≡ some x) × (name y ≡ name x) × (free y ≡ free x)
    old i y gy = elim (get_elem?-modify xs k i f y gy) [
      | inl p ↦ (y, p.1, refl, refl)
      | inr (q, (x, gx, e)) ↦ (x, gx, ap name e ∙ same_name x, ap free e ∙ same_free x)
    ]

-- So is the registry when a task's entry changes in such a way.
pub modify-IsRegistry :
    (g : Registry) (i : ℕ) (f : TskEntry → TskEntry)
    → ((t : TskEntry) → tsk_free (f t) ≡ tsk_free t)
    → ((t : TskEntry) → tsk_name (f t) ≡ tsk_name t)
    → IsRegistry g
    → IsRegistry (record g { tsks = modify g.tsks i f })
modify-IsRegistry g i f same_free same_name reg = record {
  tsk_table = modify-IsTable tsk_free tsk_name g.tsks i f same_free same_name reg.tsk_table;
  sem_table = reg.sem_table;
  que_table = reg.que_table;
  sems_apart = reg.sems_apart;
  ques_apart = reg.ques_apart;
}
