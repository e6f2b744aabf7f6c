-- ===== src/Registry/Invariant.antt =====
-- The invariant of the registry: the three tables are searched rightly by name, no two semaphore
-- slots share an address, and no slot before a queue in use has that queue's id.
use basearch.Prelude.{
  ℕ, ◌≤◌, ◌<◌, ◌≡◌, refl, sym, ◌∙◌, ◌≢◌, false, some, List, arith, get_elem?, get_elem?-map,
  get_elem?-modify, modify, inl, inr, true, length, length-map,
}
use basearch.Registry.Table.{IsTable, no_name}
use basearch.Registry.Update.{map-IsTable}
use basearch.Registry.{
  success, TskEntry, SemEntry, QueEntry, Registry, tsk_free, sem_free, que_free, tsk_name, sem_name,
  que_name, reset_tsk, reset_sem, reset_que, base_task_init,
}

-- Distinct slots hold distinct semaphores.
abbrev pub SemsApart : List SemEntry → Type 0
SemsApart xs =
    (i j : ℕ) (x y : SemEntry)
    → get_elem? xs i ≡ some x
    → get_elem? xs j ≡ some y
    → x.sem_id ≡ y.sem_id
    → i ≡ j

-- Before a queue in use no slot has its id, be it free or not.
abbrev pub QuesApart : List QueEntry → Type 0
QuesApart xs =
    (i j : ℕ) (x y : QueEntry)
    → 1 ≤ i
    → i < j
    → get_elem? xs i ≡ some x
    → get_elem? xs j ≡ some y
    → que_free y ≡ false
    → x.u4_rsc_id ≢ y.u4_rsc_id

pub record IsRegistry (g : Registry) : Type 0 where
  pub tsk_table : IsTable tsk_free tsk_name g.tsks
  pub sem_table : IsTable sem_free sem_name g.sems
  pub que_table : IsTable que_free que_name g.ques
  pub sems_apart : SemsApart g.sems
  pub ques_apart : QuesApart g.ques

-- A change of a semaphore's slot that leaves its address keeps the addresses apart.
pub modify-SemsApart :
    (xs : List SemEntry) (k : ℕ) (f : SemEntry → SemEntry)
    → ((s : SemEntry) → (f s).sem_id ≡ s.sem_id)
    → SemsApart xs
    → SemsApart (modify xs k f)
modify-SemsApart xs k f keep apart i j x y gx gy e =
    let (x', gx', ex) = before i x gx in
    let (y', gy', ey) = before j y gy in apart i j x' y' gx' gy' (ex ∙ e ∙ sym ey)
  where
    before :
        (m : ℕ) (z : SemEntry)
        → get_elem? (modify xs k f) m ≡ some z
        → (w : SemEntry) × (get_elem? xs m ≡ some w) × (w.sem_id ≡ z.sem_id)
    before m z gz = elim (get_elem?-modify xs k m f z gz) [
      | inl p ↦ (z, p.1, refl)
      | inr (q, (w, gw, e')) ↦ (w, gw, sym (rw e' (keep w)))
    ]

-- `base_task_init` makes the invariant hold.
pub init-IsRegistry :
    (ticks : ℕ) (g : Registry) → SemsApart g.sems → IsRegistry (base_task_init 0 ticks g).1
unfolding base_task_init
init-IsRegistry ticks g apart = record {
  tsk_table = map-IsTable tsk_free tsk_name g.tsks reset_tsk (λ _. refl);
  sem_table = map-IsTable sem_free sem_name g.sems reset_sem (λ _. refl);
  que_table = map-IsTable que_free que_name g.ques reset_que (λ _. refl);
  sems_apart = λ i j x y gx gy e.
      let (x', gx', ex) = get_elem?-map g.sems i reset_sem x gx in
      let (y', gy', ey) = get_elem?-map g.sems j reset_sem y gy in
      apart i j x' y' gx' gy' (ground arith);
  ques_apart = λ i j x y _ _ gx gy used.
      let (y', gy', ey) = get_elem?-map g.ques j reset_que y gy in ground arith;
}

-- Each slot of each table is free, without a name, and a task's has no events.
pub record IsReset (h : Registry) : Type 0 where
  pub tsks :
      (i : ℕ) (x : TskEntry)
      → get_elem? h.tsks i ≡ some x
      → (tsk_free x ≡ true) × (x.au1_name ≡ no_name) × (x.u4_events ≡ 0)
  pub sems :
      (i : ℕ) (x : SemEntry)
      → get_elem? h.sems i ≡ some x
      → (sem_free x ≡ true) × (x.au1_name ≡ no_name) × (x.u2_filler ≡ 0)
  pub ques :
      (i : ℕ) (x : QueEntry)
      → get_elem? h.ques i ≡ some x
      → (que_free x ≡ true) × (x.au1_name ≡ no_name) × (x.u2_filler ≡ 0)

init-IsReset : (ticks : ℕ) (g : Registry) → IsReset (base_task_init 0 ticks g).1
unfolding base_task_init
init-IsReset ticks g = record {
  tsks =
      λ i x gx. let (y, gy, e) = get_elem?-map g.tsks i reset_tsk x gx in rw e (refl, refl, refl);
  sems =
      λ i x gx. let (y, gy, e) = get_elem?-map g.sems i reset_sem x gx in rw e (refl, refl, refl);
  ques =
      λ i x gx. let (y, gy, e) = get_elem?-map g.ques i reset_que x gx in rw e (refl, refl, refl);
}

-- If the mutex can be made and no two semaphore slots share an address, `base_task_init` succeeds,
-- whatever the tables held: the invariant holds, each slot is free, without a name and with its
-- events and fillers zeroed, the tables have the slots that they had, and the start is noted.
pub init_lem :
    (ticks : ℕ) (g : Registry)
    → SemsApart g.sems
    → (h : Registry) × (base_task_init 0 ticks g ≡ (success, h))
      × IsRegistry h
      × IsReset h
      × (h.start_ticks ≡ ticks)
      × ((length h.tsks ≡ length g.tsks)
          × (length h.sems ≡ length g.sems)
          × (length h.ques ≡ length g.ques))
unfolding base_task_init
init_lem ticks g apart = (
  (base_task_init 0 ticks g).1,
  refl,
  init-IsRegistry ticks g apart,
  init-IsReset ticks g,
  refl,
  (length-map g.tsks reset_tsk, length-map g.sems reset_sem, length-map g.ques reset_que),
)
