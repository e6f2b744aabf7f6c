-- ===== src/Locks/Semas.antt =====
-- The table of semaphores of src/linux/base_mutex.c.
use basearch.Prelude.{
  ℕ, Bool, true, false, not, Option, none, some, List, [], ◌∷◌, ◌==◌, if◌then◌else◌, get_elem?,
  modify, replicate, take,
}
use basearch.Registry.Slots.{scan}
use basearch.TimerTable.{strcmp_eq}
use basearch.Locks.{
  ℤ, pos, negsuc, is_negative, succ, pred, Code, e_full, e_internal, e_param, rc, digits,
}

-- fwk_sema4Attr_t
pub record Sema4Attr : Type 0 where
  pub name : List ℕ
  pub pshared : ℤ
  pub value : ℕ

-- fwk_sema4List_t, with the value of the system's semaphore
pub record Sema4Entry : Type 0 where
  pub attr : Sema4Attr
  pub used : Bool
  pub units : ℕ

pub record Semas : Type 0 where
  pub list : List Sema4Entry
  pub count : ℤ

abbrev pub no_sema : Sema4Entry
no_sema = record {
  attr = record { name = replicate 16 0; pshared = pos 0; value = 0 };
  used = false;
  units = 0;
}

abbrev pub sema_name : ℕ → List ℕ
sema_name i = 83 ∷ 101 ∷ 109 ∷ 97 ∷ digits 9 i

unfoldable pub sema_attr : ℕ → Option Sema4Attr → Sema4Attr
sema_attr i (some a) = a
sema_attr i none = record { name = sema_name i; pshared = pos 0; value = 0 }

-- The system's semaphore is made from the entry's attributes, which were just zeroed, so that it is
-- never a named one; what the caller gives is copied after that.
unfoldable pub fwk_create_semaphore : ℕ → Option Sema4Attr → Semas → Code × Option ℕ × Semas
fwk_create_semaphore init_rc attr t = elim (scan (λ e. not e.used) t.list 0) [
  | none ↦ (e_full, none, t)
  | some i ↦
      if not (init_rc == 0)
      then (e_internal, none, record t { list = modify t.list i (λ e. no_sema) })
      else (
        rc init_rc,
        some i,
        record {
          list =
              modify t.list i
                (λ e. record { attr = sema_attr i attr; used = true; units = no_sema.attr.value });
          count = succ t.count;
        },
      )
]

-- `sem_unlink`, after `sem_close`, of a semaphore that is shared by name, `sem_destroy` of another.
unfoldable pub fwk_delete_semaphore : (unlink_rc destroy_rc : ℕ) → Option ℕ → Semas → Code × Semas
fwk_delete_semaphore unlink_rc destroy_rc none t = (e_param, t)
fwk_delete_semaphore unlink_rc destroy_rc (some i) t = (
  rc (elim (get_elem? t.list i) [
    | none ↦ destroy_rc
    | some e ↦ if is_negative e.attr.pshared then unlink_rc else destroy_rc
  ]),
  record { list = modify t.list i (λ e. record e { used = false }); count = pred t.count },
)

-- The first entry of the name among those below the count, in use or not.
unfoldable pub below : ℤ → List Sema4Entry → List Sema4Entry
below (pos n) xs = take n xs
below (negsuc n) xs = []

unfoldable pub fwk_semaphore_id : List ℕ → Semas → Option ℕ
fwk_semaphore_id name t = scan (λ e. strcmp_eq e.attr.name name) (below t.count t.list) 0
