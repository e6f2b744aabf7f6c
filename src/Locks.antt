-- ===== src/Locks.antt =====
-- The fixed tables of mutexes and conditions of src/linux/base_mutex.c. A pointer to an entry is
-- its index, and NULL is `none`; a table is a list of entries. What the calls of the system return
-- is an argument, 0 for success. The counts are `int`s, read as integers.
pub mod Semas
pub mod Tables
pub mod Times
pub mod Waits
use basearch.Prelude.{
  ℕ, zero, suc, ◌+◌, ◌/◌, ◌%◌, Bool, true, false, not, ◌&&◌, ◌||◌, Option, none, some, List, [],
  ◌∷◌, ◌++◌, ltb, ◌==◌, if◌then◌else◌, modify, replicate,
}
use basearch.Registry.Slots.{scan}
use basearch.TimerTable.{strcmp_eq}

-- An `int`. `negsuc n` is -(n + 1).
pub data ℤ : Type 0 where
  pos : ℕ → ℤ
  negsuc : ℕ → ℤ

abbrev pub is_negative : ℤ → Bool
is_negative (pos n) = false
is_negative (negsuc n) = true

-- `++n` and `--n`
unfoldable pub succ : ℤ → ℤ
succ (pos n) = pos (suc n)
succ (negsuc zero) = pos 0
succ (negsuc (suc n)) = negsuc n

unfoldable pub pred : ℤ → ℤ
pred (pos zero) = negsuc 0
pred (pos (suc n)) = pos n
pred (negsuc n) = negsuc (suc n)

-- What is returned: an error of the library, or what the system returned.
pub data Code : Type 0 where
  e_full e_internal e_param : Code
  rc : ℕ → Code

-- EINVAL
abbrev pub einval : ℕ
einval = 22

-- `%i` of a number of the size of an index.
unfoldable pub digits : ℕ → ℕ → List ℕ
digits zero n = []
digits (suc fuel) n =
    let rest = digits fuel (n / 10) in
    if ltb n 10 then (48 + n) ∷ [] else rest ++ (48 + n % 10) ∷ []

-- fwk_mutexAttr_t
pub record MutexAttr : Type 0 where
  pub name : List ℕ
  pub pshared : ℕ
  pub type : ℕ
  pub protocol : ℕ
  pub prioceiling : ℕ
  pub robust : ℕ
  pub robust_np : ℕ

-- fwk_mutexList_t, but for the system's mutex
pub record MutexEntry : Type 0 where
  pub attr : MutexAttr
  pub used : Bool

pub record Mutexes : Type 0 where
  pub list : List MutexEntry
  pub count : ℤ

-- "Mutex" and the index, as `sprintf` writes them.
abbrev pub mutex_name : ℕ → List ℕ
mutex_name i = 77 ∷ 117 ∷ 116 ∷ 101 ∷ 120 ∷ digits 9 i

abbrev pub no_mutex : MutexEntry
no_mutex = record {
  attr = record {
    name = replicate 8 0;
    pshared = 0;
    type = 0;
    protocol = 0;
    prioceiling = 0;
    robust = 0;
    robust_np = 0;
  };
  used = false;
}

-- The attributes that a mutex gets without any given: all are 0 but the name and the ceiling.
unfoldable pub mutex_attr : ℕ → ℕ → Option MutexAttr → MutexAttr
mutex_attr ceiling i (some a) = a
mutex_attr ceiling i none = record {
  name = mutex_name i;
  pshared = 0;
  type = 0;
  protocol = 0;
  prioceiling = ceiling;
  robust = 0;
  robust_np = 0;
}

-- What the system returns in a creation, and the default ceiling.
pub record MutexWorld : Type 0 where
  pub ceiling : ℕ
  pub init_rc : ℕ
  pub attr_destroy_rc : ℕ

-- What is returned, and what `*pMid` is set to, if it is.
unfoldable pub fwk_create_mutex :
    MutexWorld → Option MutexAttr → Mutexes → Code × Option ℕ × Mutexes
fwk_create_mutex w attr t = elim (scan (λ e. not e.used) t.list 0) [
  | none ↦ (e_full, none, t)
  | some i ↦
      if not (w.init_rc == 0)
      then (e_internal, none, record t { list = modify t.list i (λ e. no_mutex) })
      else (
        rc w.attr_destroy_rc,
        some i,
        record {
          list = modify t.list i (λ e. record { attr = mutex_attr w.ceiling i attr; used = true });
          count = succ t.count;
        },
      )
]

-- The locking and unlocking, then the destruction of the system's mutex.
unfoldable pub fwk_delete_mutex :
    (lock_rc unlock_rc destroy_rc : ℕ) → Option ℕ → Mutexes → Code × Mutexes
fwk_delete_mutex lock_rc unlock_rc destroy_rc none t = (e_param, t)
fwk_delete_mutex lock_rc unlock_rc destroy_rc (some i) t =
    let r = if lock_rc == 0 then unlock_rc else lock_rc in
    if (r == 0) || (r == einval)
    then (if destroy_rc == 0
        then (
          rc 0,
          record { list = modify t.list i (λ e. record e { used = false }); count = pred t.count },
        )
        else (e_internal, t))
    else (rc r, t)

-- The first entry in use whose name is that one.
unfoldable pub fwk_mutex_id : List ℕ → Mutexes → Option ℕ
fwk_mutex_id name t = scan (λ e. e.used && strcmp_eq e.attr.name name) t.list 0

-- fwk_condAttr_t and fwk_condList_t, but for the system's condition
pub record CondAttr : Type 0 where
  pub name : List ℕ
  pub pshared : ℕ
  pub clock : ℕ

pub record CondEntry : Type 0 where
  pub attr : CondAttr
  pub used : Bool

pub record Conds : Type 0 where
  pub list : List CondEntry
  pub count : ℤ

abbrev pub no_cond : CondEntry
no_cond = record { attr = record { name = replicate 8 0; pshared = 0; clock = 0 }; used = false }

abbrev pub cond_name : ℕ → List ℕ
cond_name i = 67 ∷ 111 ∷ 110 ∷ 100 ∷ digits 9 i

-- CLOCK_REALTIME is 0.
unfoldable pub cond_attr : ℕ → Option CondAttr → CondAttr
cond_attr i (some a) = a
cond_attr i none = record { name = cond_name i; pshared = 0; clock = 0 }

-- If the system's condition cannot be made, the zeroed entry's mutex, NULL, is deleted in vain.
unfoldable pub fwk_create_cond :
    (init_rc attr_destroy_rc : ℕ) → Option CondAttr → Conds → Code × Option ℕ × Conds
fwk_create_cond init_rc attr_destroy_rc attr t = elim (scan (λ e. not e.used) t.list 0) [
  | none ↦ (e_full, none, t)
  | some i ↦
      if not (init_rc == 0)
      then (e_internal, none, record t { list = modify t.list i (λ e. no_cond) })
      else (
        rc attr_destroy_rc,
        some i,
        record {
          list = modify t.list i (λ e. record { attr = cond_attr i attr; used = true });
          count = succ t.count;
        },
      )
]

unfoldable pub fwk_delete_cond : ℕ → Option ℕ → Conds → Code × Conds
fwk_delete_cond destroy_rc none t = (e_param, t)
fwk_delete_cond destroy_rc (some i) t = (
  rc destroy_rc,
  record { list = modify t.list i (λ e. record e { used = false }); count = pred t.count },
)

unfoldable pub fwk_cond_id : List ℕ → Conds → Option ℕ
fwk_cond_id name t = scan (λ e. e.used && strcmp_eq e.attr.name name) t.list 0
