-- ===== src/Locks/Times.antt =====
-- The timeouts of src/linux/base_mutex.c: of a lock, and of a take of a semaphore.
use basearch.Prelude.{
  ℕ, zero, suc, ◌+◌, ◌-◌, ◌*◌, ◌/◌, ◌%◌, Option, none, some, ltb, ◌==◌, if◌then◌else◌,
}
use basearch.Locks.{ℤ, pos, negsuc, Code, e_internal, e_param, rc}

-- struct timespec
pub record Timespec : Type 0 where
  pub sec : ℕ
  pub nsec : ℕ

-- The nanoseconds of a second
abbrev pub second : ℕ
second = 1000000000

-- A time from now on, for a timeout that is not negative. The product of two `int`s overflows from
-- 3 * 1000000000 on, which has no defined result: `none`.
unfoldable pub fwk_ms_to_ts : ℕ → Timespec → Option Timespec
fwk_ms_to_ts timeout now =
    let s = now.sec + timeout / 1000 in
    let ns = now.nsec + timeout % 1000 * second in
    if ltb 2 (timeout % 1000)
    then none
    else (if ltb ns second
        then some (record { sec = s; nsec = ns })
        else some (record { sec = s + 1; nsec = ns - second }))

-- The call of the system that a lock makes.
pub data Lock : Type 0 where
  waits tries : Lock
  waits_until : Option Timespec → Lock

unfoldable pub fwk_lock_mutex : Timespec → Option ℕ → ℤ → Option Lock
fwk_lock_mutex now none timeout = none
fwk_lock_mutex now (some i) (negsuc n) = some waits
fwk_lock_mutex now (some i) (pos zero) = some tries
fwk_lock_mutex now (some i) (pos (suc n)) = some (waits_until (fwk_ms_to_ts (suc n) now))

-- The attempts of a take, 10 ms apart; `rcs i` is what the `i`-th returns.
unfoldable pub take_loop : ℕ → ℕ → (ℕ → ℕ) → Code → Code
take_loop zero i rcs last = last
take_loop (suc n) i rcs last =
    let rest = take_loop n (i + 1) rcs (rc (rcs i)) in if rcs i == 0 then rc 0 else rest

unfoldable pub fwk_take_semaphore : ℕ → (ℕ → ℕ) → Option ℕ → ℤ → Code
fwk_take_semaphore wait_rc rcs none timeout = e_param
fwk_take_semaphore wait_rc rcs (some i) (negsuc n) = rc wait_rc
fwk_take_semaphore wait_rc rcs (some i) (pos zero) = rc (rcs 0)
fwk_take_semaphore wait_rc rcs (some i) (pos (suc n)) = take_loop (suc n / 10) 0 rcs e_internal
