-- ===== src/Mem/Api.antt =====
-- The contract of `base_mem_malloc`, with `base_mem_free` after it.
use basearch.Prelude.{
  ℕ, ◌+◌, ◌%◌, ◌^◌, ◌≤◌, ◌<◌, ◌≡◌, sym, ap, ap₂, ◌∙◌, ◌≢◌, inl, inr, List, arith, ◌==◌, ==_iff,
  eq_false_of_ne, true, false, not, Option, some, none, length, subst,
}
use native.Mathlib.Decide.{dec_lt}
use basearch.Mem.Blocks.{Block}
use basearch.Mem.Valid.{Valid}
use basearch.Mem.Served.{Served-post, Valid-wait}
use basearch.Mem.Malloc.{Outcome, locked, padded_bounds, and_false}
use basearch.Mem.Free.{free-Valid}
use basearch.Mem.{
  Mem, test_bit, padded, null, malloc_locked, posted, base_mem_malloc, sem_wait, sem_post,
  base_mem_free, malloc_held,
}

malloc_ready :
    (pool rc fuel size : ℕ) (m : Mem)
    → 0 < m.mem_end
    → base_mem_malloc pool rc fuel size m ≡ malloc_held fuel size (sem_wait m)
unfolding base_mem_malloc
malloc_ready pool rc fuel size m up =
    let q : (m.mem_end == 0) ≡ false = eq_false_of_ne _ _ (λ e. absurd (omega arith)) in rw q

held_small :
    (fuel size : ℕ) (m : Mem)
    → m.allocated_bit ≡ 2 ^ 31
    → size < 2 ^ 31
    → malloc_held fuel size m ≡ posted (malloc_locked fuel size m)
unfolding malloc_held
held_small fuel size m bit small =
    let t : test_bit size (2 ^ 31) ≡ false = ground arith in
    let t' : test_bit size m.allocated_bit ≡ false = rw (bit, t) in
    let p : (padded size % 128 == 0) ≡ true = (==_iff _ _).1 ((padded_bounds size small).1) in
    rw (malloc_held, t', p, and_false (not (size == 0)))

held_big :
    (fuel size : ℕ) (m : Mem)
    → m.allocated_bit ≡ 2 ^ 31
    → 2 ^ 31 ≤ size
    → size < 2 ^ 32
    → malloc_held fuel size m ≡ some (null, sem_post m)
unfolding malloc_held
held_big fuel size m bit big width =
    let t : test_bit size (2 ^ 31) ≡ true = ground arith in
    let t' : test_bit size m.allocated_bit ≡ true = rw (bit, t) in rw (malloc_held, t')

-- `base_mem_malloc` of `size` bytes on an initialised pool, with fuel for every free block, ends
-- with the semaphore given back. Either it returns NULL and changes nothing, which it does only if
-- the size is 0, has the top bit set, or with its header, rounded up to a multiple of 128, is
-- larger than every free block; or it returns the address behind the header of a block of at least
-- that size, which was free, is marked, and shares no byte with what is left free nor with what
-- was allocated before; putting it back would give the old list of free blocks.
pub malloc-Outcome :
    (pool rc fuel lo size : ℕ) (bs : List Block) (m : Mem)
    → length bs < fuel
    → size < 2 ^ 32
    → Valid lo bs m
    → 0 < m.sem
    → Outcome lo size bs m (base_mem_malloc pool rc fuel size m)
malloc-Outcome pool rc fuel lo size bs m few width v free_sem = elim (dec_lt size (2 ^ 31)) [
  | no ge ↦ inl (
    ready ∙ held_big fuel size (sem_wait m) v.bit (omega arith) width ∙ ap (λ x. some (0, x)) back,
    inr (inl (omega arith)),
  )
  | yes lt ↦ elim (locked fuel lo size bs (sem_wait m) few lt (Valid-wait lo bs m v)) [
    | inl (r, why) ↦ inl (
      ready ∙ held_small fuel size (sem_wait m) v.bit lt ∙ ap posted r ∙ ap (λ x. some (0, x)) back,
      why,
    )
    | inr (a, m', r, same, state) ↦ inr (
      a,
      sem_post m',
      ready ∙ held_small fuel size (sem_wait m) v.bit lt ∙ ap posted r,
      omega arith,
      Served-post lo (size + 16) bs m a m' state,
    )
  ]
]
  where
    ready : base_mem_malloc pool rc fuel size m ≡ malloc_held fuel size (sem_wait m)
    ready = malloc_ready pool rc fuel size m (omega (arith, v.pool.up, v.pool.ends))

    back : sem_post (sem_wait m) ≡ m
    back = ap (λ n. record m { sem = n }) (omega arith)

-- The address and the state of a call that ends.
abbrev pub outcome_of : Option (ℕ × Mem) → ℕ × Mem → ℕ × Mem
outcome_of none d = d
outcome_of (some r) d = r

-- `base_mem_free` on what `base_mem_malloc` has returned, with the same fuel, ends in a state of
-- the pool with the free blocks, the count of free bytes and the semaphore of before the two
-- calls.
pub malloc-free :
    (pool rc fuel lo size : ℕ) (bs : List Block) (m : Mem) (p : ℕ) (m' : Mem)
    → length bs < fuel
    → size < 2 ^ 32
    → Valid lo bs m
    → 0 < m.sem
    → base_mem_malloc pool rc fuel size m ≡ some (p, m')
    → p ≢ null
    → (m'' : Mem) × (base_mem_free fuel p m' ≡ some m'')
      × Valid lo bs m''
      × (m''.free_bytes ≡ m.free_bytes)
      × (m''.sem ≡ m.sem)
malloc-free pool rc fuel lo size bs m p m' few width v free_sem run np =
    elim (malloc-Outcome pool rc fuel lo size bs m few width v free_sem) [
      | inl (r, why) ↦ absurd (np (ap (λ o. (outcome_of o (p, m')).0) (sym run ∙ r)))
      | inr (a, n, r, same, state) ↦
          let at : p ≡ a + 16 = ap (λ o. (outcome_of o (p, m')).0) (sym run ∙ r) in
          let st : n ≡ m' = ap (λ o. (outcome_of o (p, m')).1) (sym r ∙ run) in
          let (m'', freed, v', same', others) =
            free-Valid fuel lo a state.given state.left n (omega (arith, state.few)) state.valid
              state.allocated (omega arith) in
          let v'' : Valid lo bs m'' = subst (λ l. Valid lo l m'') state.back v' in
          (
            m'',
            ap₂ (base_mem_free fuel) at (sym st) ∙ freed,
            v'',
            v''.counted ∙ sym v.counted,
            same' ∙ same,
          )
    ]
