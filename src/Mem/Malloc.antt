-- ===== src/Mem/Malloc.antt =====
-- `base_mem_malloc` on every state of the pool.
use basearch.Prelude.{
  ℕ, ◌+◌, ◌%◌, ◌^◌, ◌≤◌, ◌<◌, ◌≡◌, refl, ◌∙◌, ◌≢◌, ◌⊎◌, inl, inr, List, [], ◌∷◌, arith,
  if◌then◌else◌, ◌==◌, leb, ==_iff, ==_refl, ◌&&◌, eq_false_of_ne, true, false, Bool, not, Option,
  some, none, length,
}
use native.Mathlib.Decide.{dec_lt, ℕ_discrete}
use basearch.Mem.Blocks.{Block, total}
use basearch.Mem.Fit.{Found, nothing, block, AllBelow, first_fit-Found}
use basearch.Mem.Valid.{Valid, outside-Avoids}
use basearch.Mem.Served.{Served, Served-weaken, served}
use basearch.Mem.{
  Mem, add32, first_fit, min_mem_size, take_block, struct_size, padded, null, malloc_locked,
}

-- Why a call returns NULL: nothing is asked for, too much, or more than any free block has.
abbrev pub Refused : ℕ → List Block → Type 0
Refused size bs = (size ≡ 0) ⊎ ((2 ^ 31 ≤ size) ⊎ AllBelow (padded size) bs)

pub padded_bounds :
    (size : ℕ)
    → size < 2 ^ 31
    → (size + struct_size ≤ padded size) × (padded size % min_mem_size ≡ 0)
padded_bounds size lt =
    let w : add32 size 16 ≡ size + 16 = omega arith in
    elim (ℕ_discrete ((size + 16) % 128) 0) [
      | yes e ↦
          let q : ((size + 16) % 128 == 0) ≡ true = (==_iff _ _).1 e in
          simp (w, q) (omega arith, omega arith)
      | no ne ↦
          let q : ((size + 16) % 128 == 0) ≡ false = eq_false_of_ne _ _ ne in
          simp (w, q) (omega arith, omega arith)
    ]

AllBelow-total : (size : ℕ) (bs : List Block) → total bs < size → AllBelow size bs
unfolding total
AllBelow-total size [] lt = tt
AllBelow-total size ((a, s) ∷ bs) lt = (omega arith, AllBelow-total size bs (omega arith))

leb-false : (a b : ℕ) → b < a → leb a b ≡ false
leb-false a b lt = ground arith

leb-true : (a b : ℕ) → a ≤ b → leb a b ≡ true
leb-true a b le = ground arith

pub and_false : (b : Bool) → (b && false) ≡ false
and_false true = refl
and_false false = refl

locked_zero : (fuel size : ℕ) (m : Mem) → size ≡ 0 → malloc_locked fuel size m ≡ some (null, m)
unfolding malloc_locked
locked_zero fuel size m e = let q : (size == 0) ≡ true = (==_iff _ _).1 e in rw (malloc_locked, q)

locked_low :
    (fuel size : ℕ) (m : Mem)
    → m.free_bytes < padded size
    → malloc_locked fuel size m ≡ some (null, m)
unfolding malloc_locked
locked_low fuel size m lt =
    let q : leb (padded size) m.free_bytes ≡ false = leb-false (padded size) m.free_bytes lt in
    rw (malloc_locked, q, and_false (not (size == 0)))

locked_search :
    (fuel size : ℕ) (m : Mem)
    → size ≢ 0
    → padded size ≤ m.free_bytes
    → malloc_locked fuel size m
      ≡ elim (first_fit fuel m.links m.start (m.links m.start).next (padded size)) [
        | none ↦ none
        | some (prev, cur) ↦
            if not (cur == m.mem_end)
            then take_block fuel (padded size) prev cur m
            else some (null, m)
      ]
unfolding malloc_locked
locked_search fuel size m ne le =
    let p : (size == 0) ≡ false = eq_false_of_ne _ _ ne in
    let q : leb (padded size) m.free_bytes ≡ true = leb-true (padded size) m.free_bytes le in
    rw (malloc_locked, p, q)

-- What the code under the semaphore may come to.
abbrev pub Outcome : ℕ → ℕ → List Block → Mem → Option (ℕ × Mem) → Type 0
Outcome lo size bs m r =
    ((r ≡ some (null, m)) × Refused size bs)
    ⊎ ((a : ℕ) × (m' : Mem) × (r ≡ some (a + struct_size, m'))
        × (m'.sem ≡ m.sem)
        × Served lo (size + struct_size) bs m a m')

module _ (fuel lo size : ℕ) (bs : List Block) (m : Mem) (few : length bs < fuel)
    (small : size < 2 ^ 31) (v : Valid lo bs m) where
  locked-Found :
      (prev cur : ℕ)
      → size ≢ 0
      → padded size ≤ m.free_bytes
      → first_fit fuel m.links m.start (m.links m.start).next (padded size) ≡ some (prev, cur)
      → Found m.links m.start (padded size) lo bs m.mem_end prev cur
      → Outcome lo size bs m (malloc_locked fuel size m)
  locked-Found prev cur nz le run (nothing all) = inl (
    locked_search fuel size m nz le
        ∙ (let q : (m.mem_end == m.mem_end) ≡ true = ==_refl m.mem_end in rw (run, q)),
    inr (inr all),
  )
  locked-Found prev cur nz le run (block s rest k z n ch ne) =
      let (large, _) = padded_bounds size small in
      let (m', runs, same, state) =
        served fuel lo (padded size) cur s prev bs rest m few v (omega (arith, large)) k z n ch
          (λ q ns av. ne q ns av) in
      let inside : cur ≢ m.mem_end = λ e. absurd (omega (arith, k.fits, k.pos)) in
      inr (
        cur,
        m',
        locked_search fuel size m nz le
            ∙ (let q : (cur == m.mem_end) ≡ false = eq_false_of_ne _ _ inside in rw (run, q))
            ∙ runs,
        same,
        Served-weaken lo (padded size) (size + 16) bs m cur m' large state,
      )

  pub locked : Outcome lo size bs m (malloc_locked fuel size m)
  locked = elim (ℕ_discrete size 0) [
    | yes e ↦ inl (locked_zero fuel size m e, inl e)
    | no ne ↦ elim (dec_lt m.free_bytes (padded size)) [
      | yes lt ↦ inl (
        locked_low fuel size m lt,
        inr (inr (AllBelow-total (padded size) bs (omega (arith, v.counted)))),
      )
      | no ge ↦
          let (large, _) = padded_bounds size small in
          let up = v.pool in
          let (prev, cur, run, found) =
            first_fit-Found m.links (padded size) m.mem_end up.end_size up.end_next
              (omega (arith, large)) (omega (arith, up.up, up.ends)) fuel m.start lo bs few up.up
              up.spaced (outside-Avoids m.start lo bs m.mem_end up.outside up.spaced) up.chain in
          locked-Found prev cur ne (omega arith) run found
    ]
  ]
