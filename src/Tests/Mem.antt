-- ===== src/Tests/Mem.antt =====
-- A pool at 1000 with an allocated block of 128 bytes between two free ones
-- (src/linux/base_mem.c), and the pool that `base_mem_init` makes.
use basearch.Prelude.{
  ℕ, ◌≡◌, refl, ◌+◌, ◌^◌, ◌≤◌, ◌≢◌, ◌⊎◌, inl, inr, List, [], ◌∷◌, some, none, Option, arith, ◌%◌,
  write_bytes, replicate, ◌-◌,
}
use basearch.Mem.Blocks.{Block, total, insert_block}
use basearch.Mem.Valid.{Valid, Allocated}
use basearch.Mem.Free.{free-Valid}
use basearch.Mem.Malloc.{Outcome}
use basearch.Mem.Api.{malloc-Outcome, malloc-free}
use basearch.Mem.History.{Heap, Safe, next, start, mallocs, Reach-Safe}
use basearch.Mem.Bytes.{base_mem_set, set-memset}
use basearch.Mem.{
  Link, Mem, put_link, struct_size, base_mem_malloc, base_mem_free, malloc_held, malloc_locked,
  first_fit, take_block, split, base_mem_insert, insert_behind, find_spot, join_before, join_behind,
  mark_taken,
}

abbrev blank : Mem
blank = record {
  links = λ p. record { next = 0; size = 0 };
  start = 500;
  mem_end = 0;
  free_bytes = 0;
  min_free_bytes = 0;
  allocated_bit = 0;
  sem = 0;
}

abbrev pool_links : ℕ → Link
pool_links =
    put_link
      (put_link
        (put_link
          (put_link (λ p. record { next = 0; size = 0 }) 500 (record { next = 1000; size = 0 }))
          1000 (record { next = 1384; size = 256 }))
        1256 (record { next = 0; size = 128 + 2 ^ 31 }))
      1384 (record { next = 2000; size = 616 })

abbrev pool : Mem
pool = record {
  links = pool_links;
  start = 500;
  mem_end = 2000;
  free_bytes = 872;
  min_free_bytes = 872;
  allocated_bit = 2 ^ 31;
  sem = 1;
}

abbrev blocks : List Block
blocks = (1000, 256) ∷ (1384, 616) ∷ []

pool-Valid : Valid 1000 blocks pool
unfolding total
pool-Valid = record {
  pool = record {
    up = omega arith;
    ends = omega arith;
    near = omega arith;
    outside = inl (omega arith);
    start_size = refl;
    end_size = refl;
    end_next = refl;
    spaced = (omega arith, omega arith, (omega arith, omega arith, omega arith));
    chain = (refl, refl, (refl, refl, refl));
  };
  bit = refl;
  counted = refl;
}

held-Allocated : Allocated 1000 1256 128 blocks pool
held-Allocated = record {
  marked = refl;
  low = omega arith;
  fits = omega arith;
  some_bytes = omega arith;
  apart = (inr (omega arith), (inl (omega arith), tt));
}

free-Valid_example :
    (m' : Mem) × (base_mem_free 3 (1256 + struct_size) pool ≡ some m')
    × Valid 1000 (insert_block 1256 128 blocks) m'
    × (m'.sem ≡ 1)
    × ((q t : ℕ)
        → q ≢ 500
        → Allocated 1000 q t blocks pool
        → (q + t ≤ 1256) ⊎ (1256 + 128 ≤ q)
        → Allocated 1000 q t (insert_block 1256 128 blocks) m')
free-Valid_example =
    free-Valid 3 1000 1256 128 blocks pool (omega arith) pool-Valid held-Allocated (omega arith)

malloc-Outcome_example : Outcome 1000 300 blocks pool (base_mem_malloc 1000 0 3 300 pool)
malloc-Outcome_example =
    malloc-Outcome 1000 0 3 1000 300 blocks pool (omega arith) (omega arith) pool-Valid
      (omega arith)

abbrev state_of : Option (ℕ × Mem) → Mem
state_of none = blank
state_of (some (p, m)) = m

-- The state after 300 bytes are served: 384 bytes of the second block, the rest of which stays.
abbrev served_pool : Mem
served_pool = state_of (base_mem_malloc 1000 0 3 300 pool)

serves : base_mem_malloc 1000 0 3 300 pool ≡ some (1400, served_pool)
unfolding base_mem_malloc malloc_held malloc_locked first_fit take_block split base_mem_insert
    insert_behind find_spot join_before join_behind mark_taken
serves = refl

malloc-free_example :
    (m'' : Mem) × (base_mem_free 3 1400 served_pool ≡ some m'')
    × Valid 1000 blocks m''
    × (m''.free_bytes ≡ 872)
    × (m''.sem ≡ 1)
malloc-free_example =
    malloc-free 1000 0 3 1000 300 blocks pool 1400 served_pool (omega arith) (omega arith)
      pool-Valid (omega arith) serves (λ e. absurd (omega arith))

set-memset_example :
    base_mem_set (some 1) 300 2 (1 ∷ 2 ∷ 3 ∷ 4 ∷ [])
    ≡ (some 3, write_bytes (1 ∷ 2 ∷ 3 ∷ 4 ∷ []) 1 (replicate 2 (300 % 256)))
set-memset_example = set-memset 1 300 2 (1 ∷ 2 ∷ 3 ∷ 4 ∷ []) (omega arith)

-- The client that holds the allocated block asks for 300 bytes, with fuel for any pool.
abbrev before_call : Heap
before_call = record { mem = pool; held = (1256, 128) ∷ [] }

abbrev larger_pool : Mem
larger_pool = state_of (base_mem_malloc 1000 0 (2 ^ 32) 300 pool)

abbrev after_call : Heap
after_call = record {
  mem = larger_pool;
  held = (1384, (larger_pool.links 1384).size - 2 ^ 31) ∷ (1256, 128) ∷ [];
}

serves_any : base_mem_malloc 1000 0 (2 ^ 32) 300 pool ≡ some (1400, larger_pool)
unfolding base_mem_malloc malloc_held malloc_locked first_fit take_block split base_mem_insert
    insert_behind find_spot join_before join_behind mark_taken
serves_any = refl

before-Safe : Safe 1000 before_call
before-Safe = record {
  free = blocks;
  valid = pool-Valid;
  posted = omega arith;
  all_held = (held-Allocated, tt, tt);
}

Reach-Safe_example : Safe 1000 after_call
Reach-Safe_example = Reach-Safe 1000 before-Safe (
    next start (
      mallocs 1000 0 (2 ^ 32) 300 1400 larger_pool (omega arith) (omega arith) serves_any
        (λ e. absurd (omega arith))))
