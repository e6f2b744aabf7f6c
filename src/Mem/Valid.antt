-- ===== src/Mem/Valid.antt =====
-- The states of the pool: the list of free blocks that the links stand for, and allocated blocks.
use basearch.Prelude.{ℕ, suc, ◌+◌, ◌-◌, ◌*◌, ◌/◌, ◌^◌, ◌≤◌, ◌<◌, ◌≡◌, ◌⊎◌, List, [], ◌∷◌, arith}
use basearch.Mem.Blocks.{Block, Spaced, Spaced-le, IsApart, total}
use basearch.Mem.Chain.{Chain, Avoids}
use basearch.Mem.{Link, Mem, sub32, total_mem_size, struct_size, byte_alignment}

-- The links are a pool that starts at `lo`, with the anchor at `start` and the end marker at `e`,
-- and its free blocks are `bs`.
pub record Pool (lo : ℕ) (bs : List Block) (links : ℕ → Link) (start e : ℕ) : Type 0 where
  pub up : 0 < lo
  pub ends : lo ≤ e
  pub near : e < lo + 2 ^ 31
  pub outside : (start < lo) ⊎ (e < start)
  pub start_size : (links start).size ≡ 0
  pub end_size : (links e).size ≡ 0
  pub end_next : (links e).next ≡ 0
  pub spaced : Spaced lo bs e
  pub chain : Chain links start bs e

-- The state of the allocator whose free blocks are `bs`.
pub record Valid (lo : ℕ) (bs : List Block) (m : Mem) : Type 0 where
  pub pool : Pool lo bs m.links m.start m.mem_end
  pub bit : m.allocated_bit ≡ 2 ^ 31
  pub counted : m.free_bytes ≡ total bs

-- The `s` bytes from `p` on are an allocated block: they are in the pool and in no free block, and
-- the header says so.
pub record Allocated (lo p s : ℕ) (bs : List Block) (m : Mem) : Type 0 where
  pub marked : m.links p ≡ record { next = 0; size = s + 2 ^ 31 }
  pub low : lo ≤ p
  pub fits : p + s ≤ m.mem_end
  pub some_bytes : 0 < s
  pub apart : IsApart p s bs

-- Blocks from `lo` on up to `hi` have no more bytes than lie there, so none is wrapped in the
-- count.
pub total-le : (lo : ℕ) (bs : List Block) (hi : ℕ) → Spaced lo bs hi → lo + total bs ≤ suc hi
unfolding total
total-le lo [] hi sp = omega arith
total-le lo ((a, s) ∷ bs) hi sp = omega (arith, total-le (suc (a + s)) bs hi sp.2)

pub outside-Avoids :
    (q lo : ℕ) (bs : List Block) (hi : ℕ) → (q < lo) ⊎ (hi < q) → Spaced lo bs hi → Avoids q bs
outside-Avoids q lo [] hi o sp = tt
outside-Avoids q lo ((a, s) ∷ bs) hi o sp =
    let k = Spaced-le (suc (a + s)) bs hi sp.2 in
    (λ e. absurd (omega arith), outside-Avoids q (suc (a + s)) bs hi (omega arith) sp.2)

pub end-Avoids : (lo : ℕ) (bs : List Block) (hi : ℕ) → Spaced lo bs hi → Avoids hi bs
end-Avoids lo [] hi sp = tt
end-Avoids lo ((a, s) ∷ bs) hi sp =
    let k = Spaced-le (suc (a + s)) bs hi sp.2 in
    (λ e. absurd (omega arith), end-Avoids (suc (a + s)) bs hi sp.2)

-- Bytes of a block that is in no free block are the address of none.
pub IsApart-Avoids :
    (p s lo : ℕ) (bs : List Block) (hi : ℕ) → 0 < s → Spaced lo bs hi → IsApart p s bs → Avoids p bs
IsApart-Avoids p s lo [] hi pos sp apart = tt
IsApart-Avoids p s lo ((a, u) ∷ bs) hi pos sp apart =
    (λ e. absurd (omega arith), IsApart-Avoids p s (suc (a + u)) bs hi pos sp.2 apart.1)

-- The last link of a pool from `pool` on whose first block starts at `first`.
abbrev last_of : ℕ → ℕ → ℕ
last_of pool first =
    (first + sub32 total_mem_size (first - pool) - struct_size) / byte_alignment * byte_alignment
