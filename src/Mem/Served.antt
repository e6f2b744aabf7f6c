-- ===== src/Mem/Served.antt =====
-- `base_mem_malloc` serves the block that its search has found.
use basearch.Prelude.{
  ℕ, ◌+◌, ◌-◌, ◌/◌, ◌%◌, ◌^◌, ◌≤◌, ◌<◌, ◌≡◌, refl, ap, ap₂, ◌∙◌, ◌≢◌, ◌⊎◌, List, arith,
  if◌then◌else◌, ◌==◌, ltb, ==_iff, eq_false_of_ne, true, false, some, length,
}
use basearch.Mem.Blocks.{Block, insert_block}
use basearch.Mem.Chain.{Chain, Avoids}
use basearch.Mem.Fit.{Taken}
use basearch.Mem.Valid.{Pool, Valid, Allocated, total-le, end-Avoids, IsApart-Avoids}
use basearch.Mem.Free.{Pool-frame}
use basearch.Mem.Take.{Cut, cut}
use basearch.Mem.{
  Link, Mem, put_link, set_next, sub32, split, mark_taken, take_block, struct_size, or_bit,
  sem_wait, sem_post,
}

-- The state after a block is served: `s` bytes at `a`, of which the list `bs` had free, and `left`
-- is the list without them. What else was allocated is still so, and shares no byte with them.
pub record Served (lo size : ℕ) (bs : List Block) (m : Mem) (a : ℕ) (m' : Mem) : Type 0 where
  pub given : ℕ
  pub left : List Block
  pub enough : size ≤ given
  pub valid : Valid lo left m'
  pub allocated : Allocated lo a given left m'
  pub back : insert_block a given left ≡ bs
  pub few : length left ≤ length bs
  pub others :
      (q t : ℕ)
      → q ≢ m.start
      → Allocated lo q t bs m
      → Allocated lo q t left m' × ((q + t ≤ a) ⊎ (a + given ≤ q))

-- What the code under the semaphore leaves of a block that `split` has left with `kept` bytes.
abbrev pub taken : (ℕ → Link) → ℕ → ℕ → Mem → Mem
taken links a kept m = record m {
  links = put_link links a (record { next = 0; size = kept + 2 ^ 31 });
  free_bytes = m.free_bytes - kept;
  min_free_bytes =
      if ltb (m.free_bytes - kept) m.min_free_bytes then m.free_bytes - kept else m.min_free_bytes;
}

mark_taken_run :
    (links : ℕ → Link) (a kept : ℕ) (m : Mem)
    → (links a).size ≡ kept
    → kept < 2 ^ 31
    → kept ≤ m.free_bytes
    → m.free_bytes < 2 ^ 32
    → m.allocated_bit ≡ 2 ^ 31
    → mark_taken a (record m { links = links }) ≡ taken links a kept m
unfolding mark_taken
mark_taken_run links a kept m z small le width bit =
    let w : sub32 m.free_bytes (links a).size ≡ m.free_bytes - kept = omega arith in
    let q : (kept / 2 ^ 31 % 2 == 0) ≡ true = (==_iff _ _).1 (omega arith) in
    let b : or_bit (links a).size m.allocated_bit ≡ kept + 2 ^ 31 = rw (z, bit, q) in
    ap₂
      (λ f w. record m {
        links = put_link links a (record { next = 0; size = w });
        free_bytes = f;
        min_free_bytes = if ltb f m.min_free_bytes then f else m.min_free_bytes;
      })
      w b

take_run :
    (fuel size prev a : ℕ) (links : ℕ → Link) (m : Mem)
    → (m.links prev).next ≡ a
    → split fuel size a (record m { links = set_next m.links prev (m.links a).next })
      ≡ some (record m { links = links })
    → take_block fuel size prev a m
      ≡ some (a + struct_size, mark_taken a (record m { links = links }))
unfolding take_block
take_run fuel size prev a links m n run =
    rw (take_block, run) (ap (λ x. some (x + 16, mark_taken a (record m { links = links }))) n)

-- Marking a block leaves the header of one apart from it.
put_apart :
    (links : ℕ → Link) (a q t u : ℕ) (l : Link)
    → (q + t ≤ a) ⊎ (a + u ≤ q)
    → 0 < t
    → 0 < u
    → put_link links a l q ≡ links q
put_apart links a q t u l free pos pos' =
    let k : (q == a) ≡ false = eq_false_of_ne _ _ (λ e. absurd (omega arith)) in rw k

module _ (fuel lo size a s prev : ℕ) (bs rest : List Block) (m : Mem) (few : length bs < fuel)
    (v : Valid lo bs m) (want : 0 < size) (k : Taken size lo a s bs rest m.mem_end)
    (z : (m.links a).size ≡ s) (n : (m.links prev).next ≡ a)
    (ch : Chain (set_next m.links prev (m.links a).next) m.start rest m.mem_end)
    (ne : (q : ℕ) → q ≢ m.start → Avoids q bs → q ≢ prev) where
  abbrev unlinked : ℕ → Link
  unlinked = set_next m.links prev (m.links a).next

  unlinked_size : (q : ℕ) → (unlinked q).size ≡ (m.links q).size
  unlinked_size q = ground arith

  unlinked_next : (q : ℕ) → q ≢ prev → unlinked q ≡ m.links q
  unlinked_next q np = ground arith

  unlinked-Pool : Pool lo rest unlinked m.start m.mem_end
  unlinked-Pool =
      let u = v.pool in
      let ends : m.mem_end ≢ prev =
        ne m.mem_end (λ e. absurd (omega (arith, u.outside, u.ends)))
          (end-Avoids lo bs m.mem_end u.spaced) in
      record {
        up = u.up;
        ends = u.ends;
        near = u.near;
        outside = u.outside;
        start_size = unlinked_size m.start ∙ u.start_size;
        end_size = unlinked_size m.mem_end ∙ u.end_size;
        end_next = ap (λ l. l.next) (unlinked_next m.mem_end ends) ∙ u.end_next;
        spaced = k.spaced;
        chain = ch;
      }

  part : Cut lo size a rest s (record m { links = unlinked }) fuel
  part =
      cut fuel lo size a s rest (record m { links = unlinked }) (omega (arith, k.fewer))
        unlinked-Pool (unlinked_size a ∙ z) want k.large k.low k.fits k.apart

  taken-Served : Served lo size bs m a (taken part.links a part.kept m)
  taken-Served =
      let u = v.pool in
      let pos : 0 < part.kept = omega (arith, part.enough) in
      let inside = part.inside in
      let low = k.low in
      let fits = k.fits in
      record {
        given = part.kept;
        left = part.left;
        enough = part.enough;
        valid = record {
          pool =
              Pool-frame lo part.left part.links m.start m.mem_end a
                (record { next = 0; size = part.kept + 2 ^ 31 })
                (λ e. absurd (omega (arith, u.outside))) (λ e. absurd (omega arith))
                (IsApart-Avoids a part.kept lo part.left m.mem_end pos part.pool.spaced part.apart)
                part.pool;
          bit = v.bit;
          counted = omega (arith, v.counted, k.sum, part.sum);
        };
        allocated = record {
          marked = ground arith;
          low = low;
          fits = omega arith;
          some_bytes = pos;
          apart = part.apart;
        };
        back = part.back ∙ k.back;
        few = omega (arith, part.few, k.fewer);
        others = λ q t ns al.
            let (clear, free) = k.others q t al.apart in
            let (clear', same) = part.others q t al.some_bytes ns clear free in
            let np = ne q ns (IsApart-Avoids q t lo bs m.mem_end al.some_bytes u.spaced al.apart) in
            let here : (taken part.links a part.kept m).links q ≡ part.links q =
              put_apart part.links a q t part.kept _ (omega arith) al.some_bytes
                (omega (arith, part.enough)) in
            (
              record {
                marked = here ∙ same ∙ unlinked_next q np ∙ al.marked;
                low = al.low;
                fits = al.fits;
                some_bytes = al.some_bytes;
                apart = clear';
              },
              omega arith,
            );
      }

  -- The block is served.
  pub served :
      (m' : Mem) × (take_block fuel size prev a m ≡ some (a + struct_size, m'))
      × (m'.sem ≡ m.sem)
      × Served lo size bs m a m'
  served = (
    taken part.links a part.kept m,
    take_run fuel size prev a part.links m n part.runs
        ∙ ap (λ x. some (a + 16, x))
            (mark_taken_run part.links a part.kept m part.head
              (omega (arith, v.pool.near, k.low, k.fits, part.inside))
              (omega (arith, v.counted, k.sum, part.sum))
              (omega (arith, v.counted, v.pool.near, total-le lo bs m.mem_end v.pool.spaced))
              v.bit),
    refl,
    taken-Served,
  )

pub Served-weaken :
    (lo size size' : ℕ) (bs : List Block) (m : Mem) (a : ℕ) (m' : Mem)
    → size' ≤ size
    → Served lo size bs m a m'
    → Served lo size' bs m a m'
Served-weaken lo size size' bs m a m' le s = record {
  given = s.given;
  left = s.left;
  enough = omega (arith, s.enough);
  valid = s.valid;
  allocated = s.allocated;
  back = s.back;
  few = s.few;
  others = s.others;
}

Allocated-post :
    (lo a s : ℕ) (bs : List Block) (m : Mem)
    → Allocated lo a s bs m
    → Allocated lo a s bs (sem_post m)
Allocated-post lo a s bs m al = record {
  marked = al.marked;
  low = al.low;
  fits = al.fits;
  some_bytes = al.some_bytes;
  apart = al.apart;
}

Allocated-wait :
    (lo a s : ℕ) (bs : List Block) (m : Mem)
    → Allocated lo a s bs m
    → Allocated lo a s bs (sem_wait m)
Allocated-wait lo a s bs m al = record {
  marked = al.marked;
  low = al.low;
  fits = al.fits;
  some_bytes = al.some_bytes;
  apart = al.apart;
}

-- Waiting for the semaphore before and posting it behind leave all else as it is.
pub Served-post :
    (lo size : ℕ) (bs : List Block) (m : Mem) (a : ℕ) (m' : Mem)
    → Served lo size bs (sem_wait m) a m'
    → Served lo size bs m a (sem_post m')
Served-post lo size bs m a m' s = record {
  given = s.given;
  left = s.left;
  enough = s.enough;
  valid = record { pool = s.valid.pool; bit = s.valid.bit; counted = s.valid.counted };
  allocated = Allocated-post lo a s.given s.left m' s.allocated;
  back = s.back;
  few = s.few;
  others = λ q t ns al.
      let (al', free) = s.others q t ns (Allocated-wait lo q t bs m al) in
      (Allocated-post lo q t s.left m' al', free);
}

pub Valid-wait : (lo : ℕ) (bs : List Block) (m : Mem) → Valid lo bs m → Valid lo bs (sem_wait m)
Valid-wait lo bs m v = record { pool = v.pool; bit = v.bit; counted = v.counted }
