-- ===== src/Mem.antt =====
-- The allocator of src/linux/base_mem.c, with `base_mem_link_t` of base_mem.h: a first-fit list of
-- free blocks inside a static pool, sorted by address, whose neighbours are joined. Pointers are
-- addresses, NULL is 0, and `links` is the memory of the block headers, at the address of each.
-- The two loops take fuel; `none` is a loop that has used it up.
pub mod Blocks
pub mod Chain
pub mod Insert
pub mod Walk
pub mod Fit
pub mod Split
pub mod Valid
pub mod Free
pub mod Take
pub mod Served
pub mod Malloc
pub mod Api
pub mod Bytes
pub mod History
use basearch.Prelude.{
  ℕ, zero, suc, ◌+◌, ◌-◌, ◌*◌, ◌/◌, ◌%◌, ◌^◌, Bool, true, false, not, ◌&&◌, Option, none, some,
  if◌then◌else◌, ◌==◌, ltb, leb,
}

-- `base_mem_link_t`
pub record Link : Type 0 where
  pub next : ℕ
  pub size : ℕ

-- The static variables of base_mem.c. `start` is the address of `gbasememstart`, and `sem` the
-- value of the semaphore `gfwkmemmgmtSemId`.
pub record Mem : Type 0 where
  pub links : ℕ → Link
  pub start : ℕ
  pub mem_end : ℕ
  pub free_bytes : ℕ
  pub min_free_bytes : ℕ
  pub allocated_bit : ℕ
  pub sem : ℕ

abbrev pub null : ℕ
null = 0

-- BASE_MEM_TOTAL_MEM_SIZE
abbrev pub total_mem_size : ℕ
total_mem_size = 128 * 1024 * 1024

-- BASE_MEM_MIN_MEM_SIZE
abbrev pub min_mem_size : ℕ
min_mem_size = 128

-- BASE_MEM_BYTE_ALIGNMENT
abbrev pub byte_alignment : ℕ
byte_alignment = 8

-- `gbasememstructsize`: a link of a pointer and a UINT32 takes 16 bytes on a 64-bit machine, which
-- is a multiple of the alignment.
abbrev pub struct_size : ℕ
struct_size = 16

-- UINT32 addition
abbrev pub add32 : ℕ → ℕ → ℕ
add32 a b = (a + b) % 2 ^ 32

-- UINT32 subtraction
abbrev pub sub32 : ℕ → ℕ → ℕ
sub32 a b = (a + 2 ^ 32 - b) % 2 ^ 32

abbrev pub put_link : (ℕ → Link) → ℕ → Link → ℕ → Link
put_link links p l q = if q == p then l else links q

abbrev pub set_next : (ℕ → Link) → ℕ → ℕ → ℕ → Link
set_next links p n = put_link links p (record { next = n; size = (links p).size })

abbrev pub set_size : (ℕ → Link) → ℕ → ℕ → ℕ → Link
set_size links p s = put_link links p (record { next = (links p).next; size = s })

-- `for (pxIterator = &gbasememstart; pxIterator->next < pMemToInsert; …)`, from `it` on.
unfoldable pub find_spot : ℕ → (ℕ → Link) → ℕ → ℕ → Option ℕ
find_spot zero links it ins = none
find_spot (suc fuel) links it ins =
    let rest = find_spot fuel links (links it).next ins in
    if ltb (links it).next ins then rest else some it

-- The block is joined with the one that it is inserted after, if they touch; the address is that
-- of the block that now holds it.
unfoldable pub join_before : (ℕ → Link) → ℕ → ℕ → (ℕ → Link) × ℕ
join_before links it ins =
    if it + (links it).size == ins
    then (set_size links it (add32 (links it).size (links ins).size), it)
    else (links, ins)

-- It is joined with the one that it is inserted before, if they touch and that is not the end
-- marker, and it is linked to what follows.
unfoldable pub join_behind : ℕ → (ℕ → Link) → ℕ → ℕ → ℕ → Link
join_behind mem_end links it ins =
    let n = (links it).next in
    if ins + (links ins).size == n
    then (if not (n == mem_end)
        then put_link links ins
            (record { next = (links n).next; size = add32 (links ins).size (links n).size })
        else set_next links ins mem_end)
    else set_next links ins n

-- The body of `base_mem_insert` behind its loop.
unfoldable pub insert_behind : ℕ → (ℕ → Link) → ℕ → ℕ → ℕ → Link
insert_behind mem_end links it ins =
    let (joined, block) = join_before links it ins in
    let linked = join_behind mem_end joined it block in
    if not (it == block) then set_next linked it block else linked

unfoldable pub base_mem_insert : ℕ → ℕ → Mem → Option Mem
base_mem_insert fuel ins m = elim (find_spot fuel m.links m.start ins) [
  | none ↦ none
  | some it ↦ some (record m { links = insert_behind m.mem_end m.links it ins })
]

-- `w & bit`, `w | bit` and `w & ~bit` for a `bit` that is 0 or a power of two.
abbrev pub test_bit : ℕ → ℕ → Bool
test_bit w bit = not (w / bit % 2 == 0)

abbrev pub or_bit : ℕ → ℕ → ℕ
or_bit w bit = if test_bit w bit then w else w + bit

abbrev pub clear_bit : ℕ → ℕ → ℕ
clear_bit w bit = if test_bit w bit then w - bit else w

abbrev pub sem_wait : Mem → Mem
sem_wait m = record m { sem = m.sem - 1 }

abbrev pub sem_post : Mem → Mem
sem_post m = record m { sem = m.sem + 1 }

-- The address rounded up to the alignment.
abbrev pub align_up : ℕ → ℕ
align_up a =
    if a % byte_alignment == 0
    then a
    else (a + (byte_alignment - 1)) / byte_alignment * byte_alignment

-- `pool` is the address of `gbasemempool`, and `rc` what `sem_init` returns.
unfoldable pub base_mem_init : ℕ → ℕ → Mem → Mem
base_mem_init pool rc m =
    if not (rc == 0)
    then m
    else let first = align_up pool in
      let total = sub32 total_mem_size (first - pool) in
      let last = (first + total - struct_size) / byte_alignment * byte_alignment in
      let started = put_link m.links m.start (record { next = first; size = 0 }) in
      let ended = put_link started last (record { next = null; size = 0 }) in
      let size = (last - first) % 2 ^ 32 in
      record {
        links = put_link ended first (record { next = last; size = size });
        start = m.start;
        mem_end = last;
        free_bytes = size;
        min_free_bytes = size;
        allocated_bit = 2 ^ 31;
        sem = 1;
      }

-- The search of `base_mem_malloc` for the first block that is large enough, with its predecessor.
unfoldable pub first_fit : ℕ → (ℕ → Link) → ℕ → ℕ → ℕ → Option (ℕ × ℕ)
first_fit zero links prev cur size = none
first_fit (suc fuel) links prev cur size =
    let rest = first_fit fuel links cur (links cur).next size in
    if ltb (links cur).size size && not ((links cur).next == null) then rest else some (prev, cur)

-- The rest of a block that is split goes back to the list.
unfoldable pub split : ℕ → ℕ → ℕ → Mem → Option Mem
split fuel size cur m =
    if ltb min_mem_size (sub32 (m.links cur).size size)
    then (let new = cur + size in
        let cut = set_size m.links new (sub32 (m.links cur).size size) in
        base_mem_insert fuel new (record m { links = set_size cut cur size }))
    else some m

-- The block is taken from the count and marked.
unfoldable pub mark_taken : ℕ → Mem → Mem
mark_taken cur m =
    let free = sub32 m.free_bytes (m.links cur).size in
    record m {
      links =
          put_link m.links cur
            (record { next = null; size = or_bit (m.links cur).size m.allocated_bit });
      free_bytes = free;
      min_free_bytes = if ltb free m.min_free_bytes then free else m.min_free_bytes;
    }

-- The block `cur` behind `prev` leaves the list; what is returned is the address behind its header.
unfoldable pub take_block : ℕ → ℕ → ℕ → ℕ → Mem → Option (ℕ × Mem)
take_block fuel size prev cur m =
    elim (split fuel size cur (record m { links = set_next m.links prev (m.links cur).next })) [
      | none ↦ none
      | some cut ↦ some ((m.links prev).next + struct_size, mark_taken cur cut)
    ]

-- The size with a header, rounded up to BASE_MEM_MIN_MEM_SIZE.
abbrev pub padded : ℕ → ℕ
padded size =
    let s = add32 size struct_size in
    if s % min_mem_size == 0 then s else add32 s (min_mem_size - s % min_mem_size)

-- The code between `sem_wait` and `sem_post`, behind the test of the size.
unfoldable pub malloc_locked : ℕ → ℕ → Mem → Option (ℕ × Mem)
malloc_locked fuel size m =
    if not (size == 0) && leb (padded size) m.free_bytes
    then elim (first_fit fuel m.links m.start (m.links m.start).next (padded size)) [
      | none ↦ none
      | some (prev, cur) ↦
          if not (cur == m.mem_end)
          then take_block fuel (padded size) prev cur m
          else some (null, m)
    ]
    else some (null, m)

-- The early `return NULL`, taken with the semaphore held.
abbrev pub misrounded : ℕ → Bool
misrounded size = not (size == 0) && not (padded size % min_mem_size == 0)

abbrev pub posted : Option (ℕ × Mem) → Option (ℕ × Mem)
posted none = none
posted (some (p, m)) = some (p, sem_post m)

-- `base_mem_malloc` behind its `sem_wait`.
unfoldable pub malloc_held : ℕ → ℕ → Mem → Option (ℕ × Mem)
malloc_held fuel size m =
    if not (test_bit size m.allocated_bit)
    then (if misrounded size then some (null, m) else posted (malloc_locked fuel size m))
    else some (null, sem_post m)

-- `pool` and `rc` are for `base_mem_init`, which the first call makes. The result 0 is NULL.
unfoldable pub base_mem_malloc : ℕ → ℕ → ℕ → ℕ → Mem → Option (ℕ × Mem)
base_mem_malloc pool rc fuel size m =
    malloc_held fuel size (sem_wait (if m.mem_end == null then base_mem_init pool rc m else m))

-- The block `p`, of which `size` bytes are free again, goes back to the list under the semaphore.
unfoldable pub give_back : ℕ → ℕ → ℕ → Mem → Option Mem
give_back fuel p size m =
    let held =
      sem_wait
        (record m { links = set_size m.links p size; free_bytes = add32 m.free_bytes size }) in
    elim (base_mem_insert fuel p held) [ none ↦ none | some done ↦ some (sem_post done) ]

-- `addr` is the pointer; at NULL, at a block that is not marked and at one that is linked the call
-- only logs.
unfoldable pub base_mem_free : ℕ → ℕ → Mem → Option Mem
base_mem_free fuel addr m =
    let p = addr - struct_size in
    let l = m.links p in
    if not (addr == null) && test_bit l.size m.allocated_bit && (l.next == null)
    then give_back fuel p (clear_bit l.size m.allocated_bit) m
    else some m
