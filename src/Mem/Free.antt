-- ===== src/Mem/Free.antt =====
-- `base_mem_insert` on a pool, and `base_mem_free` on an allocated block.
use basearch.Prelude.{
  ℕ, ◌+◌, ◌-◌, ◌/◌, ◌%◌, ◌^◌, ◌≤◌, ◌<◌, ◌≡◌, ap, ◌∙◌, ◌≢◌, ◌⊎◌, List, arith, ◌==◌, eq_false_of_ne,
  false, some, length,
}
use basearch.Mem.Blocks.{Block, IsApart, insert_block, total-insert_block, Spaced-insert_block}
use basearch.Mem.Chain.{Avoids, Chain-frame}
use basearch.Mem.Walk.{insert-Chain}
use basearch.Mem.Split.{IsApart-insert_block}
use basearch.Mem.Valid.{
  Pool, Valid, Allocated, total-le, outside-Avoids, end-Avoids, IsApart-Avoids,
}
use basearch.Mem.{
  Link, Mem, put_link, set_size, add32, base_mem_insert, insert_behind, base_mem_free, give_back,
  find_spot, struct_size,
}

-- A block of free bytes of the pool is put in its place.
pub insert_pool :
    (fuel lo p s : ℕ) (bs : List Block) (links : ℕ → Link) (start e : ℕ)
    → length bs < fuel
    → Pool lo bs links start e
    → (links p).size ≡ s
    → lo ≤ p
    → 0 < s
    → p + s ≤ e
    → IsApart p s bs
    → (it : ℕ) × (find_spot fuel links start p ≡ some it)
      × Pool lo (insert_block p s bs) (insert_behind e links it p) start e
      × ((q : ℕ) → q ≢ p → q ≢ start → Avoids q bs → insert_behind e links it p q ≡ links q)
insert_pool fuel lo p s bs links start e few v size low pos fits apart =
    let (it, found, chain, keep, same) =
      insert-Chain links p s e size pos fits fuel start lo bs few v.start_size v.chain
        (λ k. absurd (omega (arith, v.outside))) (outside-Avoids start lo bs e v.outside v.spaced)
        low v.spaced apart (omega (arith, v.near)) in
    let kept : insert_behind e links it p e ≡ links e =
      same e (λ k. absurd (omega arith)) (λ k. absurd (omega (arith, v.outside, v.ends)))
        (end-Avoids lo bs e v.spaced) in
    (
      it,
      found,
      record {
        up = v.up;
        ends = v.ends;
        near = v.near;
        outside = v.outside;
        start_size = keep;
        end_size = ap (λ l. l.size) kept ∙ v.end_size;
        end_next = ap (λ l. l.next) kept ∙ v.end_next;
        spaced = Spaced-insert_block lo p s bs e low pos fits apart v.spaced;
        chain = chain;
      },
      same,
    )

-- Writing a link that is neither the anchor's, nor the end's, nor that of a free block.
pub Pool-frame :
    (lo : ℕ) (bs : List Block) (links : ℕ → Link) (start e p : ℕ) (l : Link)
    → p ≢ start
    → p ≢ e
    → Avoids p bs
    → Pool lo bs links start e
    → Pool lo bs (put_link links p l) start e
Pool-frame lo bs links start e p l ns ne av v =
    let at_start : put_link links p l start ≡ links start = ground arith in
    let at_end : put_link links p l e ≡ links e = ground arith in
    record {
      up = v.up;
      ends = v.ends;
      near = v.near;
      outside = v.outside;
      start_size = ap (λ l. l.size) at_start ∙ v.start_size;
      end_size = ap (λ l. l.size) at_end ∙ v.end_size;
      end_next = ap (λ l. l.next) at_end ∙ v.end_next;
      spaced = v.spaced;
      chain =
          Chain-frame links (put_link links p l) start start p bs e (λ q ne. ground arith)
            (ap (λ l. l.next) at_start) av v.chain;
    }

-- What `base_mem_free` leaves of a marked block, once its place in the list is found.
abbrev freed : ℕ → ℕ → ℕ → Mem → Mem
freed it p s m = record m {
  links = insert_behind m.mem_end (set_size m.links p s) it p;
  free_bytes = m.free_bytes + s;
  sem = m.sem - 1 + 1;
}

give_back_run :
    (fuel p s it : ℕ) (m : Mem)
    → m.free_bytes + s < 2 ^ 32
    → find_spot fuel (set_size m.links p s) m.start p ≡ some it
    → give_back fuel p s m ≡ some (freed it p s m)
unfolding give_back base_mem_insert
give_back_run fuel p s it m room found =
    let w : add32 m.free_bytes s ≡ m.free_bytes + s = omega arith in
    rw (give_back, base_mem_insert, found, w)

-- The tests of a marked block are passed.
free_marked :
    (fuel p s : ℕ) (m : Mem)
    → m.links p ≡ record { next = 0; size = s + 2 ^ 31 }
    → m.allocated_bit ≡ 2 ^ 31
    → s < 2 ^ 31
    → base_mem_free fuel (p + struct_size) m ≡ give_back fuel p s m
unfolding base_mem_free
free_marked fuel p s m marked bit small =
    let k : p + 16 - 16 ≡ p = omega arith in
    let z : (p + 16 == 0) ≡ false = eq_false_of_ne _ _ (λ x. absurd (omega arith)) in
    let b : ((s + 2 ^ 31) / 2 ^ 31 % 2 == 0) ≡ false =
      eq_false_of_ne _ _ (λ x. absurd (omega arith)) in
    let d : s + 2 ^ 31 - 2 ^ 31 ≡ s = omega arith in simp (k, marked, bit, z, b, d)

put_other : (links : ℕ → Link) (p q : ℕ) (l : Link) → q ≢ p → put_link links p l q ≡ links q
put_other links p q l ne = let k : (q == p) ≡ false = eq_false_of_ne _ _ ne in rw k

-- `base_mem_free` on an allocated block, with fuel for every free block, gives it back: the loop
-- ends, the list of free blocks has it in its place, the count of free bytes grows by its size, and
-- the semaphore is given back; what else is allocated stays so.
pub free-Valid :
    (fuel lo p s : ℕ) (bs : List Block) (m : Mem)
    → length bs < fuel
    → Valid lo bs m
    → Allocated lo p s bs m
    → 0 < m.sem
    → (m' : Mem) × (base_mem_free fuel (p + struct_size) m ≡ some m')
      × Valid lo (insert_block p s bs) m'
      × (m'.sem ≡ m.sem)
      × ((q t : ℕ)
          → q ≢ m.start
          → Allocated lo q t bs m
          → (q + t ≤ p) ⊎ (p + s ≤ q)
          → Allocated lo q t (insert_block p s bs) m')
free-Valid fuel lo p s bs m few v a free_sem =
    let up = v.pool in
    let av = IsApart-Avoids p s lo bs m.mem_end a.some_bytes up.spaced a.apart in
    let links = set_size m.links p s in
    let pool : Pool lo bs links m.start m.mem_end =
      Pool-frame lo bs m.links m.start m.mem_end p (record { next = (m.links p).next; size = s })
        (λ k. absurd (omega (arith, up.outside, a.low, a.fits)))
        (λ k. absurd (omega (arith, a.some_bytes, a.fits))) av up in
    let (it, found, pool', same) =
      insert_pool fuel lo p s bs links m.start m.mem_end few pool (ground arith) a.low a.some_bytes
        a.fits a.apart in
    let small : s < 2 ^ 31 = omega (arith, up.near, a.fits, a.low) in
    let le = total-le lo bs m.mem_end up.spaced in
    (
      freed it p s m,
      free_marked fuel p s m a.marked v.bit small
          ∙ give_back_run fuel p s it m (omega (arith, v.counted, up.near)) found,
      record {
        pool = pool';
        bit = v.bit;
        counted = omega (arith, v.counted, total-insert_block p s bs);
      },
      omega arith,
      λ q t ns al free.
          let np : q ≢ p = λ e. absurd (omega (arith, al.some_bytes, a.some_bytes)) in
          let avq = IsApart-Avoids q t lo bs m.mem_end al.some_bytes up.spaced al.apart in
          record {
            marked = same q np ns avq ∙ put_other m.links p q _ np ∙ al.marked;
            low = al.low;
            fits = al.fits;
            some_bytes = al.some_bytes;
            apart = IsApart-insert_block q t p s bs free al.apart al.some_bytes a.some_bytes;
          },
    )
