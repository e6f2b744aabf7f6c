-- ===== src/Mem/Take.antt =====
-- `base_mem_malloc` cuts the block that it has found, and marks it.
use basearch.Prelude.{
  ℕ, suc, ◌+◌, ◌-◌, ◌^◌, ◌≤◌, ◌<◌, ◌≡◌, refl, sym, ap, ◌∙◌, ◌≢◌, ◌⊎◌, inl, List, [], ◌∷◌, arith,
  ltb, lt→ltb, true, false, some, length, subst,
}
use native.Mathlib.Decide.{dec_lt}
use basearch.Mem.Blocks.{
  Block, IsApart, total, insert_block, total-insert_block, length-insert_block,
}
use basearch.Mem.Split.{IsApart-second, IsApart-insert_block, insert_block-parts}
use basearch.Mem.Valid.{Pool, IsApart-Avoids}
use basearch.Mem.Free.{insert_pool, Pool-frame}
use basearch.Mem.{
  Link, Mem, set_size, sub32, base_mem_insert, insert_behind, split, find_spot, min_mem_size,
}

-- The links of a block at `cur` cut into `size` bytes and the block at `cur + size`.
abbrev pub cut_links : (ℕ → Link) → ℕ → ℕ → ℕ → ℕ → Link
cut_links links cur s size = set_size (set_size links (cur + size) (s - size)) cur size

split_whole :
    (fuel size cur s : ℕ) (m : Mem)
    → (m.links cur).size ≡ s
    → size ≤ s
    → s ≤ size + min_mem_size
    → s < 2 ^ 31
    → split fuel size cur m ≡ some m
unfolding split
split_whole fuel size cur s m z le small width =
    let w : sub32 (m.links cur).size size ≡ s - size = omega arith in
    let q : ltb 128 (s - size) ≡ false = ground arith in rw (split, w, q)

split_cut :
    (fuel size cur s it : ℕ) (m : Mem)
    → (m.links cur).size ≡ s
    → size + min_mem_size < s
    → s < 2 ^ 31
    → find_spot fuel (cut_links m.links cur s size) m.start (cur + size) ≡ some it
    → split fuel size cur m
      ≡ some (record m {
        links = insert_behind m.mem_end (cut_links m.links cur s size) it (cur + size);
      })
unfolding split base_mem_insert
split_cut fuel size cur s it m z more width found =
    let w : sub32 (m.links cur).size size ≡ s - size = omega arith in
    let q : ltb 128 (s - size) ≡ true = lt→ltb _ _ (omega arith) in
    rw (split, w, q, base_mem_insert, found)
      (ap
        (λ n. some (record m {
          links =
              insert_behind m.mem_end (set_size (set_size m.links (cur + size) n) cur size) it
                (cur + size);
        }))
        w)

IsApart-first : (a x y : ℕ) (bs : List Block) → IsApart a (x + y) bs → IsApart a x bs
IsApart-first a x y [] apart = tt
IsApart-first a x y ((c, u) ∷ bs) apart = (omega arith, IsApart-first a x y bs apart.1)

-- The list `rest` and a free block at `a` of which `(a, t)` is kept, in what `split` leaves.
pub record Cut (lo size a : ℕ) (rest : List Block) (s : ℕ) (m : Mem) (fuel : ℕ) : Type 0 where
  pub links : ℕ → Link
  pub runs : split fuel size a m ≡ some (record m { links = links })
  pub kept : ℕ
  pub left : List Block
  pub enough : size ≤ kept
  pub inside : kept ≤ s
  pub pool : Pool lo left links m.start m.mem_end
  pub head : (links a).size ≡ kept
  pub apart : IsApart a kept left
  pub back : insert_block a kept left ≡ insert_block a s rest
  pub few : length left ≤ suc (length rest)
  pub sum : s + total rest ≡ kept + total left
  pub others :
      (q t : ℕ)
      → 0 < t
      → q ≢ m.start
      → IsApart q t rest
      → (q + t ≤ a) ⊎ (a + s ≤ q)
      → IsApart q t left × (links q ≡ m.links q)

module _ (fuel lo size a s : ℕ) (rest : List Block) (m : Mem) (few : length rest < fuel)
    (pool : Pool lo rest m.links m.start m.mem_end) (z : (m.links a).size ≡ s) (want : 0 < size)
    (large : size ≤ s) (low : lo ≤ a) (fits : a + s ≤ m.mem_end) (apart : IsApart a s rest) where
  cut_whole : s ≤ size + min_mem_size → Cut lo size a rest s m fuel
  cut_whole le = record {
    links = m.links;
    runs = split_whole fuel size a s m z large le (omega (arith, pool.near));
    kept = s;
    left = rest;
    enough = large;
    inside = omega arith;
    pool = pool;
    head = z;
    apart = apart;
    back = refl;
    few = omega arith;
    sum = refl;
    others = λ q t pos ns ap_rest free. (ap_rest, refl);
  }

  -- The links that the insertion of the second part starts from.
  cut_pool : size + min_mem_size < s → Pool lo rest (cut_links m.links a s size) m.start m.mem_end
  cut_pool more =
      let av = IsApart-Avoids a s lo rest m.mem_end (omega arith) pool.spaced apart in
      let second : IsApart (a + size) (s - size) rest =
        IsApart-second a size (s - size) rest (omega arith)
          (subst (λ n. IsApart a n rest) (omega arith) apart) in
      let av' =
        IsApart-Avoids (a + size) (s - size) lo rest m.mem_end (omega arith) pool.spaced second in
      Pool-frame lo rest (set_size m.links (a + size) (s - size)) m.start m.mem_end a
        (record { next = (set_size m.links (a + size) (s - size) a).next; size = size })
        (λ k. absurd (omega (arith, pool.outside))) (λ k. absurd (omega arith)) av
        (Pool-frame lo rest m.links m.start m.mem_end (a + size)
          (record { next = (m.links (a + size)).next; size = s - size })
          (λ k. absurd (omega (arith, pool.outside))) (λ k. absurd (omega arith)) av' pool)

  cut_parts : size + min_mem_size < s → Cut lo size a rest s m fuel
  cut_parts more =
      let whole : size + (s - size) ≡ s = omega arith in
      let apart' : IsApart a (size + (s - size)) rest =
        subst (λ n. IsApart a n rest) (sym whole) apart in
      let second = IsApart-second a size (s - size) rest (omega arith) apart' in
      let av = IsApart-Avoids a s lo rest m.mem_end (omega arith) pool.spaced apart in
      let links = cut_links m.links a s size in
      let (it, found, pool', same) =
        insert_pool fuel lo (a + size) (s - size) rest links m.start m.mem_end few (cut_pool more)
          (ground arith) (omega arith) (omega arith) (omega arith) second in
      record {
        links = insert_behind m.mem_end links it (a + size);
        runs = split_cut fuel size a s it m z more (omega (arith, pool.near)) found;
        kept = size;
        left = insert_block (a + size) (s - size) rest;
        enough = omega arith;
        inside = large;
        pool = pool';
        head =
            ap (λ l. l.size)
              (same a (λ k. absurd (omega arith)) (λ k. absurd (omega (arith, pool.outside))) av)
            ∙ ground arith;
        apart =
            IsApart-insert_block a size (a + size) (s - size) rest (inl (omega arith))
              (IsApart-first a size (s - size) rest apart') want (omega arith);
        back =
            insert_block-parts a size (s - size) m.mem_end want (omega arith) (omega arith) lo rest
              pool.spaced apart'
            ∙ ap (λ n. insert_block a n rest) whole;
        few = length-insert_block (a + size) (s - size) rest;
        sum = omega (arith, total-insert_block (a + size) (s - size) rest);
        others = λ q t pos ns ap_rest free. (
          IsApart-insert_block q t (a + size) (s - size) rest (omega arith) ap_rest pos
              (omega arith),
          same q (λ k. absurd (omega arith)) ns
                (IsApart-Avoids q t lo rest m.mem_end pos pool.spaced ap_rest)
              ∙ ground arith,
        );
      }

  pub cut : Cut lo size a rest s m fuel
  cut = elim (dec_lt (size + min_mem_size) s) [
    | yes more ↦ cut_parts more
    | no le ↦ cut_whole (omega arith)
  ]
