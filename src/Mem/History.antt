-- ===== src/Mem/History.antt =====
-- Clients of the allocator: any sequence of calls of `base_mem_malloc` and `base_mem_free`.
use basearch.Prelude.{
  ℕ, suc, ◌+◌, ◌-◌, ◌^◌, ◌≤◌, ◌<◌, ◌≡◌, sym, ap, ap₂, subst, ◌∙◌, ◌≢◌, ◌⊎◌, inl, inr, List, [], ◌∷◌,
  Option, none, some, arith, length,
}
use basearch.Mem.Blocks.{Block, Spaced, IsApart, insert_block}
use basearch.Mem.Valid.{Valid, Allocated}
use basearch.Mem.Free.{free-Valid}
use basearch.Mem.Served.{Served}
use basearch.Mem.Api.{malloc-Outcome, outcome_of}
use basearch.Mem.{Mem, null, struct_size, base_mem_malloc, base_mem_free}

-- The allocator, and the blocks that clients hold, by the address and the size of each.
pub record Heap : Type 0 where
  pub mem : Mem
  pub held : List Block

-- The block leaves the list.
pub data Removes (b : Block) : List Block → List Block → Type 0 where
  here : {bs : List Block} → Removes b (b ∷ bs) bs
  later : {x : Block} {bs cs : List Block} → Removes b bs cs → Removes b (x ∷ bs) (x ∷ cs)

-- A call that returns a block, whose size is in its header, one that returns NULL, and one that
-- gives a block back. The fuel is more than there can be links in the pool.
pub data Step : Heap → Heap → Type 0 where
  mallocs :
      {s : Heap} (pool rc fuel size p : ℕ) (m : Mem)
      → 2 ^ 32 ≤ fuel
      → size < 2 ^ 32
      → base_mem_malloc pool rc fuel size s.mem ≡ some (p, m)
      → p ≢ null
      → Step s (record {
        mem = m;
        held = (p - struct_size, (m.links (p - struct_size)).size - 2 ^ 31) ∷ s.held;
      })
  refuses :
      {s : Heap} (pool rc fuel size : ℕ) (m : Mem)
      → 2 ^ 32 ≤ fuel
      → size < 2 ^ 32
      → base_mem_malloc pool rc fuel size s.mem ≡ some (null, m)
      → Step s (record { mem = m; held = s.held })
  frees :
      {s : Heap} (fuel a t : ℕ) (m : Mem) (rest : List Block)
      → 2 ^ 32 ≤ fuel
      → Removes (a, t) s.held rest
      → base_mem_free fuel (a + struct_size) s.mem ≡ some m
      → Step s (record { mem = m; held = rest })

pub data Reach (s : Heap) : Heap → Type 0 where
  start : Reach s s
  next : {t u : Heap} → Reach s t → Step t u → Reach s u

-- Every block that is held is marked, is in the pool, and shares no byte with a free block nor with
-- another that is held.
abbrev pub Held : ℕ → List Block → Mem → List Block → Type 0
Held lo bs m [] = Unit {0}
Held lo bs m ((a, t) ∷ hs) = Allocated lo a t bs m × IsApart a t hs × Held lo bs m hs

pub record Safe (lo : ℕ) (s : Heap) : Type 0 where
  pub free : List Block
  pub valid : Valid lo free s.mem
  pub posted : 0 < s.mem.sem
  pub all_held : Held lo free s.mem s.held

count_free : (lo : ℕ) (bs : List Block) (hi : ℕ) → Spaced lo bs hi → lo + length bs ≤ suc hi
count_free lo [] hi sp = omega arith
count_free lo ((a, s) ∷ bs) hi sp = omega (arith, count_free (suc (a + s)) bs hi sp.2)

enough :
    (lo fuel : ℕ) (bs : List Block) (m : Mem) → Valid lo bs m → 2 ^ 32 ≤ fuel → length bs < fuel
enough lo fuel bs m v le = omega (arith, count_free lo bs m.mem_end v.pool.spaced, v.pool.near)

not_start :
    (lo q t : ℕ) (bs : List Block) (m : Mem) → Valid lo bs m → Allocated lo q t bs m → q ≢ m.start
not_start lo q t bs m v al e =
    absurd (omega (arith, v.pool.outside, al.low, al.fits, al.some_bytes))

kept-Held :
    (lo size a : ℕ) (bs hs : List Block) (m m' : Mem) (s : Served lo size bs m a m')
    → Valid lo bs m
    → Held lo bs m hs
    → Held lo s.left m' hs × IsApart a s.given hs
kept-Held lo size a bs [] m m' s v h = (tt, tt)
kept-Held lo size a bs ((q, t) ∷ hs) m m' s v h =
    let (al, free) = s.others q t (not_start lo q t bs m v h.0) h.0 in
    let (rest, apart) = kept-Held lo size a bs hs m m' s v h.2 in
    ((al, h.1, rest), (omega arith, apart))

IsApart-removed :
    (q t a u : ℕ) (hs rest : List Block)
    → Removes (a, u) hs rest
    → IsApart q t hs
    → IsApart q t rest × ((q + t ≤ a) ⊎ (a + u ≤ q))
IsApart-removed q t a u hs rest here apart = (apart.1, apart.0)
IsApart-removed q t a u hs rest (later r) apart =
    let (x, y) = IsApart-removed q t a u _ _ r apart.1 in ((apart.0, x), y)

Held-removed :
    (lo a u : ℕ) (bs hs rest : List Block) (m : Mem)
    → Removes (a, u) hs rest
    → Held lo bs m hs
    → Allocated lo a u bs m × Held lo bs m rest × IsApart a u rest
Held-removed lo a u bs hs rest m here h = (h.0, h.2, h.1)
Held-removed lo a u bs hs rest m (later {x} r) h =
    let (al, held, apart) = Held-removed lo a u bs _ _ m r h.2 in
    let (apart', free) = IsApart-removed x.0 x.1 a u _ _ r h.1 in
    (al, (h.0, apart', held), (omega arith, apart))

abbrev state_or : Option Mem → Mem → Mem
state_or none m = m
state_or (some n) m = n

-- The others stay held when a block is given back.
Held-others :
    (lo : ℕ) (bs bs' hs : List Block) (m m' : Mem) (a u : ℕ)
    → Valid lo bs m
    → ((q t : ℕ)
        → q ≢ m.start
        → Allocated lo q t bs m
        → (q + t ≤ a) ⊎ (a + u ≤ q)
        → Allocated lo q t bs' m')
    → IsApart a u hs
    → Held lo bs m hs
    → Held lo bs' m' hs
Held-others lo bs bs' [] m m' a u v keep apart h = tt
Held-others lo bs bs' ((q, t) ∷ hs) m m' a u v keep apart h = (
  keep q t (not_start lo q t bs m v h.0) h.0 (omega arith),
  h.1,
  Held-others lo bs bs' hs m m' a u v keep apart.1 h.2,
)

Step-Safe : (lo : ℕ) {s t : Heap} → Step s t → Safe lo s → Safe lo t
Step-Safe lo {s} (mallocs pool rc fuel size p m le width run np) safe =
    let v = safe.valid in
    elim (malloc-Outcome pool rc fuel lo size safe.free s.mem (enough lo fuel safe.free s.mem v le)
      width v safe.posted) [
        | inl (r, why) ↦ absurd (np (ap (λ o. (outcome_of o (p, m)).0) (sym run ∙ r)))
        | inr (a, n, r, same, st) ↦
            let at : a + 16 ≡ p = ap (λ o. (outcome_of o (p, m)).0) (sym r ∙ run) in
            let nm : n ≡ m = ap (λ o. (outcome_of o (p, m)).1) (sym r ∙ run) in
            let (held, apart) =
              kept-Held lo (size + 16) a safe.free s.held s.mem n st v safe.all_held in
            let z : (n.links a).size ≡ st.given + 2 ^ 31 = ap (λ l. l.size) st.allocated.marked in
            let k : a ≡ p - 16 = omega arith in
            let g : st.given ≡ (n.links a).size - 2 ^ 31 = omega arith in
            let g' : st.given ≡ (m.links (p - 16)).size - 2 ^ 31 =
              g ∙ ap₂ (λ (x : Mem) q. (x.links q).size - 2 ^ 31) nm k in
            let before : Safe lo (record { mem = n; held = (a, st.given) ∷ s.held }) = record {
              free = st.left;
              valid = st.valid;
              posted = omega (arith, safe.posted);
              all_held = (st.allocated, apart, held);
            } in
            subst (Safe lo)
              (ap₂ (λ x (b : Block). record { mem = x; held = b ∷ s.held }) nm
                (ap₂ (λ x y. (x, y)) k g'))
              before
      ]
Step-Safe lo {s} (refuses pool rc fuel size m le width run) safe =
    let v = safe.valid in
    elim (malloc-Outcome pool rc fuel lo size safe.free s.mem (enough lo fuel safe.free s.mem v le)
      width v safe.posted) [
        | inl (r, why) ↦
            let e : s.mem ≡ m = ap (λ o. (outcome_of o (null, m)).1) (sym r ∙ run) in
            subst (Safe lo) (ap (λ x. record { mem = x; held = s.held }) e) safe
        | inr (a, n, r, same, st) ↦
            let at : a + 16 ≡ 0 = ap (λ o. (outcome_of o (null, m)).0) (sym r ∙ run) in
            absurd (omega arith)
      ]
Step-Safe lo {s} (frees fuel a t m rest le out run) safe =
    let v = safe.valid in
    let (al, held, apart) = Held-removed lo a t safe.free s.held rest s.mem out safe.all_held in
    let (n, r, v', same, keep) =
      free-Valid fuel lo a t safe.free s.mem (enough lo fuel safe.free s.mem v le) v al
        safe.posted in
    let e : n ≡ m = ap (λ o. state_or o m) (sym r ∙ run) in
    let after : Safe lo (record { mem = n; held = rest }) = record {
      free = insert_block a t safe.free;
      valid = v';
      posted = omega (arith, safe.posted);
      all_held =
          Held-others lo safe.free (insert_block a t safe.free) rest s.mem n a t v keep apart held;
    } in
    subst (Safe lo) (ap (λ x. record { mem = x; held = rest }) e) after

-- Over any sequence of calls by which clients take blocks and give back blocks that they hold, the
-- state of the pool stays sound, and every block that is held shares no byte with another or with a
-- free block.
pub Reach-Safe : (lo : ℕ) {s t : Heap} → Safe lo s → Reach s t → Safe lo t
Reach-Safe lo safe start = safe
Reach-Safe lo safe (next r k) = Step-Safe lo k (Reach-Safe lo safe r)
