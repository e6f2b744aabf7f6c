-- ===== src/Mem/Split.antt =====
-- A block cut in two: giving back the second half and then the first is giving back the whole.
use basearch.Prelude.{
  ℕ, suc, ◌+◌, ◌≤◌, ◌<◌, ◌≡◌, sym, ap, ◌∙◌, ◌⊎◌, List, [], ◌∷◌, arith, ◌==◌, ltb, lt→ltb, ==_iff,
  ==_refl, eq_false_of_ne, true, false,
}
use native.Mathlib.Nat.{add_assoc}
use native.Mathlib.Decide.{dec_lt, ℕ_discrete}
use basearch.Mem.Blocks.{
  Block, Spaced, Spaced-weaken, IsApart, join_first, insert_block, Spaced-join_first,
}
use basearch.Mem.Walk.{insert_block-skip, insert_block-first, Spaced-behind}

pub IsApart-join_first :
    (a s b t : ℕ) (bs : List Block)
    → (a + s ≤ b) ⊎ (b + t ≤ a)
    → IsApart a s bs
    → 0 < s
    → IsApart a s (join_first b t bs)
unfolding join_first
IsApart-join_first a s b t [] new apart pos = (new, tt)
IsApart-join_first a s b t ((c, u) ∷ bs) new apart pos = elim (ℕ_discrete (b + t) c) [
  | yes e ↦ let q : (b + t == c) ≡ true = (==_iff _ _).1 e in rw q (omega arith, apart.1)
  | no ne ↦ let q : (b + t == c) ≡ false = eq_false_of_ne _ _ ne in rw q (new, apart)
]

-- Bytes that are apart from a list and from a block are apart from the list with the block.
pub IsApart-insert_block :
    (a s b t : ℕ) (bs : List Block)
    → (a + s ≤ b) ⊎ (b + t ≤ a)
    → IsApart a s bs
    → 0 < s
    → 0 < t
    → IsApart a s (insert_block b t bs)
unfolding insert_block
IsApart-insert_block a s b t [] new apart pos some_t = (new, tt)
IsApart-insert_block a s b t ((c, u) ∷ bs) new apart pos some_t = elim (dec_lt b c) [
  | yes lt ↦
      let q : ltb b c ≡ true = lt→ltb _ _ lt in
      rw q (IsApart-join_first a s b t ((c, u) ∷ bs) new apart pos)
  | no ge ↦
      let q : ltb b c ≡ false = ground arith in
      elim (ℕ_discrete (c + u) b) [
        | yes e ↦
            let r : (c + u == b) ≡ true = (==_iff _ _).1 e in
            rw (q, r) (IsApart-join_first a s c (u + t) bs (omega arith) apart.1 pos)
        | no ne ↦
            let r : (c + u == b) ≡ false = eq_false_of_ne _ _ ne in
            rw (q, r) (apart.0, IsApart-insert_block a s b t bs new apart.1 pos some_t)
      ]
]

-- Two parts that touch, in front of a list, are joined to the whole in front of it.
join_first-join_first :
    (a x y : ℕ) (bs : List Block)
    → join_first a x (join_first (a + x) y bs) ≡ join_first a (x + y) bs
unfolding join_first
join_first-join_first a x y [] = let q : (a + x == a + x) ≡ true = ==_refl (a + x) in rw q
join_first-join_first a x y ((c, u) ∷ bs) = elim (ℕ_discrete (a + x + y) c) [
  | yes e ↦
      let q : (a + x + y == c) ≡ true = (==_iff _ _).1 e in
      let r : (a + (x + y) == c) ≡ true = (==_iff _ _).1 (omega arith) in
      let k : x + (y + u) ≡ x + y + u = omega arith in rw (q, r, ==_refl (a + x), k)
  | no ne ↦
      let q : (a + x + y == c) ≡ false = eq_false_of_ne _ _ ne in
      let r : (a + (x + y) == c) ≡ false = eq_false_of_ne _ _ (λ e. ne (omega arith)) in
      rw (q, r, ==_refl (a + x))
]

pub IsApart-second :
    (a x y : ℕ) (bs : List Block) → 0 < y → IsApart a (x + y) bs → IsApart (a + x) y bs
IsApart-second a x y [] pos apart = tt
IsApart-second a x y ((c, u) ∷ bs) pos apart = (omega arith, IsApart-second a x y bs pos apart.1)

-- The block that the new one touches from behind grows.
insert_block-touch :
    (b t c u : ℕ) (bs : List Block)
    → c + u ≡ b
    → insert_block b t ((c, u) ∷ bs) ≡ join_first c (u + t) bs
unfolding insert_block
insert_block-touch b t c u bs e =
    let q : ltb b c ≡ false = ground arith in
    let r : (c + u == b) ≡ true = (==_iff _ _).1 e in rw (q, r)

module _ (a x y hi : ℕ) (px : 0 < x) (py : 0 < y) (fits : a + (x + y) ≤ hi) where
  parts-front :
      (bs : List Block)
      → Spaced (suc (a + x)) bs hi
      → IsApart a (x + y) bs
      → insert_block a x (insert_block (a + x) y bs) ≡ join_first a (x + y) bs
  parts-front bs sp apart =
      ap (insert_block a x) (insert_block-first (a + x) y bs hi sp)
      ∙ insert_block-first a x (join_first (a + x) y bs) hi (
          Spaced-join_first (suc a) (a + x) y bs hi (omega arith) py (omega arith)
            (IsApart-second a x y bs py apart)
            (Spaced-weaken (suc (a + x)) (a + x) bs hi (omega arith) sp))
      ∙ join_first-join_first a x y bs

  parts-touch :
      (c u : ℕ) (bs : List Block)
      → c + u ≡ a
      → Spaced (suc (c + u)) bs hi
      → IsApart a (x + y) bs
      → insert_block a x (insert_block (a + x) y ((c, u) ∷ bs)) ≡ join_first c (u + (x + y)) bs
  parts-touch c u bs e sp apart =
      let far = Spaced-behind a (x + y) (suc (c + u)) bs hi (omega arith) fits apart sp in
      let sp' = Spaced-weaken (a + (x + y)) (suc (a + x)) bs hi (omega arith) far in
      let k : a + x ≡ c + (u + x) = omega arith in
      ap (insert_block a x) (
        insert_block-skip (a + x) y c u bs (omega arith) (omega arith)
        ∙ ap (λ l. (c, u) ∷ l) (insert_block-first (a + x) y bs hi sp'))
      ∙ insert_block-touch a x c u (join_first (a + x) y bs) e
      ∙ ap (λ n. join_first c (u + x) (join_first n y bs)) k
      ∙ join_first-join_first c (u + x) y bs
      ∙ ap (λ n. join_first c n bs) (add_assoc u x y)

  pub insert_block-parts :
      (lo : ℕ) (bs : List Block)
      → Spaced lo bs hi
      → IsApart a (x + y) bs
      → insert_block a x (insert_block (a + x) y bs) ≡ insert_block a (x + y) bs
  insert_block-parts lo [] sp apart =
      parts-front [] (omega arith) tt ∙ sym (insert_block-first a (x + y) [] hi (omega arith))
  insert_block-parts lo ((c, u) ∷ bs) sp apart = elim (dec_lt a c) [
    | yes lt ↦
        let front : Spaced (suc (a + x)) ((c, u) ∷ bs) hi = (omega arith, sp.1, sp.2) in
        parts-front ((c, u) ∷ bs) front apart
        ∙ sym (
            insert_block-first a (x + y) ((c, u) ∷ bs) hi
              (Spaced-weaken (suc (a + x)) (suc a) ((c, u) ∷ bs) hi (omega arith) front))
    | no ge ↦ elim (ℕ_discrete (c + u) a) [
      | yes e ↦ parts-touch c u bs e sp.2 apart.1 ∙ sym (insert_block-touch a (x + y) c u bs e)
      | no ne ↦
          ap (insert_block a x) (insert_block-skip (a + x) y c u bs (omega arith) (omega arith))
          ∙ insert_block-skip a x c u (insert_block (a + x) y bs) (omega arith) (omega arith)
          ∙ ap (λ l. (c, u) ∷ l) (insert_block-parts (suc (c + u)) bs sp.2 apart.1)
          ∙ sym (insert_block-skip a (x + y) c u bs (omega arith) (omega arith))
    ]
  ]
