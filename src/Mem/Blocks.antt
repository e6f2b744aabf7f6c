-- ===== src/Mem/Blocks.antt =====
-- Free blocks as a list of addresses and sizes, sorted, with no two that touch: what the links in
-- memory stand for, and what an insertion does to such a list.
use basearch.Prelude.{
  ℕ, suc, ◌+◌, ◌≤◌, ◌<◌, ◌≡◌, refl, ◌⊎◌, List, [], ◌∷◌, arith, if◌then◌else◌, ◌==◌, ltb, ==_iff,
  eq_false_of_ne, lt→ltb, subst, true, false, length,
}
use native.Mathlib.Decide.{dec_lt, ℕ_discrete}

abbrev pub Block : Type 0
Block = ℕ × ℕ

-- From `lo` on the blocks are in order, not empty, and apart from one another by at least a byte;
-- the last ends at `hi` at most.
abbrev pub Spaced : ℕ → List Block → ℕ → Type 0
Spaced lo [] hi = lo ≤ suc hi
Spaced lo ((a, s) ∷ bs) hi = (lo ≤ a) × (0 < s) × Spaced (suc (a + s)) bs hi

-- The bytes of `t` from `b` on belong to no block.
abbrev pub IsApart : ℕ → ℕ → List Block → Type 0
IsApart b t [] = Unit {0}
IsApart b t ((a, s) ∷ bs) = ((b + t ≤ a) ⊎ (a + s ≤ b)) × IsApart b t bs

unfoldable pub total : List Block → ℕ
total [] = 0
total ((a, s) ∷ bs) = s + total bs

-- A block in front of a list, joined with the first if they touch.
unfoldable pub join_first : ℕ → ℕ → List Block → List Block
join_first b t [] = (b, t) ∷ []
join_first b t ((a, s) ∷ bs) = if b + t == a then (b, t + s) ∷ bs else (b, t) ∷ (a, s) ∷ bs

-- The block put in its place, and joined with its neighbours where they touch.
unfoldable pub insert_block : ℕ → ℕ → List Block → List Block
unfolding join_first
insert_block b t [] = (b, t) ∷ []
insert_block b t ((a, s) ∷ bs) =
    if ltb b a
    then join_first b t ((a, s) ∷ bs)
    else if a + s == b
    then join_first a (s + t) bs
    else (a, s) ∷ insert_block b t bs

pub total-join_first : (b t : ℕ) (bs : List Block) → total (join_first b t bs) ≡ t + total bs
unfolding total join_first
total-join_first b t [] = refl
total-join_first b t ((a, s) ∷ bs) = ground arith

pub total-insert_block : (b t : ℕ) (bs : List Block) → total (insert_block b t bs) ≡ t + total bs
unfolding total insert_block
total-insert_block b t [] = refl
total-insert_block b t ((a, s) ∷ bs) = ground (
  arith,
  total-insert_block b t bs,
  total-join_first b t ((a, s) ∷ bs),
  total-join_first a (s + t) bs,
)

pub Spaced-weaken :
    (lo lo' : ℕ) (bs : List Block) (hi : ℕ) → lo' ≤ lo → Spaced lo bs hi → Spaced lo' bs hi
Spaced-weaken lo lo' [] hi le sp = omega arith
Spaced-weaken lo lo' ((a, s) ∷ bs) hi le sp = (omega arith, sp.1, sp.2)

pub Spaced-le : (lo : ℕ) (bs : List Block) (hi : ℕ) → Spaced lo bs hi → lo ≤ suc hi
Spaced-le lo [] hi sp = sp
Spaced-le lo ((a, s) ∷ bs) hi sp = omega (arith, Spaced-le (suc (a + s)) bs hi sp.2)

-- Blocks that lie behind a byte are behind all of what stands before it.
IsApart-extend :
    (a s b t lo : ℕ) (bs : List Block) (hi : ℕ)
    → a + s ≡ b + t
    → b < lo
    → Spaced lo bs hi
    → IsApart b t bs
    → IsApart a s bs
IsApart-extend a s b t lo [] hi e lt sp apart = tt
IsApart-extend a s b t lo ((c, u) ∷ bs) hi e lt sp apart =
    (omega arith, IsApart-extend a s b t (suc (c + u)) bs hi e (omega arith) sp.2 apart.1)

pub Spaced-join_first :
    (lo b t : ℕ) (bs : List Block) (hi : ℕ)
    → lo ≤ b
    → 0 < t
    → b + t ≤ hi
    → IsApart b t bs
    → Spaced b bs hi
    → Spaced lo (join_first b t bs) hi
unfolding join_first
Spaced-join_first lo b t [] hi low pos fits apart sp = omega arith
Spaced-join_first lo b t ((a, s) ∷ bs) hi low pos fits apart sp = elim (ℕ_discrete (b + t) a) [
  | yes e ↦
      let q : (b + t == a) ≡ true = (==_iff _ _).1 e in
      let k : suc (a + s) ≡ suc (b + (t + s)) = omega arith in
      rw q (low, omega arith, subst (λ m. Spaced m bs hi) k sp.2)
  | no ne ↦
      let q : (b + t == a) ≡ false = eq_false_of_ne _ _ ne in
      rw q (low, pos, (omega arith, sp.1, sp.2))
]

-- Putting a block of free bytes in its place keeps the list sorted and its blocks apart.
pub Spaced-insert_block :
    (lo b t : ℕ) (bs : List Block) (hi : ℕ)
    → lo ≤ b
    → 0 < t
    → b + t ≤ hi
    → IsApart b t bs
    → Spaced lo bs hi
    → Spaced lo (insert_block b t bs) hi
unfolding insert_block
Spaced-insert_block lo b t [] hi low pos fits apart sp = omega arith
Spaced-insert_block lo b t ((a, s) ∷ bs) hi low pos fits apart sp = elim (dec_lt b a) [
  | yes lt ↦
      let q : ltb b a ≡ true = lt→ltb _ _ lt in
      rw q (Spaced-join_first lo b t ((a, s) ∷ bs) hi low pos fits apart (omega arith, sp.1, sp.2))
  | no ge ↦
      let q : ltb b a ≡ false = ground arith in
      elim (ℕ_discrete (a + s) b) [
        | yes e ↦
            let r : (a + s == b) ≡ true = (==_iff _ _).1 e in
            rw (q, r)
              (Spaced-join_first lo a (s + t) bs hi sp.0 (omega arith) (omega arith)
                (IsApart-extend a (s + t) b t (suc (a + s)) bs hi (omega arith) (omega arith) sp.2
                  apart.1)
                (Spaced-weaken (suc (a + s)) a bs hi (omega arith) sp.2))
        | no ne ↦
            let r : (a + s == b) ≡ false = eq_false_of_ne _ _ ne in
            rw (q, r)
              (
                sp.0,
                sp.1,
                Spaced-insert_block (suc (a + s)) b t bs hi (omega arith) pos fits apart.1 sp.2,
              )
      ]
]

-- The list grows by a block at most.
pub length-insert_block :
    (b t : ℕ) (bs : List Block) → length (insert_block b t bs) ≤ suc (length bs)
unfolding insert_block join_first
length-insert_block b t [] = omega arith
length-insert_block b t ((a, s) ∷ []) = ground (arith, length-insert_block b t [])
length-insert_block b t ((a, s) ∷ (c, u) ∷ bs) =
    ground (arith, length-insert_block b t ((c, u) ∷ bs))
