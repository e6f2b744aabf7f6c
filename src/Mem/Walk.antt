-- ===== src/Mem/Walk.antt =====
-- The loop of `base_mem_insert` finds the place of the block, and the insertion there gives the
-- list that `insert_block` describes.
use basearch.Prelude.{
  ℕ, zero, suc, ◌+◌, ◌^◌, ◌≤◌, ◌<◌, ◌≡◌, refl, sym, ap, ◌∙◌, ◌≢◌, List, [], ◌∷◌, arith, ◌==◌, ltb,
  lt→ltb, ==_iff, eq_false_of_ne, true, false, some, length,
}
use native.Mathlib.Decide.{dec_lt, ℕ_discrete}
use basearch.Mem.Blocks.{Block, Spaced, IsApart, join_first, insert_block}
use basearch.Mem.Chain.{Chain, Avoids, Spaced-Avoids}
use basearch.Mem.Insert.{behind_apart, behind_touch}
use basearch.Mem.{Link, insert_behind, find_spot}

-- What is inserted before the whole list is joined with its first block only.
pub insert_block-first :
    (b t : ℕ) (bs : List Block) (hi : ℕ)
    → Spaced (suc b) bs hi
    → insert_block b t bs ≡ join_first b t bs
unfolding insert_block join_first
insert_block-first b t [] hi sp = refl
insert_block-first b t ((a, s) ∷ bs) hi sp =
    let q : ltb b a ≡ true = lt→ltb _ _ (omega arith) in rw q

pub insert_block-skip :
    (b t a s : ℕ) (bs : List Block)
    → a ≤ b
    → a + s < b
    → insert_block b t ((a, s) ∷ bs) ≡ (a, s) ∷ insert_block b t bs
unfolding insert_block
insert_block-skip b t a s bs le lt =
    let q : ltb b a ≡ false = ground arith in
    let r : (a + s == b) ≡ false = eq_false_of_ne _ _ (λ k. absurd (omega arith)) in rw (q, r)

-- The loop stops at a link that leads past the block, and goes on at one that does not.
find_spot-stop :
    (fuel : ℕ) (links : ℕ → Link) (it ins : ℕ)
    → ins ≤ (links it).next
    → find_spot (suc fuel) links it ins ≡ some it
unfolding find_spot
find_spot-stop fuel links it ins le = ground arith

find_spot-go :
    (fuel : ℕ) (links : ℕ → Link) (it n ins : ℕ)
    → (links it).next ≡ n
    → n < ins
    → find_spot (suc fuel) links it ins ≡ find_spot fuel links n ins
unfolding find_spot
find_spot-go fuel links it n ins e lt = let q : ltb n ins ≡ true = lt→ltb _ _ lt in rw (e, q)

-- A list whose bytes from `b` on are free and that goes on behind `b` starts behind those bytes.
pub Spaced-behind :
    (b t lo : ℕ) (bs : List Block) (hi : ℕ)
    → b < lo
    → b + t ≤ hi
    → IsApart b t bs
    → Spaced lo bs hi
    → Spaced (b + t) bs hi
Spaced-behind b t lo [] hi lt fits apart sp = omega arith
Spaced-behind b t lo ((a, s) ∷ bs) hi lt fits apart sp = (omega arith, sp.1, sp.2)

module _ (links : ℕ → Link) (ins t e : ℕ) (sz : (links ins).size ≡ t) (pos : 0 < t)
    (room : ins + t ≤ e) where
  -- The chain from the block `(p, s)` on with the new block in it.
  pub record Inserted (links' : ℕ → Link) (p s : ℕ) (bs : List Block) : Type 0 where
    pub size : ℕ
    pub rest : List Block
    pub blocks : insert_block ins t ((p, s) ∷ bs) ≡ (p, size) ∷ rest
    pub holds : (links' p).size ≡ size
    pub chain : Chain links' p rest e
    pub same : (q : ℕ) → q ≢ ins → q ≢ p → Avoids q bs → links' q ≡ links q

  -- The loop has come to the block behind which the new one goes.
  stop :
      (p s : ℕ) (bs : List Block)
      → (links p).size ≡ s
      → Chain links p bs e
      → p < ins
      → p + s ≤ ins
      → Spaced (suc (p + s)) bs e
      → Spaced (suc ins) bs e
      → IsApart ins t bs
      → e < p + 2 ^ 32
      → Inserted (insert_behind e links p ins) p s bs
  unfolding insert_block
  stop p s bs size c lt below sp behind apart near =
      let q : ltb ins p ≡ false = ground arith in
      let sp' = Spaced-behind ins t (suc ins) bs e (omega arith) room apart behind in
      elim (ℕ_discrete (p + s) ins) [
        | yes k ↦
            let r : (p + s == ins) ≡ true = (==_iff _ _).1 k in
            let l = behind_touch links ins t e sz pos room p s bs k size c sp' near in
            record {
              size = l.size;
              rest = l.rest;
              blocks = rw (q, r) l.joined;
              holds = l.holds;
              chain = l.chain;
              same = λ x ni np av. l.same x np;
            }
        | no ne ↦
            let r : (p + s == ins) ≡ false = eq_false_of_ne _ _ ne in
            let (c', keep, same) =
              behind_apart links ins t e sz pos room p bs (rw size ne) (λ k. absurd (omega arith)) c
                sp' (Spaced-Avoids p (suc (p + s)) bs e (omega arith) sp) (omega arith) in
            record {
              size = s;
              rest = join_first ins t bs;
              blocks = rw (q, r) (ap (λ l. (p, s) ∷ l) (insert_block-first ins t bs e behind));
              holds = keep ∙ size;
              chain = c';
              same = λ x ni np av. same x np ni;
            }
      ]

  walk :
      (fuel p s : ℕ) (bs : List Block)
      → length bs < fuel
      → (links p).size ≡ s
      → Chain links p bs e
      → p < ins
      → 0 < s
      → Spaced (suc (p + s)) bs e
      → IsApart ins t ((p, s) ∷ bs)
      → e < p + 2 ^ 32
      → (it : ℕ) × (find_spot fuel links p ins ≡ some it)
        × Inserted (insert_behind e links it ins) p s bs
  walk zero p s bs few size c lt ps sp apart near = absurd (omega arith)
  walk (suc fuel) p s [] few size c lt ps sp apart near = (
    p,
    find_spot-stop fuel links p ins (rw c (omega arith)),
    stop p s [] size c lt (omega arith) sp (omega arith) tt near,
  )
  walk (suc fuel) p s ((a, u) ∷ bs) few size c lt ps sp apart near = elim (dec_lt a ins) [
    | no ge ↦ (
      p,
      find_spot-stop fuel links p ins (rw c.0 (omega arith)),
      stop p s ((a, u) ∷ bs) size c lt (omega arith) sp (omega arith, sp.1, sp.2) apart.1 near,
    )
    | yes more ↦
        let (it, found, i) =
          walk fuel a u bs (omega arith) c.1 c.2 more sp.1 sp.2 apart.1 (omega arith) in
        let kept : insert_behind e links it ins p ≡ links p =
          i.same p (λ k. absurd (omega arith)) (λ k. absurd (omega arith))
            (Spaced-Avoids p (suc (a + u)) bs e (omega arith) sp.2) in
        (
          it,
          find_spot-go fuel links p a ins c.0 more ∙ found,
          record {
            size = s;
            rest = (a, i.size) ∷ i.rest;
            blocks =
                insert_block-skip ins t p s ((a, u) ∷ bs) (omega arith) (omega arith)
                ∙ ap (λ l. (p, s) ∷ l) i.blocks;
            holds = ap (λ l. l.size) kept ∙ size;
            chain = (ap (λ l. l.next) kept ∙ c.0, i.holds, i.chain);
            same = λ x ni np av. i.same x ni (λ k. av.0 (sym k)) av.1;
          },
        )
  ]

  -- `base_mem_insert` from the list's anchor `p`, a link of size 0 outside the list: with fuel for
  -- every block the loop ends, and the chain stands for the list with the block in its place; no
  -- link changes but the anchor's, the block's and those of the list.
  pub insert-Chain :
      (fuel p lo : ℕ) (bs : List Block)
      → length bs < fuel
      → (links p).size ≡ 0
      → Chain links p bs e
      → p ≢ ins
      → Avoids p bs
      → lo ≤ ins
      → Spaced lo bs e
      → IsApart ins t bs
      → e < lo + 2 ^ 32
      → (it : ℕ) × (find_spot fuel links p ins ≡ some it)
        × Chain (insert_behind e links it ins) p (insert_block ins t bs) e
        × ((insert_behind e links it ins p).size ≡ 0)
        × ((q : ℕ) → q ≢ ins → q ≢ p → Avoids q bs → insert_behind e links it ins q ≡ links q)
  insert-Chain zero p lo bs few size c ne av low sp apart near = absurd (omega arith)
  insert-Chain (suc fuel) p lo [] few size c ne av low sp apart near =
      let (c', keep, same) =
        behind_apart links ins t e sz pos room p [] (rw size (λ k. ne (omega arith))) ne c
          (omega arith) tt (omega arith) in
      (
        p,
        find_spot-stop fuel links p ins (rw c (omega arith)),
        rw (insert_block-first ins t [] e (omega arith)) c',
        keep ∙ size,
        λ x ni np _. same x np ni,
      )
  insert-Chain (suc fuel) p lo ((a, s) ∷ bs) few size c ne av low sp apart near =
      elim (dec_lt a ins) [
        | no ge ↦
            let sp' : Spaced (suc ins) ((a, s) ∷ bs) e = (omega arith, sp.1, sp.2) in
            let (c', keep, same) =
              behind_apart links ins t e sz pos room p ((a, s) ∷ bs)
                (rw size (λ k. ne (omega arith))) ne c
                (Spaced-behind ins t (suc ins) ((a, s) ∷ bs) e (omega arith) room apart sp') av
                (omega arith) in
            (
              p,
              find_spot-stop fuel links p ins (rw c.0 (omega arith)),
              rw (insert_block-first ins t ((a, s) ∷ bs) e sp') c',
              keep ∙ size,
              λ x ni np _. same x np ni,
            )
        | yes more ↦
            let (it, found, i) =
              walk fuel a s bs (omega arith) c.1 c.2 more sp.1 sp.2 apart (omega arith) in
            let kept : insert_behind e links it ins p ≡ links p =
              i.same p ne (λ k. av.0 (sym k)) av.1 in
            (
              it,
              find_spot-go fuel links p a ins c.0 more ∙ found,
              rw i.blocks (ap (λ l. l.next) kept ∙ c.0, i.holds, i.chain),
              ap (λ l. l.size) kept ∙ size,
              λ x ni np ax. i.same x ni (λ k. ax.0 (sym k)) ax.1,
            )
      ]
