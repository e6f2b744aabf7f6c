-- ===== src/Mem/Chain.antt =====
-- Chains of links that stand for lists of blocks, and one step of `base_mem_insert` on a chain.
use basearch.Prelude.{
  ℕ, suc, ◌+◌, ◌^◌, ◌<◌, ◌≡◌, refl, ap, ◌∙◌, ◌≢◌, ◌⊎◌, inl, inr, List, [], ◌∷◌, arith, ◌==◌,
  Bool-cases, ==_iff, eq_false_of_ne, true, false,
}
use native.Mathlib.Decide.{ℕ_discrete}
use basearch.Mem.Blocks.{Block, Spaced, Spaced-le, join_first}
use basearch.Mem.{Link, put_link, set_next, add32, join_behind}

-- From `p` on the links lead through the blocks to `e`, and the headers hold the sizes.
abbrev pub Chain : (ℕ → Link) → ℕ → List Block → ℕ → Type 0
Chain links p [] e = (links p).next ≡ e
Chain links p ((a, s) ∷ bs) e = ((links p).next ≡ a) × ((links a).size ≡ s) × Chain links a bs e

-- No block is at `q`.
abbrev pub Avoids : ℕ → List Block → Type 0
Avoids q [] = Unit {0}
Avoids q ((a, s) ∷ bs) = (a ≢ q) × Avoids q bs

pub Spaced-Avoids : (q lo : ℕ) (bs : List Block) (hi : ℕ) → q < lo → Spaced lo bs hi → Avoids q bs
Spaced-Avoids q lo [] hi lt sp = tt
Spaced-Avoids q lo ((a, s) ∷ bs) hi lt sp =
    (λ e. absurd (omega arith), Spaced-Avoids q (suc (a + s)) bs hi (omega arith) sp.2)

-- A chain survives a change of one link that is not in it, and may be entered from elsewhere.
pub Chain-frame :
    (links links' : ℕ → Link) (p p' x : ℕ) (bs : List Block) (e : ℕ)
    → ((q : ℕ) → q ≢ x → links' q ≡ links q)
    → (links' p').next ≡ (links p).next
    → Avoids x bs
    → Chain links p bs e
    → Chain links' p' bs e
Chain-frame links links' p p' x [] e same head av c = head ∙ c
Chain-frame links links' p p' x ((a, s) ∷ bs) e same head av c =
    let k = same a av.0 in
    (
      head ∙ c.0,
      ap (λ l. l.size) k ∙ c.1,
      Chain-frame links links' a a x bs e same (ap (λ l. l.next) k) av.1 c.2,
    )

-- What linking the block at `b` to what follows `it` makes of the rest of the chain.
pub record Linked (links links' : ℕ → Link) (b t : ℕ) (bs : List Block) (e : ℕ) : Type 0 where
  pub size : ℕ
  pub rest : List Block
  pub joined : join_first b t bs ≡ (b, size) ∷ rest
  pub holds : (links' b).size ≡ size
  pub chain : Chain links' b rest e
  pub same : (q : ℕ) → q ≢ b → links' q ≡ links q
  pub avoids : (q : ℕ) → Avoids q bs → Avoids q rest

module _ (links : ℕ → Link) (it b t e : ℕ) (sz : (links b).size ≡ t) where
  join_behind-touch :
      (a s : ℕ)
      → (links it).next ≡ a
      → (links a).size ≡ s
      → b + t ≡ a
      → a ≢ e
      → t + s < 2 ^ 32
      → join_behind e links it b ≡ put_link links b (record { next = (links a).next; size = t + s })
  unfolding join_behind
  join_behind-touch a s n z touch ne small =
      let q : (b + t == a) ≡ true = (==_iff _ _).1 touch in
      let r : (a == e) ≡ false = eq_false_of_ne _ _ ne in
      let w : add32 t s ≡ t + s = omega arith in rw (n, sz, q, r, z, w)

  join_behind-apart :
      (a : ℕ)
      → (links it).next ≡ a
      → (b + t ≢ a) ⊎ (a ≡ e)
      → join_behind e links it b ≡ set_next links b a
  unfolding join_behind
  join_behind-apart a n (inl ne) =
      let q : (b + t == a) ≡ false = eq_false_of_ne _ _ ne in rw (n, sz, q)
  join_behind-apart a n (inr k) = elim (Bool-cases (b + t == a)) [
    | inr q ↦ rw (n, sz, q)
    | inl q ↦ let r : (a == e) ≡ true = (==_iff _ _).1 k in rw (n, sz, q, r, k)
  ]

  -- Linking the block to what follows joins it with the first block, if they touch.
  pub join_behind-Linked :
      (bs : List Block)
      → Chain links it bs e
      → 0 < t
      → Spaced (b + t) bs e
      → e < b + 2 ^ 32
      → Linked links (join_behind e links it b) b t bs e
  unfolding join_first
  join_behind-Linked [] c pos sp near = rw (join_behind-apart e c (inr refl)) (record {
    size = t;
    rest = [];
    joined = refl;
    holds = ground arith;
    chain = ground arith;
    same = λ q ne. ground arith;
    avoids = λ q av. av;
  })
  join_behind-Linked ((a, s) ∷ bs) c pos sp near =
      let top = Spaced-le (suc (a + s)) bs e sp.2 in
      elim (ℕ_discrete (b + t) a) [
        | yes k ↦
            let q : (b + t == a) ≡ true = (==_iff _ _).1 k in
            rw (join_behind-touch a s c.0 c.1 k (λ z. absurd (omega arith)) (omega arith)) (record {
              size = t + s;
              rest = bs;
              joined = rw q;
              holds = ground arith;
              chain =
                  Chain-frame links _ a b b bs e (λ x ne. ground arith) (ground arith)
                    (Spaced-Avoids b (suc (a + s)) bs e (omega arith) sp.2) c.2;
              same = λ x ne. ground arith;
              avoids = λ x av. av.1;
            })
        | no ne ↦
            let q : (b + t == a) ≡ false = eq_false_of_ne _ _ ne in
            rw (join_behind-apart a c.0 (inl ne)) (record {
              size = t;
              rest = (a, s) ∷ bs;
              joined = rw q;
              holds = ground arith;
              chain =
                  Chain-frame links _ it b b ((a, s) ∷ bs) e (λ x nx. ground arith) (ground arith)
                    (
                      λ z. absurd (omega arith),
                      Spaced-Avoids b (suc (a + s)) bs e (omega arith) sp.2,
                    )
                    c;
              same = λ x nx. ground arith;
              avoids = λ x av. av;
            })
      ]
