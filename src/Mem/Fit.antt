-- ===== src/Mem/Fit.antt =====
-- The first block that is large enough, and the list without it.
use basearch.Prelude.{
  ℕ, zero, suc, ◌+◌, ◌≤◌, ◌<◌, ◌≡◌, refl, sym, ap, ◌∙◌, ◌≢◌, ◌⊎◌, inl, inr, List, [], ◌∷◌, arith,
  ◌==◌, ltb, lt→ltb, eq_false_of_ne, true, false, some, length,
}
use native.Mathlib.Decide.{dec_lt}
use basearch.Mem.Blocks.{
  Block, Spaced, Spaced-le, Spaced-weaken, IsApart, total, join_first, insert_block,
}
use basearch.Mem.Chain.{Chain, Avoids, Spaced-Avoids, Chain-frame}
use basearch.Mem.Walk.{insert_block-skip}
use basearch.Mem.{Link, set_next, first_fit}

-- No block has `size` bytes.
abbrev pub AllBelow : ℕ → List Block → Type 0
AllBelow size [] = Unit {0}
AllBelow size ((a, s) ∷ bs) = (s < size) × AllBelow size bs

-- The block `(a, s)` taken out of `bs` leaves `rest`.
pub record Taken (size lo a s : ℕ) (bs rest : List Block) (e : ℕ) : Type 0 where
  pub large : size ≤ s
  pub low : lo ≤ a
  pub fits : a + s ≤ e
  pub pos : 0 < s
  pub spaced : Spaced lo rest e
  pub apart : IsApart a s rest
  pub sum : total bs ≡ s + total rest
  pub back : insert_block a s rest ≡ bs
  pub fewer : suc (length rest) ≡ length bs
  pub avoids : (q : ℕ) → Avoids q bs → Avoids q rest × (a ≢ q)
  pub others : (q t : ℕ) → IsApart q t bs → IsApart q t rest × ((q + t ≤ a) ⊎ (a + s ≤ q))

Spaced-IsApart :
    (a s lo : ℕ) (bs : List Block) (e : ℕ) → a + s ≤ lo → Spaced lo bs e → IsApart a s bs
Spaced-IsApart a s lo [] e le sp = tt
Spaced-IsApart a s lo ((b, u) ∷ bs) e le sp =
    (omega arith, Spaced-IsApart a s (suc (b + u)) bs e (omega arith) sp.2)

insert_block-front :
    (b t : ℕ) (bs : List Block) (e : ℕ)
    → Spaced (suc (b + t)) bs e
    → insert_block b t bs ≡ (b, t) ∷ bs
unfolding insert_block join_first
insert_block-front b t [] e sp = refl
insert_block-front b t ((a, s) ∷ bs) e sp = ground arith

Taken-here :
    (size lo a s : ℕ) (bs : List Block) (e : ℕ)
    → size ≤ s
    → Spaced lo ((a, s) ∷ bs) e
    → Taken size lo a s ((a, s) ∷ bs) bs e
unfolding total
Taken-here size lo a s bs e le sp = record {
  large = le;
  low = sp.0;
  fits = omega (arith, Spaced-le (suc (a + s)) bs e sp.2);
  pos = sp.1;
  spaced = Spaced-weaken (suc (a + s)) lo bs e (omega arith) sp.2;
  apart = Spaced-IsApart a s (suc (a + s)) bs e (omega arith) sp.2;
  sum = refl;
  back = insert_block-front a s bs e sp.2;
  fewer = refl;
  avoids = λ q av. (av.1, av.0);
  others = λ q t apart. (apart.1, apart.0);
}

Taken-later :
    (size lo a s b u : ℕ) (bs rest : List Block) (e : ℕ)
    → lo ≤ b
    → 0 < u
    → Taken size (suc (b + u)) a s bs rest e
    → Taken size lo a s ((b, u) ∷ bs) ((b, u) ∷ rest) e
unfolding total
Taken-later size lo a s b u bs rest e le pos k = record {
  large = k.large;
  low = omega (arith, k.low);
  fits = k.fits;
  pos = k.pos;
  spaced = (le, pos, k.spaced);
  apart = (inr (omega (arith, k.low)), k.apart);
  sum = omega (arith, k.sum);
  back =
      insert_block-skip a s b u rest (omega (arith, k.low)) (omega (arith, k.low))
      ∙ ap (λ l. (b, u) ∷ l) k.back;
  fewer = ap suc k.fewer;
  avoids = λ q av. let (x, y) = k.avoids q av.1 in ((av.0, x), y);
  others = λ q t apart. let (x, y) = k.others q t apart.1 in ((apart.0, x), y);
}

-- What the search comes to, from the link `p` on: the end, where every block is too small, or a
-- block, whose predecessor's link can be led past it.
pub data Found (links : ℕ → Link) (p size lo : ℕ) (bs : List Block) (e : ℕ) : ℕ → ℕ → Type 0 where
  nothing : {prev : ℕ} → AllBelow size bs → Found links p size lo bs e prev e
  block :
      {prev a : ℕ} (s : ℕ) (rest : List Block)
      → Taken size lo a s bs rest e
      → (links a).size ≡ s
      → (links prev).next ≡ a
      → Chain (set_next links prev (links a).next) p rest e
      → ((q : ℕ) → q ≢ p → Avoids q bs → q ≢ prev)
      → Found links p size lo bs e prev a

first_fit-stop :
    (fuel : ℕ) (links : ℕ → Link) (prev cur size : ℕ)
    → (size ≤ (links cur).size) ⊎ ((links cur).next ≡ 0)
    → first_fit (suc fuel) links prev cur size ≡ some (prev, cur)
unfolding first_fit
first_fit-stop fuel links prev cur size (inl h) = ground arith
first_fit-stop fuel links prev cur size (inr h) = ground arith

first_fit-go :
    (fuel : ℕ) (links : ℕ → Link) (prev cur n s size : ℕ)
    → (links cur).size ≡ s
    → s < size
    → (links cur).next ≡ n
    → 0 < n
    → first_fit (suc fuel) links prev cur size ≡ first_fit fuel links cur n size
unfolding first_fit
first_fit-go fuel links prev cur n s size z lt k pos =
    let p : ltb s size ≡ true = lt→ltb _ _ lt in
    let q : (n == 0) ≡ false = eq_false_of_ne _ _ (λ x. absurd (omega arith)) in rw (z, k, p, q)

module _ (links : ℕ → Link) (size e : ℕ) (end_size : (links e).size ≡ 0)
    (end_next : (links e).next ≡ 0) (want : 0 < size) (up : 0 < e) where
  -- The next link that the search reads is no NULL.
  next-pos :
      (a lo : ℕ) (bs : List Block)
      → 0 < lo
      → Spaced lo bs e
      → Chain links a bs e
      → 0 < (links a).next
  next-pos a lo [] pos sp c = rw c up
  next-pos a lo ((b, u) ∷ bs) pos sp c = rw (c.0) (omega arith)

  Found-later :
      (p lo a s : ℕ) (bs : List Block) (prev cur : ℕ)
      → Spaced lo ((a, s) ∷ bs) e
      → Avoids p ((a, s) ∷ bs)
      → Chain links p ((a, s) ∷ bs) e
      → s < size
      → Found links a size (suc (a + s)) bs e prev cur
      → Found links p size lo ((a, s) ∷ bs) e prev cur
  Found-later p lo a s bs prev cur sp av c lt (nothing all) = nothing (lt, all)
  Found-later p lo a s bs prev cur sp av c lt (block u rest k z n ch ne) =
      let np = ne p (λ x. av.0 (sym x)) av.1 in
      block u ((a, s) ∷ rest) (Taken-later size lo cur u a s bs rest e sp.0 sp.1 k) z n
        (at_head np c.0, keeps c.1, ch) (λ q _ avq. ne q (λ x. avq.0 (sym x)) avq.1)
    where
      at_head : p ≢ prev → (links p).next ≡ a → (set_next links prev (links cur).next p).next ≡ a
      at_head np h = ground arith

      keeps : (links a).size ≡ s → (set_next links prev (links cur).next a).size ≡ s
      keeps h = ground arith

  -- With fuel for every block and the end, the search ends.
  pub first_fit-Found :
      (fuel p lo : ℕ) (bs : List Block)
      → length bs < fuel
      → 0 < lo
      → Spaced lo bs e
      → Avoids p bs
      → Chain links p bs e
      → (prev : ℕ) × (cur : ℕ) × (first_fit fuel links p (links p).next size ≡ some (prev, cur))
        × Found links p size lo bs e prev cur
  first_fit-Found zero p lo bs few pos sp av c = absurd (omega arith)
  first_fit-Found (suc fuel) p lo [] few pos sp av c =
      (p, e, rw c (first_fit-stop fuel links p e size (inr end_next)), nothing tt)
  first_fit-Found (suc fuel) p lo ((a, s) ∷ bs) few pos sp av c = elim (dec_lt s size) [
    | no ge ↦ (
      p,
      a,
      rw (c.0) (first_fit-stop fuel links p a size (inl (rw (c.1) (omega arith)))),
      block s bs (Taken-here size lo a s bs e (omega arith) sp) c.1 c.0
          (Chain-frame links (set_next links p (links a).next) a p p bs e (λ x nx. ground arith)
            (ground arith) av.1 c.2)
          (λ q np avq. np),
    )
    | yes lt ↦
        let (prev, cur, run, f) =
          first_fit-Found fuel a (suc (a + s)) bs (omega arith) (omega arith) sp.2
            (Spaced-Avoids a (suc (a + s)) bs e (omega arith) sp.2) c.2 in
        (
          prev,
          cur,
          rw (c.0) (
              first_fit-go fuel links p a (links a).next s size c.1 lt refl
                (next-pos a (suc (a + s)) bs (omega arith) sp.2 c.2)
              ∙ run),
          Found-later p lo a s bs prev cur sp av c lt f,
        )
  ]
