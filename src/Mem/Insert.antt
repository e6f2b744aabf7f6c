-- ===== src/Mem/Insert.antt =====
-- `base_mem_insert` puts a block of free bytes in its place in the list.
use basearch.Prelude.{
  ℕ, ◌+◌, ◌^◌, ◌≤◌, ◌<◌, ◌≡◌, ◌∙◌, ◌≢◌, List, arith, ◌==◌, ==_iff, ==_refl, eq_false_of_ne, true,
  false, subst,
}
use basearch.Mem.Blocks.{Block, Spaced, join_first}
use basearch.Mem.Chain.{Chain, Avoids, Spaced-Avoids, Chain-frame, Linked, join_behind-Linked}
use basearch.Mem.{Link, set_size, add32, join_before, join_behind, insert_behind}

module _ (links : ℕ → Link) (ins t e : ℕ) (sz : (links ins).size ≡ t) (pos : 0 < t)
    (room : ins + t ≤ e) where
  -- One step at `it`, which does not touch the block.
  pub behind_apart :
      (it : ℕ) (bs : List Block)
      → it + (links it).size ≢ ins
      → it ≢ ins
      → Chain links it bs e
      → Spaced (ins + t) bs e
      → Avoids it bs
      → e < ins + 2 ^ 32
      → Chain (insert_behind e links it ins) it (join_first ins t bs) e
        × ((insert_behind e links it ins it).size ≡ (links it).size)
        × ((q : ℕ) → q ≢ it → q ≢ ins → insert_behind e links it ins q ≡ links q)
  unfolding insert_behind join_before
  behind_apart it bs free ne c sp av near =
      let l = join_behind-Linked links it ins t e sz bs c pos sp near in
      let p : (it + (links it).size == ins) ≡ false = eq_false_of_ne _ _ free in
      let q : (it == ins) ≡ false = eq_false_of_ne _ _ ne in
      rw (p, q, l.joined)
        (
          (
            ground arith,
            ground (arith, l.holds),
            Chain-frame (join_behind e links it ins) _ ins ins it l.rest e (λ x nx. ground arith)
                (ground arith) (l.avoids it av) l.chain,
          ),
          ground (arith, l.same it ne),
          λ x nx ni. ground (arith, l.same x ni),
        )

  -- A block that ends where the new one begins takes it in.
  join_before-touch :
      (it s : ℕ)
      → it + s ≡ ins
      → (links it).size ≡ s
      → s + t < 2 ^ 32
      → join_before links it ins ≡ (set_size links it (s + t), it)
  unfolding join_before
  join_before-touch it s touch size small =
      let p : (it + s == ins) ≡ true = (==_iff _ _).1 touch in
      let w : add32 s t ≡ s + t = omega arith in rw (size, p, sz, w)

  behind_touch_joins :
      (it s : ℕ)
      → it + s ≡ ins
      → (links it).size ≡ s
      → s + t < 2 ^ 32
      → insert_behind e links it ins ≡ join_behind e (set_size links it (s + t)) it it
  unfolding insert_behind
  behind_touch_joins it s touch size small =
      rw (join_before-touch it s touch size small, ==_refl it)

  pub behind_touch :
      (it s : ℕ) (bs : List Block)
      → it + s ≡ ins
      → (links it).size ≡ s
      → Chain links it bs e
      → Spaced (ins + t) bs e
      → e < it + 2 ^ 32
      → Linked links (insert_behind e links it ins) it (s + t) bs e
  behind_touch it s bs touch size c sp near =
      let joined = set_size links it (s + t) in
      let at : (joined it).size ≡ s + t = ground arith in
      let c' : Chain joined it bs e =
        Chain-frame links joined it it it bs e (λ x nx. ground arith) (ground arith)
          (Spaced-Avoids it (ins + t) bs e (omega arith) sp) c in
      let k : ins + t ≡ it + (s + t) = omega arith in
      let l =
        join_behind-Linked joined it it (s + t) e at bs c' (omega arith)
          (subst (λ x. Spaced x bs e) k sp) near in
      rw (behind_touch_joins it s touch size (omega arith)) (record {
        size = l.size;
        rest = l.rest;
        joined = l.joined;
        holds = l.holds;
        chain = l.chain;
        same = λ q nq. l.same q nq ∙ other joined q nq (λ x nx. ground arith);
        avoids = l.avoids;
      })
    where
      other :
          (joined : ℕ → Link) (q : ℕ)
          → q ≢ it
          → ((x : ℕ) → x ≢ it → joined x ≡ links x)
          → joined q ≡ links q
      other joined q nq f = f q nq
