-- ===== src/Timer/Follow.antt =====
-- Every timer followed through a whole tick, which ends (`stw_timer_tick` of
-- src/timer/base_timer.c).
use basearch.Prelude.{
  ℕ, zero, suc, ◌*◌, ◌≤◌, ◌<◌, ◌≡◌, ◌≢◌, refl, sym, ap, ◌∙◌, true, false, some, List, [], ◌∷◌, ◌++◌,
  length, arith, subst, ◌==◌, ==_iff, eq_false_of_ne,
}
use native.Mathlib.Nat.{mod-lt}
use native.Mathlib.Decide.{ℕ_discrete}
use basearch.Timer.{State, Store, Cell, Call, magic, advance, walk, stw_timer_tick, visit}
use basearch.Timer.Store.{count, count_self, count-cons-le}
use basearch.Timer.Links.{Seg-first}
use basearch.Timer.Rings.{Spokes, IsTimer}
use basearch.Timer.Lists.{total}
use basearch.Timer.Invariant.{IsWheel, shape}
use basearch.Timer.Visit.{visited}
use basearch.Timer.Visit.Keeps.{visit-shape, visit-Same}
use basearch.Timer.Visit.Step.{weight, Rest, here_on}
use basearch.Timer.Visit.Own.{At, Idle}
use basearch.Timer.Phase.{Phase, elsewhere, waiting, Phase-step, Idle-Same}
use basearch.Timer.Walk.{head_of, walk_rule}

weight-le : (m : Store) (xs : List ℕ) → weight m xs ≤ 2 * length xs
unfolding weight
weight-le m [] = omega arith
weight-le m (x ∷ xs) = ground (arith, weight-le m xs)

pub length-le-total : (n j : ℕ) (l : Spokes) → j < n → length (l j) ≤ total n l
unfolding total
length-le-total zero j l lt = absurd (omega arith)
length-le-total (suc n) j l lt = elim (ℕ_discrete j n) [
  | yes e ↦ rw e (omega arith)
  | no ne ↦ omega (arith, length-le-total n j l (omega arith))
]

pub advance-IsWheel : (s : State) (l : Spokes) → IsWheel s l → IsWheel (advance s) l
unfolding advance
advance-IsWheel s l v = record {
  rings = v.rings;
  index_lt = let lt = v.index_lt in mod-lt _ (omega arith);
  size_fits = v.size_fits;
  grain = v.grain;
  tagged = v.tagged;
  active = v.active;
}

tick_runs :
    (fuel stw : ℕ) (s : State)
    → stw ≢ 0
    → s.stw.magic_tag ≡ magic
    → stw_timer_tick fuel stw s
      ≡ walk fuel (head_of (advance s)) (s.mem (head_of (advance s))).next (advance s)
unfolding stw_timer_tick advance
tick_runs fuel stw s ne e =
    let p : (stw == 0) ≡ false = eq_false_of_ne _ _ ne in
    let q : (s.stw.magic_tag == magic) ≡ true = (==_iff _ _).1 e in rw (stw_timer_tick, p, q)

-- What becomes of every timer in a loop from `a` on.
abbrev pub Follows : State → Spokes → State → Spokes → List ℕ → Type 0
Follows a l s k todo =
    (shape s.stw ≡ shape a.stw)
    × ((t j r : ℕ) (c : Cell) (cs : List Call)
        → IsTimer a.stw.spokes a.stw.wheel_size t
        → At t a l j r c cs
        → Phase t a j r c cs s k todo)
    × ((t : ℕ) (cs : List Call)
        → IsTimer a.stw.spokes a.stw.wheel_size t
        → Idle t a l cs
        → (count t todo ≡ 0) × Idle t s k cs)

Follows-start : (a : State) (l : Spokes) → IsWheel a l → Follows a l a l (l a.stw.spoke_index)
Follows-start a l v =
    let i = a.stw.spoke_index in
    (
      refl,
      λ t j r c cs new p. elim (ℕ_discrete j i) [
        | yes e ↦ waiting e (subst (λ k. 0 < count t (l k)) e p.on) p
        | no ne ↦ elim (ℕ_discrete (count t (l i)) 0) [
          | yes z ↦ elsewhere ne z p
          | no nz ↦ absurd (ne (v.rings.apart j i t p.on (omega arith)))
        ]
      ],
      λ t cs new p. (p.off i, p),
    )

Follows-step :
    (a : State) (l0 : Spokes)
    → IsWheel a l0
    → (x : ℕ) (s : State) (l : Spokes) (v : IsWheel s l) (done rest : List ℕ)
      (at : l s.stw.spoke_index ≡ done ++ x ∷ rest) (r : Rest x s l v done rest at)
    → Follows a l0 s l (x ∷ rest)
    → Follows a l0 (visit x s) (visited x s l) r.todo
Follows-step a l0 v0 x s l v done rest at r (e, timers, idles) =
    let on = here_on x s l v done rest at in
    (
      visit-shape x s l v s.stw.spoke_index on ∙ e,
      λ t j n c cs new p.
          Phase-step t a j n c cs l0 v0 v e x done rest at new r (timers t j n c cs new p),
      λ t cs new p.
          let (z, q) = idles t cs new p in
          let ne : x ≢ t = λ u.
            let k = subst (λ y. count t (y ∷ rest) ≡ 0) u z in
            absurd (omega (arith, count_self t rest)) in
          let new' = subst (λ w. IsTimer w.spokes w.wheel_size t) (sym e) new in
          let le : count t rest ≡ 0 = omega (arith, count-cons-le t x rest) in
          (r.others t ne ∙ le, Idle-Same (visit-Same x s l v s.stw.spoke_index on t new' ne) q),
    )

-- How a tick ends.
pub record Ticked (fuel stw : ℕ) (s : State) (l : Spokes) : Type 0 where
  pub last : State
  pub lists : Spokes
  pub runs : stw_timer_tick fuel stw s ≡ some last
  pub valid : IsWheel last lists
  pub follows : Follows (advance s) l last lists []

pub ticked :
    (fuel stw : ℕ) (s : State) (l : Spokes)
    → stw ≢ 0
    → IsWheel s l
    → 2 * total s.stw.wheel_size l < fuel
    → Ticked fuel stw s l
unfolding advance
ticked fuel stw s l ne v enough =
    let a = advance s in
    let v' = advance-IsWheel s l v in
    let i = a.stw.spoke_index in
    let le = weight-le s.mem (l i) in
    let le' = length-le-total s.stw.wheel_size i l v'.index_lt in
    let k =
      walk_rule (Follows a l) (Follows-step a l v') fuel a l [] (l i) v' refl (omega arith)
        (Follows-start a l v') in
    let first = Seg-first (v'.rings.ring i v'.index_lt) in
    record {
      last = k.last;
      lists = k.lists;
      runs = tick_runs fuel stw s ne v.tagged ∙ ap (λ f. walk fuel (head_of a) f a) first ∙ k.runs;
      valid = k.valid;
      follows = k.result;
    }
