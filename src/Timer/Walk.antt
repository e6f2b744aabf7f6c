-- ===== src/Timer/Walk.antt =====
-- The loop of `stw_timer_tick` (src/timer/base_timer.c) over the timers of one spoke: it ends, and
-- what holds at each step holds at its end.
use basearch.Prelude.{
  ℕ, zero, suc, ◌+◌, ◌<◌, ◌≡◌, ◌≢◌, refl, sym, ap, ◌∙◌, false, some, List, [], ◌∷◌, ◌++◌, arith,
  ◌==◌, ==_refl, eq_false_of_ne,
}
use basearch.Timer.{State, visit, walk}
use basearch.Timer.Links.{first_of}
use basearch.Timer.Rings.{Spokes, neighbours}
use basearch.Timer.Invariant.{IsWheel, shape}
use basearch.Timer.Visit.{visited}
use basearch.Timer.Visit.Keeps.{visit-IsWheel, visit-shape}
use basearch.Timer.Visit.Step.{weight, here_on, Rest, rest_lem}

-- The head of the spoke where the wheel stands.
abbrev pub head_of : State → ℕ
head_of s = s.stw.spokes + s.stw.spoke_index

-- How the loop ends.
pub record Ends (P : State → Spokes → List ℕ → Type 0) (fuel h first : ℕ) (s : State) : Type 0 where
  pub last : State
  pub lists : Spokes
  pub runs : walk fuel h first s ≡ some last
  pub valid : IsWheel last lists
  pub shaped : shape last.stw ≡ shape s.stw
  pub result : P last lists []

walk_stops : (fuel h : ℕ) (s : State) → walk (suc fuel) h h s ≡ some s
unfolding walk
walk_stops fuel h s = let q = ==_refl h in rw (walk, q)

walk_steps :
    (fuel h x : ℕ) (s : State)
    → x ≢ h
    → walk (suc fuel) h x s ≡ walk fuel h (s.mem x).next (visit x s)
unfolding walk
walk_steps fuel h x s ne = let q : (x == h) ≡ false = eq_false_of_ne x h ne in rw (walk, q)

-- A property that each met timer keeps holds at the end, which enough fuel reaches.
pub walk_rule :
    (P : State → Spokes → List ℕ → Type 0)
    → ((x : ℕ) (s : State) (l : Spokes) (v : IsWheel s l) (done rest : List ℕ)
          (at : l s.stw.spoke_index ≡ done ++ x ∷ rest) (r : Rest x s l v done rest at)
        → P s l (x ∷ rest)
        → P (visit x s) (visited x s l) r.todo)
    → (fuel : ℕ) (s : State) (l : Spokes) (done todo : List ℕ) → IsWheel s l
    → l s.stw.spoke_index ≡ done ++ todo
    → weight s.mem todo < fuel
    → P s l todo
    → Ends P fuel (head_of s) (first_of todo (head_of s)) s
walk_rule P step zero s l done todo v at enough p = absurd (omega arith)
walk_rule P step (suc fuel) s l done [] v at enough p = record {
  last = s;
  lists = l;
  runs = walk_stops fuel (head_of s) s;
  valid = v;
  shaped = refl;
  result = p;
}
walk_rule P step (suc fuel) s l done (x ∷ rest) v at enough p =
    let i = s.stw.spoke_index in
    let h = head_of s in
    let on = here_on x s l v done rest at in
    let r = rest_lem x s l v done rest at in
    let w = visit-IsWheel x s l v i on in
    let e = visit-shape x s l v i on in
    let heads : head_of (visit x s) ≡ h = ap (λ w. w.spokes + w.spoke_index) e in
    let index : (visit x s).stw.spoke_index ≡ i = ap (λ w. w.spoke_index) e in
    let k =
      walk_rule P step fuel (visit x s) (visited x s l) r.before r.todo w
        (ap (visited x s l) index ∙ r.whole) (omega (arith, r.lighter, enough))
        (step x s l v done rest at r p) in
    let ne : x ≢ h = v.rings.outer i x i on v.index_lt in
    let next : (s.mem x).next ≡ first_of r.todo (head_of (visit x s)) =
      (neighbours v.rings i x done rest v.index_lt at).1
      ∙ sym (ap (first_of r.todo) heads ∙ r.first h) in
    record {
      last = k.last;
      lists = k.lists;
      runs =
          walk_steps fuel h x s ne
          ∙ ap (λ f. walk fuel h f (visit x s)) next
          ∙ ap (λ g. walk fuel g (first_of r.todo (head_of (visit x s))) (visit x s)) (sym heads)
          ∙ k.runs;
      valid = k.valid;
      shaped = k.shaped ∙ e;
      result = k.result;
    }
