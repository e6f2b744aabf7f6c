-- ===== src/Timer/Invariant.antt =====
-- What holds of a wheel between calls, when a timer on it is due, and what a call on one timer
-- leaves of another (src/timer/base_timer.c).
use basearch.Prelude.{
  ℕ, ◌+◌, ◌-◌, ◌*◌, ◌/◌, ◌%◌, ◌^◌, ◌≤◌, ◌<◌, ◌≡◌, refl, sym, ap, ◌∙◌, inl, inr, ◌⊎◌, List, [], ◌∷◌,
  ◌++◌, arith, ◌==◌, if◌then◌else◌, ltb, ltb→ge, Bool-cases, subst,
}
use native.Mathlib.Nat.{lt-div-mul-add}
use native.Mathlib.Decide.{ℕ_discrete}
use basearch.Timer.{Wheel, State, Call, magic, ticks_of}
use basearch.Timer.Store.{count, job}
use basearch.Timer.Rings.{Spokes, Rings}
use basearch.Timer.Lists.{total}

-- A wheel whose spokes hold the timers `l`, as each call leaves it.
pub record IsWheel (s : State) (l : Spokes) : Type 0 where
  pub rings : Rings s.mem s.stw.spokes s.stw.wheel_size l
  pub index_lt : s.stw.spoke_index < s.stw.wheel_size
  pub size_fits : s.stw.wheel_size ≤ 2 ^ 31
  pub grain : 0 < s.stw.granularity
  pub tagged : s.stw.magic_tag ≡ magic
  pub active : s.stw.timer_active ≡ total s.stw.wheel_size l % 2 ^ 32

-- A wheel but for its counts.
abbrev pub shape : Wheel → Wheel
shape w = record w {
  ticks = 0;
  timer_active = 0;
  timer_expired = 0;
  timer_cancelled = 0;
  timer_starts = 0;
  timer_hiwater_mark = 0;
}

-- The wheel of another state with the same shape.
pub moved :
    {s : State} {l : Spokes} (t : State) (k : Spokes)
    → IsWheel s l
    → shape t.stw ≡ shape s.stw
    → Rings t.mem s.stw.spokes s.stw.wheel_size k
    → t.stw.timer_active ≡ total s.stw.wheel_size k % 2 ^ 32
    → IsWheel t k
moved {s} {l} t k v e r a =
    let sp : s.stw.spokes ≡ t.stw.spokes = sym (ap (λ w. w.spokes) e) in
    let n : s.stw.wheel_size ≡ t.stw.wheel_size = sym (ap (λ w. w.wheel_size) e) in
    let i : t.stw.spoke_index ≡ s.stw.spoke_index = ap (λ w. w.spoke_index) e in
    let g : t.stw.granularity ≡ s.stw.granularity = ap (λ w. w.granularity) e in
    let r1 = subst (λ x. Rings t.mem x s.stw.wheel_size k) sp r in
    record {
      rings = subst (λ x. Rings t.mem t.stw.spokes x k) n r1;
      index_lt = omega (arith, v.index_lt, i, n);
      size_fits = omega (arith, v.size_fits, n);
      grain = omega (arith, v.grain, g);
      tagged = ap (λ w. w.magic_tag) e ∙ v.tagged;
      active = a ∙ ap (λ x. total x k % 2 ^ 32) n;
    }

-- After how many ticks the wheel comes to spoke `j` for the timer that has `r` rotations left.
abbrev pub due : (size index j r : ℕ) → ℕ
due size index j r = (if ltb index j then j - index else j + size - index) + r * size

-- The call-backs of one timer.
unfoldable pub calls_of : ℕ → List Call → List Call
calls_of t [] = []
calls_of t (c ∷ cs) = (if c.tmr == t then c ∷ [] else []) ++ calls_of t cs

pub calls_of-append :
    (t : ℕ) (cs ds : List Call) → calls_of t (cs ++ ds) ≡ calls_of t cs ++ calls_of t ds
unfolding calls_of
calls_of-append t [] ds = refl
calls_of-append t (c ∷ cs) ds =
    let ih = calls_of-append t cs ds in
    elim (Bool-cases (c.tmr == t)) [ inl e ↦ rw e (ap (λ u. c ∷ u) ih) | inr e ↦ rw e ih ]

-- What a call on other timers leaves of the timer `t`.
pub record Same (t : ℕ) (s s' : State) (l l' : Spokes) : Type 0 where
  pub kept : job (s'.mem t) ≡ job (s.mem t)
  pub called : calls_of t s'.calls ≡ calls_of t s.calls
  pub place : (k : ℕ) → count t (l' k) ≡ count t (l k)
  pub idle : (s.mem t).next ≡ 0 → ((k : ℕ) → count t (l k) ≡ 0) → (s'.mem t).next ≡ 0

pub Same-trans :
    {t : ℕ} {s s' s'' : State} {l l' l'' : Spokes}
    → Same t s s' l l'
    → Same t s' s'' l' l''
    → Same t s s'' l l''
Same-trans a b = record {
  kept = b.kept ∙ a.kept;
  called = b.called ∙ a.called;
  place = λ k. b.place k ∙ a.place k;
  idle = λ z o. b.idle (a.idle z o) (λ k. a.place k ∙ o k);
}

-- A timer that is on a spoke, or is prepared and on none.
abbrev pub Placed : ℕ → State → Spokes → Type 0
Placed t s l =
    ((j : ℕ) × (0 < count t (l j))) ⊎ (((s.mem t).next ≡ 0) × ((k : ℕ) → count t (l k) ≡ 0))

div-pos : (d g : ℕ) → 0 < g → g ≤ d → 0 < d / g
div-pos d g h le = elim (ℕ_discrete (d / g) 0) [
  | no ne ↦ omega arith
  | yes e ↦
      let k : d < 0 * g + g = subst (λ q. d < q * g + g) e (lt-div-mul-add {a = d} h) in
      absurd (omega arith)
]

-- A delay takes at least one tick.
pub ticks_of_pos : (g d : ℕ) → 0 < g → 0 < ticks_of g d
unfolding ticks_of
ticks_of_pos g d h = elim (Bool-cases (ltb d g)) [
  | inl e ↦ rw e (omega arith)
  | inr e ↦ rw e (div-pos d g h (ltb→ge d g e))
]

-- The timer `t` is on a spoke, and the wheel comes to it there for the last time at tick `d`.
pub record Armed (s : State) (l : Spokes) (t d : ℕ) : Type 0 where
  pub spoke : ℕ
  pub on : 0 < count t (l spoke)
  pub time : due s.stw.wheel_size s.stw.spoke_index spoke (s.mem t).rotation_count ≡ d

-- When a timer of this delay is due: after its ticks, or one turn of the wheel later where these
-- are whole turns.
abbrev pub arrival : Wheel → ℕ → ℕ
arrival w delay =
    let ticks = ticks_of w.granularity delay in
    if ticks % w.wheel_size == 0 then ticks + w.wheel_size else ticks
