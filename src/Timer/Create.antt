-- ===== src/Timer/Create.antt =====
-- A timer wheel created (`stw_timer_create` of src/timer/base_timer.c). The limits are those of the
-- header fwk/timer/stw_timer.h, which is not in the repository; what the two calls of `malloc`
-- return is a parameter.
use basearch.Prelude.{
  ℕ, zero, suc, ◌+◌, ◌-◌, ◌^◌, ◌≤◌, ◌<◌, ◌≡◌, ◌≢◌, ◌↔◌, refl, ◌∙◌, ◌⊎◌, false, ◌||◌, Option, none,
  some, List, [], ◌∷◌, ◌++◌, arith, ◌==◌, eq_false_of_ne, ltb, if◌then◌else◌, length, replicate,
}
use native.Mathlib.Decide.{ℕ_discrete}
use basearch.Timer.{
  Store, State, Wheel, Rc, ok, null_wheel, invalid_wheel_size, invalid_granularity, no_resources,
  magic, set_next, set_prev,
}
use basearch.Timer.Store.{
  count, next-set_same, next-set_ne, next-set_prev, prev-set_same, prev-set_ne, prev-set_next,
}
use basearch.Timer.Links.{end}
use basearch.Timer.Rings.{Spokes, Rings}
use basearch.Timer.Lists.{total}
use basearch.Timer.Invariant.{IsWheel}
use basearch.Name.{chars_of}

-- STW_MIN_WHEEL_SIZE, STW_MAX_WHEEL_SIZE, STW_MIN_GRANULARITY, STW_MAX_GRANULARITY, STW_NAME_LENGTH
pub record Limits : Type 0 where
  pub min_wheel_size : ℕ
  pub max_wheel_size : ℕ
  pub min_granularity : ℕ
  pub max_granularity : ℕ
  pub name_length : ℕ

-- `strncpy` into a buffer of `size` bytes: the characters, then zeros.
unfoldable pub strncpy : ℕ → List ℕ → List ℕ
strncpy size s = let c = chars_of size s in c ++ replicate (size - length c) 0

-- Every spoke from `spoke` on is made empty: it points to itself.
unfoldable pub empty_spokes : ℕ → ℕ → Store → Store
empty_spokes zero spoke m = m
empty_spokes (suc n) spoke m =
    empty_spokes n (spoke + 1) (set_prev spoke spoke (set_next spoke spoke m))

unfoldable pub new_wheel : Limits → ℕ → ℕ → List ℕ → ℕ → Wheel
new_wheel limits wheel_size granularity p2name spokes = record {
  wheel_name = strncpy (limits.name_length - 1) p2name ++ 0 ∷ [];
  magic_tag = magic;
  spokes = spokes;
  wheel_size = wheel_size;
  granularity = granularity;
  ticks = 0;
  spoke_index = 0;
  timer_active = 0;
  timer_expired = 0;
  timer_cancelled = 0;
  timer_starts = 0;
  timer_hiwater_mark = 0;
}

-- What a call returns, what it leaves in `*stw`, the wheel, and what it gives back by `free`.
pub record NewWheel : Type 0 where
  pub rc : Rc
  pub handle : Option ℕ
  pub wheel : Option State
  pub freed : List ℕ

abbrev pub refused : Rc → List ℕ → NewWheel
refused rc freed = record { rc = rc; handle = some 0; wheel = none; freed = freed }

unfoldable pub stw_timer_create :
    Limits → (wheel_size granularity : ℕ) → List ℕ → (stw p2stw spokes : ℕ) → Store → NewWheel
stw_timer_create limits wheel_size granularity p2name stw p2stw spokes m =
    if stw == 0
    then record { rc = null_wheel; handle = none; wheel = none; freed = [] }
    else if ltb wheel_size limits.min_wheel_size || ltb limits.max_wheel_size wheel_size
    then refused invalid_wheel_size []
    else if ltb granularity limits.min_granularity || ltb limits.max_granularity granularity
    then refused invalid_granularity []
    else if p2stw == 0
    then refused no_resources []
    else if spokes == 0
    then refused no_resources (p2stw ∷ [])
    else record {
      rc = ok;
      handle = some p2stw;
      wheel = some record {
        stw = new_wheel limits wheel_size granularity p2name spokes;
        mem = empty_spokes wheel_size spokes m;
        calls = [];
      };
      freed = [];
    }

abbrev pub no_timers : Spokes
no_timers = λ k. []

empty_before :
    (n sp q : ℕ) (m : Store)
    → q < sp
    → ((empty_spokes n sp m q).next ≡ (m q).next) × ((empty_spokes n sp m q).prev ≡ (m q).prev)
unfolding empty_spokes
empty_before zero sp q m lt = (refl, refl)
empty_before (suc n) sp q m lt =
    let (a, b) = empty_before n (sp + 1) q (set_prev sp sp (set_next sp sp m)) (omega arith) in
    let ne : sp ≢ q = λ e. absurd (omega arith) in
    (
      a ∙ next-set_prev sp sp q _ ∙ next-set_ne sp sp q m ne,
      b ∙ prev-set_ne sp sp q _ ne ∙ prev-set_next sp sp q m,
    )

empty_at :
    (n sp j : ℕ) (m : Store)
    → j < n
    → ((empty_spokes n sp m (sp + j)).next ≡ sp + j)
      × ((empty_spokes n sp m (sp + j)).prev ≡ sp + j)
unfolding empty_spokes
empty_at zero sp j m lt = absurd (omega arith)
empty_at (suc n) sp j m lt =
    let m' = set_prev sp sp (set_next sp sp m) in
    elim (ℕ_discrete j 0) [
      | yes e ↦
          let q : sp + j ≡ sp = omega arith in
          let (a, b) = empty_before n (sp + 1) sp m' (omega arith) in
          rw q (
            a ∙ next-set_prev sp sp sp _ ∙ next-set_same sp sp sp m refl,
            b ∙ prev-set_same sp sp sp _ refl,
          )
      | no ne ↦
          let q : sp + j ≡ sp + 1 + (j - 1) = omega arith in
          rw q (empty_at n (sp + 1) (j - 1) m' (omega arith))
    ]

total_none : (n : ℕ) → total n no_timers ≡ 0
unfolding total
total_none zero = refl
total_none (suc n) = omega (arith, total_none n)

pub empty-Rings : (n sp : ℕ) (m : Store) → 0 < sp → Rings (empty_spokes n sp m) sp n no_timers
unfolding count
empty-Rings n sp m pos = record {
  base = pos;
  ring = λ j lt. let (a, b) = empty_at n sp j m lt in end a b;
  once = λ j x. omega arith;
  apart = λ i j x a b. absurd (omega arith);
  outer = λ j x k a lt. absurd (omega arith);
  nonnull = λ j x a. absurd (omega arith);
  within = λ j x a. absurd (omega arith);
}

-- A wheel of a size and granularity within the limits, for which there is memory, is created, as
-- asked for, on that memory: no timer is on its spokes, and it is as each call on a wheel wants it.
pub create-IsWheel :
    (limits : Limits) (wheel_size granularity : ℕ) (p2name : List ℕ) (stw p2stw spokes : ℕ)
    (m : Store)
    → 0 < limits.min_wheel_size
    → limits.max_wheel_size ≤ 2 ^ 31
    → 0 < limits.min_granularity
    → stw ≢ 0
    → (limits.min_wheel_size ≤ wheel_size) × (wheel_size ≤ limits.max_wheel_size)
    → (limits.min_granularity ≤ granularity) × (granularity ≤ limits.max_granularity)
    → p2stw ≢ 0
    → spokes ≢ 0
    → (s : State) × (stw_timer_create limits wheel_size granularity p2name stw p2stw spokes m
        ≡ record { rc = ok; handle = some p2stw; wheel = some s; freed = [] })
      × IsWheel s no_timers
      × (s.stw.wheel_size ≡ wheel_size)
      × (s.stw.granularity ≡ granularity)
      × (s.stw.spokes ≡ spokes)
unfolding stw_timer_create new_wheel
create-IsWheel limits wheel_size granularity p2name stw p2stw spokes m a b c d (e, f) (g, h) i j =
    let q1 : (stw == 0) ≡ false = eq_false_of_ne _ _ d in
    let q2 : ltb wheel_size limits.min_wheel_size ≡ false = ground arith in
    let q3 : ltb limits.max_wheel_size wheel_size ≡ false = ground arith in
    let q4 : ltb granularity limits.min_granularity ≡ false = ground arith in
    let q5 : ltb limits.max_granularity granularity ≡ false = ground arith in
    let q6 : (p2stw == 0) ≡ false = eq_false_of_ne _ _ i in
    let q7 : (spokes == 0) ≡ false = eq_false_of_ne _ _ j in
    let pos : 0 < spokes = ground arith in
    (
      record {
        stw = new_wheel limits wheel_size granularity p2name spokes;
        mem = empty_spokes wheel_size spokes m;
        calls = [];
      },
      rw (stw_timer_create, q1, q2, q3, q4, q5, q6, q7),
      record {
        rings = empty-Rings wheel_size spokes m pos;
        index_lt = omega arith;
        size_fits = omega arith;
        grain = omega arith;
        tagged = refl;
        active = let z = total_none wheel_size in rw z;
      },
      refl,
      refl,
      refl,
    )

-- A call fails exactly if an argument is NULL or out of its limits or memory is missing; it makes
-- no wheel exactly then; and it gives a block back, the first, exactly if it is the second that is
-- missing.
pub create_failure :
    (limits : Limits) (wheel_size granularity : ℕ) (p2name : List ℕ) (stw p2stw spokes : ℕ)
    (m : Store)
    → (((stw_timer_create limits wheel_size granularity p2name stw p2stw spokes m).rc ≢ ok) ↔ (
        (stw ≡ 0)
        ⊎ (wheel_size < limits.min_wheel_size)
        ⊎ (limits.max_wheel_size < wheel_size)
        ⊎ (granularity < limits.min_granularity)
        ⊎ (limits.max_granularity < granularity)
        ⊎ (p2stw ≡ 0)
        ⊎ (spokes ≡ 0)))
      × (((stw_timer_create limits wheel_size granularity p2name stw p2stw spokes m).rc ≢ ok) ↔ (
          (stw_timer_create limits wheel_size granularity p2name stw p2stw spokes m).wheel ≡ none))
      × (((stw_timer_create limits wheel_size granularity p2name stw p2stw spokes m).freed
            ≡ p2stw ∷ [])
          ↔ (((stw_timer_create limits wheel_size granularity p2name stw p2stw spokes m).rc
                ≡ no_resources)
              × (p2stw ≢ 0)))
unfolding stw_timer_create
create_failure limits wheel_size granularity p2name stw p2stw spokes m = (
  (λ bad. ground arith, λ bad. ground arith),
  (λ bad. ground arith, λ e. ground arith),
  (λ e. ground arith, λ e. ground arith),
)
