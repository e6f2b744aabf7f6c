-- ===== src/Timer/Visit/Own.antt =====
-- What meeting a timer does to that timer (`stw_timer_tick` of src/timer/base_timer.c).
use basearch.Prelude.{ℕ, ◌-◌, ◌/◌, ◌<◌, ◌≡◌, ◌≢◌, refl, ap, ◌∙◌, List, ◌++◌}
use basearch.Timer.{
  Cell, State, Call, visit, tmr_enqueue_unlocked, set_rotation, expire_links, ticks_of,
}
use basearch.Timer.Store.{count, asked, write-same, next-set_same, next-set_prev}
use basearch.Timer.Rings.{Spokes}
use basearch.Timer.Lists.{without, count-without_self, count-add_self}
use basearch.Timer.Invariant.{IsWheel, calls_of, calls_of-append}
use basearch.Timer.Enqueue.{spoke_of, turns_of, enqueue-rotation, enqueue-asked}
use basearch.Timer.Unlink.{job-expire_links}
use basearch.Timer.Visit.{call_of, expired, visited, expired-mem, expired-calls, calls_of-call}
use basearch.Timer.Visit.Keeps.{visit_rule, expired-shape}

-- The timer is on a spoke with so many rotations left, has the request `c`, and has made the
-- call-backs `cs`.
pub record At (t : ℕ) (s : State) (l : Spokes) (spoke turns : ℕ) (c : Cell) (cs : List Call)
    : Type 0 where
  pub on : 0 < count t (l spoke)
  pub left : (s.mem t).rotation_count ≡ turns
  pub wants : asked (s.mem t) ≡ c
  pub made : calls_of t s.calls ≡ cs

-- The timer is on no spoke and does not run.
pub record Idle (t : ℕ) (s : State) (l : Spokes) (cs : List Call) : Type 0 where
  pub off : (k : ℕ) → count t (l k) ≡ 0
  pub null_next : (s.mem t).next ≡ 0
  pub made : calls_of t s.calls ≡ cs

-- The three ways, for a timer with `turns` rotations left on `spoke`.
pub data Own (t : ℕ) (s : State) (spoke : ℕ) (s' : State) (l' : Spokes) : Type 0 where
  counts_down :
      (s.mem t).rotation_count ≢ 0
      → At t s' l' spoke ((s.mem t).rotation_count - 1) (asked (s.mem t)) (calls_of t s.calls)
      → Own t s spoke s' l'
  is_done :
      (s.mem t).rotation_count ≡ 0
      → (s.mem t).periodic_delay ≡ 0
      → Idle t s' l' (calls_of t s.calls ++ call_of t (s.mem t))
      → Own t s spoke s' l'
  is_back :
      (s.mem t).rotation_count ≡ 0
      → 0 < (s.mem t).periodic_delay
      → At t s' l'
          (spoke_of s (s.mem t).periodic_delay)
          (turns_of s (s.mem t).periodic_delay)
          (asked (s.mem t))
          (calls_of t s.calls ++ call_of t (s.mem t))
      → Own t s spoke s' l'

module _ (x : ℕ) (s : State) (l : Spokes) (v : IsWheel s l) (j : ℕ) (on : 0 < count x (l j)) where
  made_call : calls_of x (expired x s).calls ≡ calls_of x s.calls ++ call_of x (s.mem x)
  made_call =
      ap (calls_of x) (expired-calls x s)
      ∙ calls_of-append x s.calls (call_of x (s.mem x))
      ∙ ap (λ c. calls_of x s.calls ++ c) (calls_of-call x (s.mem x))

  expired-null : ((expired x s).mem x).next ≡ 0
  unfolding expire_links
  expired-null =
      ap (λ m. (m x).next) (expired-mem x s) ∙ next-set_prev x 0 x _ ∙ next-set_same x 0 x _ refl

  expired-asked : asked ((expired x s).mem x) ≡ asked (s.mem x)
  expired-asked = ap (λ m. asked (m x)) (expired-mem x s) ∙ ap asked (job-expire_links x x s.mem)

  pub own_lem : Own x s j (visit x s) (visited x s l)
  unfolding set_rotation tmr_enqueue_unlocked
  own_lem =
      visit_rule x s l v j on (λ t k. Own x s j t k)
        (λ ne. counts_down ne (record {
          on = on;
          left = ap (λ c. c.rotation_count) (write-same x _ x s.mem refl);
          wants = ap asked (write-same x _ x s.mem refl);
          made = refl;
        }))
        (λ e z. is_done e z (record {
          off = λ k. count-without_self x k l;
          null_next = expired-null;
          made = made_call;
        }))
        (λ e lt.
          let d = (s.mem x).periodic_delay in
          is_back e lt (record {
            on = count-add_self (spoke_of s d) x (without x l);
            left =
                enqueue-rotation (expired x s) x d
                ∙ ap (λ w. ticks_of w.granularity d / w.wheel_size) (expired-shape x s l v j on);
            wants = enqueue-asked (expired x s) x d ∙ expired-asked;
            made = made_call;
          }))
