-- ===== src/Timer/Unlink.antt =====
-- A timer that stands on a spoke taken off it, as the start, the stop and the tick of
-- src/timer/base_timer.c do.
use basearch.Prelude.{ℕ, ◌+◌, ◌%◌, ◌^◌, ◌<◌, ◌≡◌, ◌≢◌, sym, ap, ◌∙◌, List, [], ◌∷◌, arith, subst}
use native.Mathlib.Decide.{ℕ_discrete}
use basearch.Timer.{Store, State, incr, decr, set_next, set_prev, unlink, expire_links}
use basearch.Timer.Store.{
  count, count_self, count-other, count-cons-le, count-append, cut, job, job-set_next, job-set_prev,
}
use basearch.Timer.Links.{last_of, first_of, count-last, Seg-frame}
use basearch.Timer.Splice.{Bypass, uncounted}
use basearch.Timer.Rings.{Spokes, Rings, IsTimer, neighbours, full_once}
use basearch.Timer.Lists.{without, count-without_other}
use basearch.Timer.Invariant.{Same, calls_of}

-- The same links make the same lists.
pub Rings-frame :
    {m : Store} (m' : Store) {sp n : ℕ} {l : Spokes}
    → ((y : ℕ) → (m' y).next ≡ (m y).next)
    → ((y : ℕ) → (m' y).prev ≡ (m y).prev)
    → Rings m sp n l
    → Rings m' sp n l
Rings-frame m' hn hp r = record {
  base = r.base;
  ring = λ j lt. Seg-frame m' (λ y c. hn y) (λ y c. hp y) (r.ring j lt);
  once = r.once;
  apart = r.apart;
  outer = r.outer;
  nonnull = r.nonnull;
  within = r.within;
}

count-first : (h : ℕ) (zs : List ℕ) → 0 < count (first_of zs h) (h ∷ zs)
count-first h [] = omega (arith, count_self h [])
count-first h (z ∷ zs) = omega (arith, count_self z zs, count-cons-le z h (z ∷ zs))

head_apart : {t : ℕ} (h : ℕ) (ys : List ℕ) → count t (h ∷ ys) ≡ 0 → h ≢ t
head_apart {t} h ys z e =
    let k = subst (λ v. count t (v ∷ ys) ≡ 0) e z in absurd (omega (arith, count_self t ys))

first_in : (h : ℕ) (ys zs : List ℕ) → 0 < count (first_of zs h) (h ∷ ys) + count (first_of zs h) zs
first_in h ys [] = omega (arith, count_self h ys)
first_in h ys (z ∷ zs) = omega (arith, count_self z zs)

module _ {m : Store} {sp n : ℕ} {l : Spokes} (r : Rings m sp n l) (j t : ℕ)
    (on : 0 < count t (l j)) where
  -- A neighbour of a timer is the spoke's head or a timer, and not the timer itself.
  pub neighbours_of :
      (0 < count (m t).prev ((sp + j) ∷ l j))
      × (0 < count (m t).next ((sp + j) ∷ l j))
      × ((m t).prev ≢ t)
      × ((m t).next ≢ t)
  neighbours_of =
      let k = cut t (l j) on in
      let ys = k.before in
      let zs = k.after in
      let h = sp + j in
      let lt = r.within j t on in
      let (p, q) = neighbours r j t ys zs lt k.whole in
      let split : (y : ℕ) → count y (h ∷ l j) ≡ count y (h ∷ ys) + count y (t ∷ zs) =
        λ y. ap (λ u. count y (h ∷ u)) k.whole ∙ count-append y (h ∷ ys) (t ∷ zs) in
      let one = full_once r j t lt in
      let zy : count t (h ∷ ys) ≡ 0 = omega (arith, split t, one, count_self t zs) in
      let zz : count t zs ≡ 0 = omega (arith, split t, one, count_self t zs) in
      let zh : count t (h ∷ zs) ≡ 0 = omega (arith, zz, count-other t h zs (head_apart h ys zy)) in
      let a = count-last h ys in
      let b = count-first h zs in
      let b' = first_in h ys zs in
      (
        rw p (omega (arith, split (last_of h ys), a)),
        rw q (omega (arith, split (first_of zs h), b', count-cons-le (first_of zs h) t zs)),
        rw p (uncounted t (last_of h ys) (h ∷ ys) a zy),
        rw q (uncounted t (first_of zs h) (h ∷ zs) b zh),
      )

  -- A head and a timer are not NULL.
  pub next_set : (m t).next ≢ 0
  next_set e =
      let (_, c, _, _) = neighbours_of in
      elim (ℕ_discrete (sp + j) (m t).next) [
        | yes q ↦ absurd (omega (arith, r.base))
        | no ne ↦
            let k =
              r.nonnull j (m t).next (omega (arith, count-other (m t).next (sp + j) (l j) ne)) in
            absurd (omega arith)
      ]

  -- A timer on no spoke is not a neighbour.
  pub idle_apart :
      (u : ℕ) → IsTimer sp n u → ((k : ℕ) → count u (l k) ≡ 0) → (u ≢ (m t).prev) × (u ≢ t)
  idle_apart u new out =
      let (c, _, _, _) = neighbours_of in
      let z = count-other u (sp + j) (l j) (λ e. new.outer j (r.within j t on) (sym e)) ∙ out j in
      (
        λ e. uncounted u (m t).prev ((sp + j) ∷ l j) c z (sym e),
        λ e. uncounted u t (l j) on (out j) (sym e),
      )

-- What taking a timer off leaves of another one.
pub Bypass-Same :
    (s s' : State) (l : Spokes) (j t u : ℕ)
    → Rings s.mem s.stw.spokes s.stw.wheel_size l
    → 0 < count t (l j)
    → IsTimer s.stw.spokes s.stw.wheel_size u
    → t ≢ u
    → Bypass s.mem s'.mem t (s.mem t).prev (s.mem t).next
    → job (s'.mem u) ≡ job (s.mem u)
    → s'.calls ≡ s.calls
    → Same u s s' l (without t l)
Bypass-Same s s' l j t u r on new ne b same calls = record {
  kept = same;
  called = ap (calls_of u) calls;
  place = λ k. count-without_other t u k l ne;
  idle = λ z o. let (p, q) = idle_apart r j t on u new o in b.next_off u p q ∙ z;
}

pub job-unlink : (t u : ℕ) (m : Store) → job (unlink t m u) ≡ job (m u)
unfolding unlink
job-unlink t u m = job-set_next _ _ u _ ∙ job-set_prev _ _ u m

pub job-clear : (t u : ℕ) (m : Store) → job (set_prev t 0 (set_next t 0 m) u) ≡ job (m u)
job-clear t u m = job-set_prev t 0 u _ ∙ job-set_next t 0 u m

pub job-expire_links : (t u : ℕ) (m : Store) → job (expire_links t m u) ≡ job (m u)
unfolding expire_links
job-expire_links t u m = job-clear t u _ ∙ job-set_prev _ _ u _ ∙ job-set_next _ _ u m

-- The count of active timers goes down with the timers on the spokes, and up with them.
pub decr_total : (a b k : ℕ) → k + 1 ≡ b → a ≡ b % 2 ^ 32 → decr a ≡ k % 2 ^ 32
decr_total a b k e h = omega arith

pub incr_total : (a b k : ℕ) → k ≡ b + 1 → a ≡ b % 2 ^ 32 → incr a ≡ k % 2 ^ 32
incr_total a b k e h = omega arith
