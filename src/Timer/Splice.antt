-- ===== src/Timer/Splice.antt =====
-- A cell taken out of a circular list and one put at its end (src/timer/base_timer.c: the writes
-- of `tmr_enqueue_unlocked`, `stw_timer_start`, `stw_timer_stop` and `stw_timer_tick`).
use basearch.Prelude.{
  ℕ, ◌+◌, ◌≤◌, ◌<◌, ◌≡◌, ◌≢◌, refl, sym, ◌∙◌, List, [], ◌∷◌, ◌++◌, append-nil, subst, arith,
}
use basearch.Timer.{Store, set_next, set_prev, append_links, unlink, expire_links}
use basearch.Timer.Store.{
  count, count_self, count-cons-le, count-append, next-set_same, next-set_ne, prev-set_same,
  prev-set_ne, prev-set_next, next-set_prev,
}
use basearch.Timer.Links.{
  Seg, end, last_of, first_of, count-last, Seg-frame, Seg-append, Seg-before, Seg-after,
  Seg-retarget,
}

-- The links after `x`, which stood between `p` and `q`, is passed by.
pub record Bypass (m m' : Store) (x p q : ℕ) : Type 0 where
  pub next_at : (m' p).next ≡ q
  pub prev_at : (m' q).prev ≡ p
  pub next_off : (y : ℕ) → y ≢ p → y ≢ x → (m' y).next ≡ (m y).next
  pub prev_off : (y : ℕ) → y ≢ q → y ≢ x → (m' y).prev ≡ (m y).prev

-- The links after `t` is put between `l` and `h`.
pub record Joined (m m' : Store) (t l h : ℕ) : Type 0 where
  pub next_new : (m' t).next ≡ h
  pub prev_new : (m' t).prev ≡ l
  pub next_at : (m' l).next ≡ t
  pub prev_at : (m' h).prev ≡ t
  pub next_off : (y : ℕ) → y ≢ l → y ≢ t → (m' y).next ≡ (m y).next
  pub prev_off : (y : ℕ) → y ≢ h → y ≢ t → (m' y).prev ≡ (m y).prev

pub unlink-Bypass : (x : ℕ) (m : Store) → Bypass m (unlink x m) x (m x).prev (m x).next
unfolding unlink
unlink-Bypass x m =
    let p = (m x).prev in
    let q = (m x).next in
    let m1 = set_prev q p m in
    record {
      next_at = next-set_same p q p m1 refl;
      prev_at = prev-set_next p q q m1 ∙ prev-set_same q p q m refl;
      next_off = λ y a b. next-set_ne p q y m1 (λ e. a (sym e)) ∙ next-set_prev q p y m;
      prev_off = λ y a b. prev-set_next p q y m1 ∙ prev-set_ne q p y m (λ e. a (sym e));
    }

-- The links of a cell made NULL, which no other cell sees.
pub Bypass-clear :
    (m m' : Store) (x p q : ℕ)
    → p ≢ x
    → q ≢ x
    → Bypass m m' x p q
    → Bypass m (set_prev x 0 (set_next x 0 m')) x p q
Bypass-clear m m' x p q np nq b =
    let m1 = set_next x 0 m' in
    let nexts : (y : ℕ) → y ≢ x → (set_prev x 0 m1 y).next ≡ (m' y).next =
      λ y a. next-set_prev x 0 y m1 ∙ next-set_ne x 0 y m' (λ e. a (sym e)) in
    let prevs : (y : ℕ) → y ≢ x → (set_prev x 0 m1 y).prev ≡ (m' y).prev =
      λ y a. prev-set_ne x 0 y m1 (λ e. a (sym e)) ∙ prev-set_next x 0 y m' in
    record {
      next_at = nexts p np ∙ b.next_at;
      prev_at = prevs q nq ∙ b.prev_at;
      next_off = λ y a c. nexts y c ∙ b.next_off y a c;
      prev_off = λ y a c. prevs y c ∙ b.prev_off y a c;
    }

pub expire_links-Bypass :
    (x : ℕ) (m : Store)
    → (m x).prev ≢ x
    → (m x).next ≢ x
    → Bypass m (expire_links x m) x (m x).prev (m x).next
unfolding expire_links
expire_links-Bypass x m np nq =
    let p = (m x).prev in
    let q = (m x).next in
    let m1 = set_next p q m in
    Bypass-clear m (set_prev q p m1) x p q np nq (record {
      next_at = next-set_prev q p p m1 ∙ next-set_same p q p m refl;
      prev_at = prev-set_same q p q m1 refl;
      next_off = λ y a b. next-set_prev q p y m1 ∙ next-set_ne p q y m (λ e. a (sym e));
      prev_off = λ y a b. prev-set_ne q p y m1 (λ e. a (sym e)) ∙ prev-set_next p q y m;
    })

pub append_links-Joined :
    (h t : ℕ) (m : Store) → h ≢ t → (m h).prev ≢ t → Joined m (append_links h t m) t (m h).prev h
unfolding append_links
append_links-Joined h t m nh nl =
    let l = (m h).prev in
    let m1 = set_next t h m in
    let m2 = set_prev t l m1 in
    let m3 = set_next l t m2 in
    record {
      next_new =
          next-set_prev h t t m3
          ∙ next-set_ne l t t m2 nl
          ∙ next-set_prev t l t m1
          ∙ next-set_same t h t m refl;
      prev_new = prev-set_ne h t t m3 nh ∙ prev-set_next l t t m2 ∙ prev-set_same t l t m1 refl;
      next_at = next-set_prev h t l m3 ∙ next-set_same l t l m2 refl;
      prev_at = prev-set_same h t h m3 refl;
      next_off = λ y a b.
          next-set_prev h t y m3
          ∙ next-set_ne l t y m2 (λ e. a (sym e))
          ∙ next-set_prev t l y m1
          ∙ next-set_ne t h y m (λ e. b (sym e));
      prev_off = λ y a b.
          prev-set_ne h t y m3 (λ e. a (sym e))
          ∙ prev-set_next l t y m2
          ∙ prev-set_ne t l y m1 (λ e. b (sym e))
          ∙ prev-set_next t h y m;
    }

-- What is not counted is not equal.
pub uncounted : (x y : ℕ) (xs : List ℕ) → 0 < count y xs → count x xs ≡ 0 → y ≢ x
uncounted x y xs h z e = let k : 0 < count x xs = rw (← e) h in absurd (omega arith)

tail_or_head : (y h : ℕ) (ys zs : List ℕ) → 0 < count y (h ∷ zs) → 0 < count y (h ∷ ys) + count y zs
unfolding count
tail_or_head y h ys zs c = ground arith

pub Seg-bypass :
    {m : Store} (m' : Store) (h x : ℕ) (ys zs : List ℕ)
    → ((y : ℕ) → count y (h ∷ (ys ++ x ∷ zs)) ≤ 1)
    → Bypass m m' x (last_of h ys) (first_of zs h)
    → Seg m h h (ys ++ x ∷ zs)
    → Seg m' h h (ys ++ zs)
Seg-bypass {m} m' h x ys [] once b s =
    let both : (y : ℕ) → count y (h ∷ ys) + count y (x ∷ []) ≤ 1 =
      λ y. omega (arith, once y, count-append y (h ∷ ys) (x ∷ [])) in
    let out : count x (h ∷ ys) ≡ 0 = omega (arith, both x, count_self x []) in
    let r =
      Seg-retarget m' h (λ y. omega (arith, both y)) b.next_at b.prev_at
        (λ y c ne. b.next_off y ne (uncounted x y (h ∷ ys) c out))
        (λ y c.
          let d : 0 < count y (h ∷ ys) = omega (arith, count-cons-le y h ys) in
          b.prev_off y
            (λ e.
              let k : 0 < count h ys = rw (← e) c in
              absurd (omega (arith, both h, count_self h ys)))
            (uncounted x y (h ∷ ys) d out))
        (Seg-before ys [] s) in
    subst (λ l. Seg m' h h l) (sym (append-nil ys)) r
Seg-bypass {m} m' h x ys (z ∷ zs) once b s =
    let both : (y : ℕ) → count y (h ∷ ys) + count y (x ∷ z ∷ zs) ≤ 1 =
      λ y. omega (arith, once y, count-append y (h ∷ ys) (x ∷ z ∷ zs)) in
    let out : count x (h ∷ ys) ≡ 0 = omega (arith, both x, count_self x (z ∷ zs)) in
    let out' : count x (z ∷ zs) ≡ 0 = omega (arith, both x, count_self x (z ∷ zs)) in
    let rest : (y : ℕ) → count y (h ∷ ys) + count y (z ∷ zs) ≤ 1 =
      λ y. omega (arith, both y, count-cons-le y x (z ∷ zs)) in
    let r =
      Seg-retarget m' z (λ y. omega (arith, both y)) b.next_at b.prev_at
        (λ y c ne. b.next_off y ne (uncounted x y (h ∷ ys) c out))
        (λ y c.
          let d : 0 < count y (h ∷ ys) = omega (arith, count-cons-le y h ys) in
          b.prev_off y
            (λ e.
              let k : 0 < count z (h ∷ ys) = rw (← e) d in
              absurd (omega (arith, rest z, count_self z zs)))
            (uncounted x y (h ∷ ys) d out))
        (Seg-before ys (z ∷ zs) s) in
    let t =
      Seg-frame m'
        (λ y c.
          b.next_off y
            (λ e.
              let k : 0 < count (last_of h ys) (z ∷ zs) = rw (← e) c in
              absurd (omega (arith, rest (last_of h ys), count-last h ys)))
            (uncounted x y (z ∷ zs) c out'))
        (λ y c.
          let d : 0 < count y (h ∷ ys) + count y zs = omega (arith, tail_or_head y h ys zs c) in
          b.prev_off y
            (λ e.
              let k : 0 < count z (h ∷ ys) + count z zs = rw (← e) d in
              absurd (omega (arith, rest z, count_self z zs)))
            (λ e.
              let k : 0 < count x (h ∷ ys) + count x zs = rw (← e) d in
              absurd (omega (arith, out, out', count-cons-le x z zs))))
        (Seg-after [] zs (Seg-after ys (z ∷ zs) s)) in
    Seg-append ys zs r t

pub Seg-join :
    {m : Store} (m' : Store) (h t : ℕ) (xs : List ℕ)
    → ((y : ℕ) → count y (h ∷ xs) ≤ 1)
    → count t (h ∷ xs) ≡ 0
    → Joined m m' t (last_of h xs) h
    → Seg m h h xs
    → Seg m' h h (xs ++ t ∷ [])
Seg-join m' h t xs once out j s =
    Seg-append xs []
      (Seg-retarget m' t once j.next_at j.prev_new
        (λ y c ne. j.next_off y ne (uncounted t y (h ∷ xs) c out))
        (λ y c.
          let d : 0 < count y (h ∷ xs) = omega (arith, count-cons-le y h xs) in
          j.prev_off y
            (λ e.
              let k : 0 < count h xs = rw (← e) c in
              absurd (omega (arith, once h, count_self h xs)))
            (uncounted t y (h ∷ xs) d out))
        s)
      (end j.next_new j.prev_at)
