-- ===== src/Timer/Lists.antt =====
-- The timers of a wheel as lists: one taken off, one added, and how many there are.
use mathlib.Core.Path.{fun_ext}
use basearch.Prelude.{
  ℕ, zero, suc, ◌+◌, ◌≤◌, ◌<◌, ◌≡◌, ◌≢◌, refl, sym, ap, ◌∙◌, false, List, [], ◌∷◌, ◌++◌, arith,
  ◌==◌, ==_refl, eq_false_of_ne, if◌then◌else◌, subst, length, length-append,
}
use native.Mathlib.Decide.{ℕ_discrete}
use basearch.Timer.{Store}
use basearch.Timer.Store.{
  count, count_nil, count_self, count-other, count-cons-le, count-append, cut,
}
use basearch.Timer.Splice.{Bypass, Joined}
use basearch.Timer.Rings.{Spokes, put, put-same, put-other, Rings, IsTimer}
use basearch.Timer.Rings.Remove.{Bypass-Rings}
use basearch.Timer.Rings.Append.{Joined-Rings}

unfoldable pub remove : ℕ → List ℕ → List ℕ
remove x [] = []
remove x (y ∷ ys) = let rest = remove x ys in if y == x then rest else y ∷ rest

-- The spokes without a timer, and with one at the end of a spoke.
unfoldable pub without : ℕ → Spokes → Spokes
without x l = λ k. remove x (l k)

unfoldable pub add : ℕ → ℕ → Spokes → Spokes
unfolding put
add c t l = put c (l c ++ t ∷ []) l

-- The timers on the first `n` spokes.
unfoldable pub total : ℕ → Spokes → ℕ
total zero l = 0
total (suc n) l = total n l + length (l n)

remove_head : (x : ℕ) (ys : List ℕ) → remove x (x ∷ ys) ≡ remove x ys
unfolding remove
remove_head x ys = let e = ==_refl x in rw e

remove_tail : (x y : ℕ) (ys : List ℕ) → y ≢ x → remove x (y ∷ ys) ≡ y ∷ remove x ys
unfolding remove
remove_tail x y ys ne = let e : (y == x) ≡ false = eq_false_of_ne y x ne in rw e

count_ne : (x y : ℕ) (ys : List ℕ) → count x (y ∷ ys) ≡ 0 → y ≢ x
count_ne x y ys z e =
    let k = subst (λ v. count x (v ∷ ys) ≡ 0) e z in absurd (omega (arith, count_self x ys))

pub remove_absent : (x : ℕ) (xs : List ℕ) → count x xs ≡ 0 → remove x xs ≡ xs
unfolding remove
remove_absent x [] z = refl
remove_absent x (y ∷ ys) z =
    remove_tail x y ys (count_ne x y ys z)
    ∙ ap (λ t. y ∷ t) (remove_absent x ys (omega (arith, count-cons-le x y ys)))

remove_cut :
    (x : ℕ) (ys zs : List ℕ) → count x ys ≡ 0 → count x zs ≡ 0 → remove x (ys ++ x ∷ zs) ≡ ys ++ zs
remove_cut x [] zs p q = remove_head x zs ∙ remove_absent x zs q
remove_cut x (y ∷ ys) zs p q =
    remove_tail x y (ys ++ x ∷ zs) (count_ne x y ys p)
    ∙ ap (λ t. y ∷ t) (remove_cut x ys zs (omega (arith, count-cons-le x y ys)) q)

pub count-remove_self : (x : ℕ) (xs : List ℕ) → count x (remove x xs) ≡ 0
unfolding remove
count-remove_self x [] = count_nil x
count-remove_self x (y ∷ ys) = elim (ℕ_discrete y x) [
  | yes e ↦ rw (e, remove_head x ys) (count-remove_self x ys)
  | no ne ↦ rw (remove_tail x y ys ne) (count-other x y (remove x ys) ne ∙ count-remove_self x ys)
]

pub count-remove_other : (x y : ℕ) (xs : List ℕ) → x ≢ y → count y (remove x xs) ≡ count y xs
unfolding remove
count-remove_other x y [] h = refl
count-remove_other x y (z ∷ zs) h = elim (ℕ_discrete z x) [
  | yes e ↦ rw (e, remove_head x zs) (count-remove_other x y zs h ∙ sym (count-other y x zs h))
  | no ne ↦
      let r = remove_tail x z zs ne in
      let i = count-remove_other x y zs h in
      rw r (elim (ℕ_discrete z y) [
        | yes e ↦ rw e (count_self y (remove x zs) ∙ ap suc i ∙ sym (count_self y zs))
        | no nf ↦ count-other y z (remove x zs) nf ∙ i ∙ sym (count-other y z zs nf)
      ])
]

-- An absent timer is taken off without a change.
pub without_absent : (x : ℕ) (l : Spokes) → ((k : ℕ) → count x (l k) ≡ 0) → without x l ≡ l
unfolding without
without_absent x l h = fun_ext (λ k. remove_absent x (l k) (h k))

-- One that stands once is cut out of its spoke.
module _ {m : Store} {sp n : ℕ} {l : Spokes} (r : Rings m sp n l) (j x : ℕ) (ys zs : List ℕ) where
  parts : l j ≡ ys ++ x ∷ zs → (count x ys ≡ 0) × (count x zs ≡ 0)
  parts e =
      let c : count x (l j) ≡ count x ys + suc (count x zs) =
        ap (count x) e ∙ omega (arith, count-append x ys (x ∷ zs), count_self x zs) in
      (omega (arith, r.once j x), omega (arith, r.once j x))

  pub without_cut : l j ≡ ys ++ x ∷ zs → without x l ≡ put j (ys ++ zs) l
  unfolding without
  without_cut e =
      let (a, b) = parts e in
      fun_ext (λ k. elim (ℕ_discrete k j) [
        | yes q ↦
            ap (λ i. remove x (l i)) q
            ∙ ap (remove x) e
            ∙ remove_cut x ys zs a b
            ∙ sym (put-same j k (ys ++ zs) l q)
        | no ne ↦
            let z : count x (l k) ≡ 0 = elim (ℕ_discrete (count x (l k)) 0) [
              | yes z ↦ z
              | no nz ↦
                  let c : 0 < count x (l j) =
                    rw e (omega (arith, count-append x ys (x ∷ zs), count_self x zs)) in
                  absurd (ne (r.apart k j x (omega arith) c))
            ] in
            remove_absent x (l k) z ∙ sym (put-other j k (ys ++ zs) l ne)
      ])

pub without-Rings :
    (m m' : Store) (sp n : ℕ) (l : Spokes) (j x : ℕ)
    → Rings m sp n l
    → 0 < count x (l j)
    → Bypass m m' x (m x).prev (m x).next
    → Rings m' sp n (without x l)
without-Rings m m' sp n l j x r c b =
    let k = cut x (l j) c in
    let t = Bypass-Rings m m' sp n l j x k.before k.after r (r.within j x c) k.whole b in
    rw (without_cut r j x k.before k.after k.whole) t

pub add-Rings :
    (m m' : Store) (sp n : ℕ) (l : Spokes) (c t : ℕ)
    → Rings m sp n l
    → c < n
    → IsTimer sp n t
    → ((k : ℕ) → count t (l k) ≡ 0)
    → Joined m m' t (m (sp + c)).prev (sp + c)
    → Rings m' sp n (add c t l)
unfolding add
add-Rings m m' sp n l c t r lt new out j = Joined-Rings m m' sp n l c t r lt new out j

pub count-without_self : (x k : ℕ) (l : Spokes) → count x (without x l k) ≡ 0
unfolding without
count-without_self x k l = count-remove_self x (l k)

pub count-without_other : (x y k : ℕ) (l : Spokes) → x ≢ y → count y (without x l k) ≡ count y (l k)
unfolding without
count-without_other x y k l ne = count-remove_other x y (l k) ne

pub add_here : (c t : ℕ) (l : Spokes) → add c t l c ≡ l c ++ t ∷ []
unfolding add
add_here c t l = put-same c c (l c ++ t ∷ []) l refl

pub add_there : (c t k : ℕ) (l : Spokes) → k ≢ c → add c t l k ≡ l k
unfolding add
add_there c t k l ne = put-other c k (l c ++ t ∷ []) l ne

pub count-add_other : (c t y k : ℕ) (l : Spokes) → t ≢ y → count y (add c t l k) ≡ count y (l k)
count-add_other c t y k l ne = elim (ℕ_discrete k c) [
  | yes e ↦
      rw (e, add_here c t l)
        (omega (arith, count-append y (l c) (t ∷ []), count-other y t [] ne, count_nil y))
  | no nk ↦ ap (count y) (add_there c t k l nk)
]

pub count-add_self : (c t : ℕ) (l : Spokes) → 0 < count t (add c t l c)
count-add_self c t l =
    rw (add_here c t l) (omega (arith, count-append t (l c) (t ∷ []), count_self t []))

-- A change of one spoke changes the total by as much.
total-same : (n j : ℕ) (xs : List ℕ) (l : Spokes) → n ≤ j → total n (put j xs l) ≡ total n l
unfolding total
total-same zero j xs l le = refl
total-same (suc n) j xs l le =
    let a = total-same n j xs l (omega arith) in
    let b = ap length (put-other j n xs l (λ e. absurd (omega arith))) in rw (a, b)

total-put :
    (n j : ℕ) (xs : List ℕ) (l : Spokes)
    → j < n
    → total n (put j xs l) + length (l j) ≡ total n l + length xs
unfolding total
total-put zero j xs l lt = absurd (omega arith)
total-put (suc n) j xs l lt = elim (ℕ_discrete n j) [
  | yes e ↦
      let a = total-same n j xs l (omega arith) in
      let b = ap length (put-same j n xs l e) in
      let c : length (l j) ≡ length (l n) = ap (λ k. length (l k)) (sym e) in omega (arith, a, b, c)
  | no ne ↦
      let a = total-put n j xs l (omega arith) in
      let b = ap length (put-other j n xs l ne) in omega (arith, a, b)
]

pub total-without :
    {m : Store} {sp n : ℕ} {l : Spokes} (r : Rings m sp n l) (j x : ℕ)
    → 0 < count x (l j)
    → total n (without x l) + 1 ≡ total n l
total-without {m} {sp} {n} {l} r j x c =
    let k = cut x (l j) c in
    let a = total-put n j (k.before ++ k.after) l (r.within j x c) in
    let b = ap length k.whole in
    rw (without_cut r j x k.before k.after k.whole)
      (omega (arith, a, b, length-append k.before k.after, length-append k.before (x ∷ k.after)))

pub total-add : (n c t : ℕ) (l : Spokes) → c < n → total n (add c t l) ≡ total n l + 1
unfolding add
total-add n c t l lt =
    omega (arith, total-put n c (l c ++ t ∷ []) l lt, length-append (l c) (t ∷ []))
