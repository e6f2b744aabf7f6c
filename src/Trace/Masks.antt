-- ===== src/Trace/Masks.antt =====
-- Switching a module on or off by its id, and what is then printed.
use basearch.Prelude.{
  ℕ, zero, suc, ◌<◌, ◌≡◌, refl, ap, ◌∙◌, ◌≢◌, Bool, true, false, not, ◌&&◌, ◌||◌, some, arith, ◌==◌,
  ltb, ==_iff, eq_false_of_ne, Bool-cases, inl, inr, sym, bit_at, and32, or32, and_not32,
  bit_at-zip_bits, zip_bits-zero, no_common,
}
use basearch.Trace.{
  Trace, base_trace_set_module, base_trace_set_level, base_trace_prints, trace_l_err,
}

or_true : (b : Bool) → (b || true) ≡ true
or_true true = refl
or_true false = refl

-- A word with a bit of the low 32 has it in common with every word that it was or-ed into.
or_common : (m a i : ℕ) → i < 32 → bit_at i m ≡ true → and32 m (or32 a m) ≢ 0
or_common m a i lt set e =
    let k = no_common m (or32 a m) e i lt in
    let b = bit_at-zip_bits (λ x y. x || y) 32 i a m lt in
    absurd (both (bit_at i a) (bit_at i m) set b k)
  where
    both :
        (x y : Bool)
        → y ≡ true
        → bit_at i (or32 a m) ≡ (x || y)
        → (y && bit_at i (or32 a m)) ≡ false
        → ⊥
    both x true s b k = let q = or_true x in cc
    both x false s b k = cc

-- It has none in common with a word that it was cleared in.
and_not_common : (m a : ℕ) → and32 m (and_not32 a m) ≡ 0
and_not_common m a =
    zip_bits-zero (λ x y. x && y) 32 m (and_not32 a m)
      (λ i lt.
        ap (λ b. bit_at i m && b) (bit_at-zip_bits (λ x y. x && not y) 32 i a m lt)
        ∙ cleared (bit_at i a) (bit_at i m))
  where
    cleared : (x y : Bool) → (y && (x && not y)) ≡ false
    cleared true true = refl
    cleared true false = refl
    cleared false true = refl
    cleared false false = refl

-- The ids of modules and levels have a bit.
id_bit : (n : ℕ) → 0 < n → n < 4 → (i : ℕ) × (i < 32) × (bit_at i n ≡ true)
id_bit zero pos lt = absurd (omega arith)
id_bit (suc zero) pos lt = (0, omega arith, refl)
id_bit (suc (suc zero)) pos lt = (1, omega arith, refl)
id_bit (suc (suc (suc zero))) pos lt = (0, omega arith, refl)
id_bit (suc (suc (suc (suc n)))) pos lt = absurd (omega arith)

switched_on : (n a : ℕ) → 0 < n → n < 4 → (and32 n (or32 a n) == 0) ≡ false
switched_on n a pos lt =
    let (i, l, set) = id_bit n pos lt in eq_false_of_ne _ _ (or_common n a i l set)

in_range : (n : ℕ) → n < 4 → ltb 3 n ≡ false
in_range n lt = ground arith

or_false : (b : Bool) → (b || false) ≡ b
or_false true = refl
or_false false = refl

-- A mask without a bit of the id does not change what the id has in common with a word.
or_other : (m a k : ℕ) → and32 m k ≡ 0 → (and32 m (or32 a k) == 0) ≡ (and32 m a == 0)
or_other m a k z = elim (Bool-cases (and32 m a == 0)) [
  | inl e ↦
      let f = (==_iff _ _).0 e in
      let g : and32 m (or32 a k) ≡ 0 =
        zip_bits-zero (λ x y. x && y) 32 m (or32 a k)
          (λ i lt.
            ap (λ b. bit_at i m && b) (bit_at-zip_bits (λ x y. x || y) 32 i a k lt)
            ∙ none_of (bit_at i m) (bit_at i a) (bit_at i k) (no_common m a f i lt)
                (no_common m k z i lt)) in
      (==_iff _ _).1 g ∙ sym e
  | inr e ↦
      eq_false_of_ne _ _ (λ g.
        let h : and32 m a ≡ 0 =
          zip_bits-zero (λ x y. x && y) 32 m a
            (λ i lt. one_of (bit_at i m) (bit_at i a) (bit_at i k) (
              ap (λ b. bit_at i m && b) (sym (bit_at-zip_bits (λ x y. x || y) 32 i a k lt))
              ∙ no_common m (or32 a k) g i lt)) in
        let t = (==_iff _ _).1 h in absurd (cc))
      ∙ sym e
]
  where
    none_of : (x y w : Bool) → (x && y) ≡ false → (x && w) ≡ false → (x && (y || w)) ≡ false
    none_of true true w p q = cc
    none_of true false w p q = q
    none_of false y w p q = refl

    one_of : (x y w : Bool) → (x && (y || w)) ≡ false → (x && y) ≡ false
    one_of true true w p = p
    one_of true false w p = refl
    one_of false y w p = refl

-- While tracing is enabled, a line of a module and a level by their ids is printed after the two
-- were switched on by these ids; after the module was switched off by its id it is printed only if
-- it is an error; and a mask that has no bit in common with the module's id, as the mask of trace.h
-- for the module 3 has none, changes nothing when it is switched on.
pub switch-prints :
    (md level mask : ℕ) (t : Trace)
    → 0 < md
    → md < 4
    → 0 < level
    → level < 4
    → and32 md mask ≡ 0
    → t.enable ≡ 1
    → (base_trace_prints md level
          (base_trace_set_level level (some true) (base_trace_set_module md (some true) t))
        ≡ some true)
      × (base_trace_prints md level (base_trace_set_module md (some false) t)
          ≡ some (level == trace_l_err))
      × (base_trace_prints md level (base_trace_set_module mask (some true) t)
          ≡ base_trace_prints md level t)
unfolding base_trace_prints base_trace_set_level base_trace_set_module
switch-prints md level mask t pos lt pos' lt' apart on =
    let e : (t.enable == 1) ≡ true = (==_iff _ _).1 on in
    let on_m = switched_on md t.modules pos lt in
    let on_l = switched_on level t.levels pos' lt' in
    let off : (and32 md (and_not32 t.modules md) == 0) ≡ true =
      (==_iff _ _).1 (and_not_common md t.modules) in
    (
      rw (in_range md lt, in_range level lt', e, on_m, on_l) (ap some (or_true (level == 1))),
      rw (in_range md lt, in_range level lt', e, off) (ap some (or_false (level == 1))),
      rw (in_range md lt, in_range level lt', e, or_other md t.modules mask apart) refl,
    )
