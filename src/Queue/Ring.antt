-- ===== src/Queue/Ring.antt =====
-- Slots of equal size in a circle of `n`: the arithmetic of the read and write pointers, and the
-- messages that stand in a run of slots.
use basearch.Prelude.{
  ℕ, zero, suc, ◌+◌, ◌*◌, ◌≤◌, ◌<◌, ◌≡◌, refl, ap, ap₂, ◌≢◌, ◌⊎◌, inl, inr, List, [], ◌∷◌, ◌++◌,
  arith, if◌then◌else◌, ◌==◌, length, read_bytes, write_bytes, read_bytes-write_same,
  read_bytes-write_before, read_bytes-write_after,
}
use native.Mathlib.Decide.{dec_lt, ℕ_discrete}

-- Slots below one another do not overlap.
pub slot_apart : (a b len : ℕ) → a < b → a * len + len ≤ b * len
slot_apart a b len h = grind arith

pub slot_cancel : (a b len : ℕ) → 0 < len → a * len ≡ b * len → a ≡ b
slot_cancel a b len pos e = elim (dec_lt a b) [
  | yes lt ↦ let p = slot_apart a b len lt in absurd (omega arith)
  | no ge ↦ elim (dec_lt b a) [
    | yes lt ↦ let p = slot_apart b a len lt in absurd (omega arith)
    | no le ↦ omega arith
  ]
]

-- The pointer moved on by one slot.
abbrev pub next_slot : ℕ → ℕ → ℕ
next_slot n h = if suc h == n then 0 else suc h

pub next_slot_cases :
    (n h : ℕ) → ((suc h ≡ n) × (next_slot n h ≡ 0)) ⊎ ((suc h ≢ n) × (next_slot n h ≡ suc h))
next_slot_cases n h = elim (ℕ_discrete (suc h) n) [
  | yes e ↦ inl (e, ground arith)
  | no ne ↦ inr (ne, ground arith)
]

pub next_slot-lt : (n h : ℕ) → h < n → next_slot n h < n
next_slot-lt n h lt = ground arith

abbrev pub after : ℕ → ℕ → ℕ → ℕ
after n h zero = h
after n h (suc k) = after n (next_slot n h) k

-- The position is the sum, less one round.
pub after_sum :
    (n h k : ℕ)
    → h < n
    → k ≤ n
    → ((h + k < n) × (after n h k ≡ h + k)) ⊎ ((n ≤ h + k) × (after n h k + n ≡ h + k))
after_sum n h zero lt le = inl (omega arith, omega arith)
after_sum n h (suc k) lt le =
    let ih = after_sum n (next_slot n h) k (next_slot-lt n h lt) (omega arith) in
    elim (next_slot_cases n h) [ inl (e, z) ↦ omega arith | inr (ne, z) ↦ omega arith ]

pub after-next : (n h k : ℕ) → after n h (suc k) ≡ next_slot n (after n h k)
after-next n h zero = refl
after-next n h (suc k) = after-next n (next_slot n h) k

module _ (len n : ℕ) where
  -- The `k` messages from slot `h` on.
  abbrev pub window : List ℕ → ℕ → ℕ → List (List ℕ)
  window mem h zero = []
  window mem h (suc k) = read_bytes mem (h * len) len ∷ window mem (next_slot n h) k

  pub length-window : (mem : List ℕ) (h k : ℕ) → length (window mem h k) ≡ k
  length-window mem h zero = refl
  length-window mem h (suc k) = ap suc (length-window mem (next_slot n h) k)

  read-write_other :
      (mem bs : List ℕ) (h j : ℕ)
      → length bs ≡ len
      → h ≢ j
      → read_bytes (write_bytes mem (j * len) bs) (h * len) len ≡ read_bytes mem (h * len) len
  read-write_other mem bs h j size ne = elim (dec_lt h j) [
    | yes lt ↦ read_bytes-write_before mem (j * len) bs (h * len) len (slot_apart h j len lt)
    | no ge ↦
        read_bytes-write_after mem (j * len) bs (h * len) len
          (let p = slot_apart j h len (omega arith) in omega arith)
  ]

  -- A message written just past a run extends it.
  pub window-write :
      (mem bs : List ℕ) (h k j : ℕ)
      → length mem ≡ n * len
      → length bs ≡ len
      → h < n
      → k < n
      → j ≡ after n h k
      → window (write_bytes mem (j * len) bs) h (suc k) ≡ window mem h k ++ (bs ∷ [])
  window-write mem bs h zero j size fits lt few e =
      ap (λ t. t ∷ [])
        (rw (e, ← fits)
          (read_bytes-write_same mem (h * length bs) bs
            (let p = slot_apart h n (length bs) lt in rw (size, ← fits) p)))
  window-write mem bs h (suc k) j size fits lt few e =
      ap₂ ◌∷◌ (read-write_other mem bs h j fits (λ q. absurd (first q)))
        (window-write mem bs (next_slot n h) k j size fits (next_slot-lt n h lt) (omega arith) e)
    where
      first : h ≡ j → ⊥
      first q = let p = after_sum n h (suc k) lt (omega arith) in omega arith
