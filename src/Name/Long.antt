-- ===== src/Name/Long.antt =====
-- Names of tasks, which base_task_create copies up to BASE_TASK_NAME_LEN characters of, while the
-- registry keeps OSIX_NAME_LEN + 4 bytes and the other calls copy OSIX_NAME_LEN characters.
use basearch.Prelude.{
  ℕ, zero, suc, ◌≤◌, ◌<◌, ◌≡◌, refl, ap, ◌∙◌, ◌≢◌, List, [], ◌∷◌, ◌==◌, length, arith, Option,
  replicate, write_bytes, get_elem?, take, Bool-cases, inl, inr, some, none, sym,
}
use basearch.Registry.Table.{osix_name_len, name_size}
use basearch.Name.{chars_of, fill_name, short_name}

abbrev value : Option ℕ → ℕ
value none = 0
value (some x) = x

-- A loop that may copy more copies no more than there are characters.
chars_of-le :
    (k m : ℕ) (s : List ℕ) → length (chars_of m s) ≤ k → k ≤ m → chars_of k s ≡ chars_of m s
unfolding chars_of
chars_of-le zero zero s le lt = refl
chars_of-le zero (suc m) [] le lt = refl
chars_of-le zero (suc m) (c ∷ s) le lt = ground arith
chars_of-le (suc k) zero s le lt = absurd (omega arith)
chars_of-le (suc k) (suc m) [] le lt = refl
chars_of-le (suc k) (suc m) (c ∷ s) le lt = elim (Bool-cases (c == 0)) [
  | inl z ↦ rw z
  | inr z ↦ rw z (ap (λ l. c ∷ l) (chars_of-le k m s (ground arith) (omega arith)))
]

length-chars_of : (m : ℕ) (s : List ℕ) → length (chars_of m s) ≤ m
unfolding chars_of
length-chars_of zero s = omega arith
length-chars_of (suc m) [] = omega arith
length-chars_of (suc m) (c ∷ s) = ground (arith, length-chars_of m s)

chars_of-ne : (m : ℕ) (s : List ℕ) (i x : ℕ) → get_elem? (chars_of m s) i ≡ some x → x ≢ 0
unfolding chars_of
chars_of-ne zero s i x e = absurd (ground arith)
chars_of-ne (suc m) [] i x e = absurd (ground arith)
chars_of-ne (suc m) (c ∷ s) zero x e = ground arith
chars_of-ne (suc m) (c ∷ s) (suc i) x e = elim (Bool-cases (c == 0)) [
  | inl z ↦ absurd (ground arith)
  | inr z ↦ chars_of-ne m s i x (ground arith)
]

take-replicate : (n m : ℕ) → n ≤ m → take {A = ℕ} n (replicate m 0) ≡ replicate n 0
unfolding replicate
take-replicate zero m le = refl
take-replicate (suc n) zero le = absurd (omega arith)
take-replicate (suc n) (suc m) le = ap (λ l. 0 ∷ l) (take-replicate n m (omega arith))

-- The first bytes of a larger buffer.
take-write_bytes :
    (n m : ℕ) (cs : List ℕ)
    → n ≤ m
    → length cs ≤ n
    → take n (write_bytes (replicate m 0) 0 cs) ≡ write_bytes (replicate n 0) 0 cs
unfolding write_bytes replicate
take-write_bytes zero m [] le fits = refl
take-write_bytes zero m (c ∷ cs) le fits = absurd (omega arith)
take-write_bytes (suc n) zero cs le fits = absurd (omega arith)
take-write_bytes (suc n) (suc m) [] le fits = ap (λ l. 0 ∷ l) (take-replicate n m (omega arith))
take-write_bytes (suc n) (suc m) (c ∷ cs) le fits =
    ap (λ l. c ∷ l) (take-write_bytes n m cs (omega arith) (omega arith))

-- The bytes that the registry keeps of a task's name.
abbrev pub stored_name : List ℕ → List ℕ
stored_name name = take name_size (fill_name 16 16 name)

-- A name of OSIX_NAME_LEN characters at most is kept as the other calls copy it.
pub stored-short :
    (name : List ℕ) → length (chars_of 16 name) ≤ osix_name_len → stored_name name ≡ short_name name
unfolding fill_name
stored-short name le =
    take-write_bytes 8 16 (chars_of 16 name) (omega arith) (omega arith)
    ∙ ap (write_bytes (replicate 8 0) 0) (sym (chars_of-le 4 16 name le (omega arith)))

fifth : (cs : List ℕ) → length cs ≤ 4 → get_elem? (write_bytes (replicate 8 0) 0 cs) 4 ≡ some 0
unfolding write_bytes replicate
fifth [] le = refl
fifth (a ∷ []) le = refl
fifth (a ∷ b ∷ []) le = refl
fifth (a ∷ b ∷ c ∷ []) le = refl
fifth (a ∷ b ∷ c ∷ d ∷ []) le = refl
fifth (a ∷ b ∷ c ∷ d ∷ e ∷ cs) le = absurd (omega arith)

fifth_char :
    (cs : List ℕ)
    → 4 < length cs
    → (x : ℕ) × (get_elem? cs 4 ≡ some x)
      × (get_elem? (take 8 (write_bytes (replicate 16 0) 0 cs)) 4 ≡ some x)
unfolding write_bytes replicate
fifth_char [] lt = absurd (omega arith)
fifth_char (a ∷ []) lt = absurd (omega arith)
fifth_char (a ∷ b ∷ []) lt = absurd (omega arith)
fifth_char (a ∷ b ∷ c ∷ []) lt = absurd (omega arith)
fifth_char (a ∷ b ∷ c ∷ d ∷ []) lt = absurd (omega arith)
fifth_char (a ∷ b ∷ c ∷ d ∷ e ∷ cs) lt = (e, refl, refl)

-- A longer one is not.
pub stored-long :
    (name : List ℕ) → osix_name_len < length (chars_of 16 name) → stored_name name ≢ short_name name
unfolding fill_name
stored-long name lt e =
    let (x, at, here) = fifth_char (chars_of 16 name) lt in
    let none_there = fifth (chars_of 4 name) (length-chars_of 4 name) in
    let z : some x ≡ some 0 = sym here ∙ ap (λ l. get_elem? l 4) e ∙ none_there in
    chars_of-ne 16 name 4 x at (ap value z)
