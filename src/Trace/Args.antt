-- ===== src/Trace/Args.antt =====
-- What src/trace/base_trace.c counts for one argument, against the text that it prints of it.
use basearch.Prelude.{
  ℕ, zero, suc, ◌+◌, ◌-◌, ◌/◌, ◌%◌, ◌^◌, ◌≤◌, ◌<◌, ◌≡◌, ◌∙◌, ◌⊎◌, inl, inr, false, some, List, [],
  ◌∷◌, arith, length, length-append, ◌==◌,
}
use basearch.Trace.Line.{
  digit, skip_minus, skip_digits, count_chars, arg_length, numeral, signed, put_arg,
}

count_chars_lem : (s : List ℕ) (n : ℕ) → n < 2 ^ 32 → count_chars s n ≡ (n + length s) % 2 ^ 32
unfolding count_chars
count_chars_lem [] n lt = omega arith
count_chars_lem (c ∷ s) n lt = count_chars_lem s ((n + 1) % 2 ^ 32) (omega arith) ∙ omega arith

length-numeral : (base ten fuel n : ℕ) → length (numeral base ten fuel n) ≤ fuel
unfolding numeral
length-numeral base ten zero n = omega arith
length-numeral base ten (suc fuel) n =
    let ih = length-numeral base ten fuel (n / base) in
    let app = length-append (numeral base ten fuel (n / base)) (digit ten (n % base) ∷ []) in
    ground arith

length-signed : (w : ℕ) → length (signed w) ≤ 11
unfolding signed
length-signed w =
    let a = length-numeral 10 97 10 w in
    let b = length-numeral 10 97 10 (2 ^ 32 - w) in ground arith

-- What an argument of a printed text is counted for.
abbrev pub Counted : ℕ → ℕ → List ℕ → List ℕ → Type 0
Counted m n text s = (e : ℕ) × (m ≡ (n + e) % 2 ^ 32) × (length text ≤ e) × (e ≤ 19 + length s)

-- The conversions that have a text, with its length.
Conversion : ℕ → ℕ → List ℕ → List ℕ → Type 0
Conversion c a t s =
    (((c ≡ 100) ⊎ (c ≡ 117) ⊎ (c ≡ 120) ⊎ (c ≡ 88)) × (length t ≤ 11))
    ⊎ ((c ≡ 99) × (length t ≡ 1))
    ⊎ ((c ≡ 115) × ((a == 0) ≡ false) × (t ≡ s))

put_arg-Conversion :
    (strings : ℕ → List ℕ) (c a : ℕ) (t : List ℕ)
    → put_arg strings c a ≡ some t
    → Conversion c a t (strings a)
unfolding Conversion put_arg
put_arg-Conversion strings c a t e =
    let w = a % 2 ^ 32 in
    let d = length-signed w in
    let u = length-numeral 10 97 10 w in
    let x = length-numeral 16 97 8 w in let y = length-numeral 16 65 8 w in ground arith

number_count :
    (strings : ℕ → List ℕ) (c a n : ℕ) (cs : List ℕ)
    → (c ≡ 100) ⊎ (c ≡ 117) ⊎ (c ≡ 120) ⊎ (c ≡ 88)
    → arg_length strings (skip_digits (skip_minus (c ∷ cs))) a n ≡ (n + 19) % 2 ^ 32
unfolding arg_length skip_digits skip_minus
number_count strings c a n cs k = ground arith

char_count :
    (strings : ℕ → List ℕ) (c a n : ℕ) (cs : List ℕ)
    → c ≡ 99
    → arg_length strings (skip_digits (skip_minus (c ∷ cs))) a n ≡ (n + 1) % 2 ^ 32
unfolding arg_length skip_digits skip_minus
char_count strings c a n cs k = ground arith

string_count :
    (strings : ℕ → List ℕ) (c a n : ℕ) (cs : List ℕ)
    → c ≡ 115
    → (a == 0) ≡ false
    → arg_length strings (skip_digits (skip_minus (c ∷ cs))) a n ≡ count_chars (strings a) n
unfolding arg_length skip_digits skip_minus
string_count strings c a n cs k nz = ground arith

pub put_arg_lem :
    (strings : ℕ → List ℕ) (c a n : ℕ) (cs t : List ℕ)
    → n < 2 ^ 32
    → put_arg strings c a ≡ some t
    → Counted (arg_length strings (skip_digits (skip_minus (c ∷ cs))) a n) n t (strings a)
unfolding Conversion
put_arg_lem strings c a n cs t lt e = elim (put_arg-Conversion strings c a t e) [
  | inl (k, l) ↦ (19, number_count strings c a n cs k, omega arith, omega arith)
  | inr (inl (k, l)) ↦ (1, char_count strings c a n cs k, omega arith, omega arith)
  | inr (inr (k, nz, q)) ↦ (
    length (strings a),
    string_count strings c a n cs k nz ∙ count_chars_lem (strings a) n lt,
    rw q (omega arith),
    omega arith,
  )
]

pub count_bound :
    (strings : ℕ → List ℕ) (c a n : ℕ) (cs t : List ℕ)
    → n < 2 ^ 32
    → put_arg strings c a ≡ some t
    → arg_length strings (skip_digits (skip_minus (c ∷ cs))) a n < 2 ^ 32
count_bound strings c a n cs t lt p =
    let (e, m, le, r) = put_arg_lem strings c a n cs t lt p in omega (arith, m)
