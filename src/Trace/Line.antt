-- ===== src/Trace/Line.antt =====
-- How src/trace/base_trace.c composes a line: the length that `base_trace_getLength` counts, the
-- two checks of the length in `base_trace_print`, and the text. An argument is the word that
-- `va_arg` reads, `strings a` is the string at the address `a`, and texts are lists of characters
-- without the NUL. The function reads `pi1Fmt` where its parameter is `format`; it is read as
-- that.
use basearch.Prelude.{
  ℕ, zero, suc, ◌+◌, ◌-◌, ◌/◌, ◌%◌, ◌^◌, Bool, true, false, not, ◌&&◌, ◌||◌, Option, none, some,
  List, [], ◌∷◌, ◌++◌, length, ltb, leb, ◌==◌, if◌then◌else◌,
}

-- `va_arg`; to read more arguments than there are has no defined result.
unfoldable pub next_arg : List ℕ → Option (ℕ × List ℕ)
next_arg [] = none
next_arg (a ∷ args) = some (a, args)

-- `if (*p == '-') ++p;`
unfoldable pub skip_minus : List ℕ → List ℕ
skip_minus [] = []
skip_minus (c ∷ cs) = if c == 45 then cs else c ∷ cs

-- `while ((*p >= '0') && (*p <= '9')) ++p;`
unfoldable pub skip_digits : List ℕ → List ℕ
skip_digits [] = []
skip_digits (c ∷ cs) = let rest = skip_digits cs in if leb 48 c && leb c 57 then rest else c ∷ cs

-- The loop over the string of a `%s`.
unfoldable pub count_chars : List ℕ → ℕ → ℕ
count_chars [] n = n
count_chars (c ∷ cs) n = count_chars cs ((n + 1) % 2 ^ 32)

-- The conversions d, x, X and u count 19, c counts one, and s the length of its string.
unfoldable pub arg_length : (ℕ → List ℕ) → List ℕ → ℕ → ℕ → ℕ
arg_length strings [] a n = n
arg_length strings (c ∷ cs) a n =
    if (c == 100) || (c == 120) || (c == 88) || (c == 117)
    then (n + 19) % 2 ^ 32
    else if c == 99
    then (n + 1) % 2 ^ 32
    else if (c == 115) && not (a == 0)
    then count_chars (strings a) n
    else n

-- The loop over the format, after a `%` if the flag is set: `count` arguments were read, which take
-- `n` characters. Behind a `%` at the end it reads past the NUL: `none`.
unfoldable pub length_loop : (ℕ → List ℕ) → Bool → List ℕ → List ℕ → ℕ → ℕ → Option (ℕ × ℕ)
length_loop strings false [] args count n = some (count, n)
length_loop strings false (c ∷ cs) args count n = length_loop strings (c == 37) cs args count n
length_loop strings true [] args count n = none
length_loop strings true (c ∷ cs) args count n = elim (c == 37) [
  | true ↦ length_loop strings false cs args count n
  | false ↦ elim (next_arg args) [
    | none ↦ none
    | some p ↦
        length_loop strings false cs p.1 ((count + 1) % 2 ^ 32)
          (arg_length strings (skip_digits (skip_minus (c ∷ cs))) p.0 n)
  ]
]

abbrev pub base_trace_get_length : (ℕ → List ℕ) → List ℕ → List ℕ → Option (ℕ × ℕ)
base_trace_get_length strings format args = length_loop strings false format args 0 0

-- A digit, with the letters from `ten` on.
abbrev pub digit : ℕ → ℕ → ℕ
digit ten d = if ltb d 10 then 48 + d else ten + d - 10

-- A number in a base, of `fuel` digits at most: 10 are enough for 32 bits in base 10, 8 in base 16.
unfoldable pub numeral : (base ten fuel n : ℕ) → List ℕ
numeral base ten zero n = []
numeral base ten (suc fuel) n =
    let rest = numeral base ten fuel (n / base) in
    if ltb n base then digit ten n ∷ [] else rest ++ digit ten (n % base) ∷ []

-- `%d` of a word of 32 bits
unfoldable pub signed : ℕ → List ℕ
signed w = if ltb w (2 ^ 31) then numeral 10 97 10 w else 45 ∷ numeral 10 97 10 (2 ^ 32 - w)

-- The text of one argument. The standard gives `%s` of NULL no meaning; other conversions, flags
-- and widths are not read.
unfoldable pub put_arg : (ℕ → List ℕ) → ℕ → ℕ → Option (List ℕ)
put_arg strings c a =
    if c == 100
    then some (signed (a % 2 ^ 32))
    else if c == 117
    then some (numeral 10 97 10 (a % 2 ^ 32))
    else if c == 120
    then some (numeral 16 97 8 (a % 2 ^ 32))
    else if c == 88
    then some (numeral 16 65 8 (a % 2 ^ 32))
    else if c == 99
    then some ((a % 256) ∷ [])
    else if (c == 115) && not (a == 0)
    then some (strings a)
    else none

unfoldable pub prepend : List ℕ → Option (List ℕ) → Option (List ℕ)
prepend xs none = none
prepend xs (some t) = some (xs ++ t)

-- `vsprintf` of the formats with those conversions, after a `%` if the flag is set.
unfoldable pub vsprintf : (ℕ → List ℕ) → Bool → List ℕ → List ℕ → Option (List ℕ)
vsprintf strings false [] args = some []
vsprintf strings false (c ∷ cs) args = elim (c == 37) [
  | true ↦ vsprintf strings true cs args
  | false ↦ prepend (c ∷ []) (vsprintf strings false cs args)
]
vsprintf strings true [] args = none
vsprintf strings true (c ∷ cs) args = elim (c == 37) [
  | true ↦ prepend (37 ∷ []) (vsprintf strings false cs args)
  | false ↦ elim (next_arg args) [
    | none ↦ none
    | some p ↦ elim (put_arg strings c p.0) [
      | none ↦ none
      | some t ↦ prepend t (vsprintf strings false cs p.1)
    ]
  ]
]

-- What is printed: an error with the length that is wrong, or the line.
pub data Line : Type 0 where
  name_error length_error : ℕ → Line
  put : List ℕ → Line

-- `"%s: "` of the name, if there is one.
unfoldable pub prefix : List ℕ → List ℕ
prefix [] = []
prefix (c ∷ cs) = (c ∷ cs) ++ 58 ∷ 32 ∷ []

-- `base_trace_print` from the name in `gbasetracebuffer` on, for a line that is printed.
unfoldable pub compose_line : (ℕ → List ℕ) → List ℕ → List ℕ → List ℕ → Option Line
compose_line strings name format args = elim (base_trace_get_length strings format args) [
  | none ↦ none
  | some r ↦
      let total = ((r.1 + length (prefix name)) % 2 ^ 32 + length format) % 2 ^ 32 in
      if leb 50 (length name)
      then some (name_error (length name))
      else if leb 256 total
      then some (length_error total)
      else elim (prepend (prefix name) (vsprintf strings false format args)) [
        | none ↦ none
        | some t ↦ some (put t)
      ]
]
