-- ===== src/Trace/Fits.antt =====
-- The length that src/trace/base_trace.c counts for a line, against the line that it prints.
use basearch.Prelude.{
  ℕ, ◌+◌, ◌*◌, ◌%◌, ◌^◌, ◌≤◌, ◌<◌, ◌≡◌, refl, ap, sym, ◌∙◌, inl, inr, Bool, true, false, Option,
  none, some, List, [], ◌∷◌, ◌++◌, arith, length, length-append, leb, ◌==◌, if◌then◌else◌,
  Bool-cases, Option-cases,
}
use basearch.Trace.Line.{
  next_arg, skip_minus, skip_digits, arg_length, length_loop, put_arg, prepend, vsprintf, Line,
  name_error, length_error, put, prefix, compose_line,
}
use basearch.Trace.Args.{put_arg_lem, count_bound}

-- The lengths of the strings that the arguments point to.
unfoldable pub total : (ℕ → List ℕ) → List ℕ → ℕ
total strings [] = 0
total strings (a ∷ args) = length (strings a) + total strings args

prepend-some :
    (xs : List ℕ) (o : Option (List ℕ)) (t : List ℕ)
    → prepend xs o ≡ some t
    → (u : List ℕ) × (o ≡ some u) × (length t ≡ length xs + length u)
unfolding prepend
prepend-some xs none t e = absurd (cc)
prepend-some xs (some u) t e = (u, refl, ap length (sym (some_inj e)) ∙ length-append xs u)
  where
    some_inj : some (xs ++ u) ≡ some t → (xs ++ u) ≡ t
    some_inj q = cc

-- What the loop over a format counts for a text that is printed.
Covers : (ℕ → List ℕ) → Bool → List ℕ → List ℕ → ℕ → ℕ → List ℕ → Type 0
Covers strings b format args count n text =
    (k e : ℕ) × (length_loop strings b format args count n ≡ some (k, (n + e) % 2 ^ 32))
    × (length text ≤ e + length format)
    × (e ≤ 19 * length format + total strings args)

-- One step of the loops: a character after another, or after a `%`.
module _ (strings : ℕ → List ℕ) (c : ℕ) (cs args : List ℕ) where
  loop_plain :
      (b : Bool) (count n : ℕ)
      → (c == 37) ≡ b
      → length_loop strings false (c ∷ cs) args count n ≡ length_loop strings b cs args count n
  unfolding length_loop
  loop_plain b count n h = rw (length_loop, h) refl

  loop_escape :
      (count n : ℕ)
      → (c == 37) ≡ true
      → length_loop strings true (c ∷ cs) args count n ≡ length_loop strings false cs args count n
  unfolding length_loop
  loop_escape count n h = rw (length_loop, h) refl

  printed_percent :
      (c == 37) ≡ true → vsprintf strings false (c ∷ cs) args ≡ vsprintf strings true cs args
  unfolding vsprintf
  printed_percent h = rw (vsprintf, h) refl

  printed_plain :
      (c == 37) ≡ false
      → vsprintf strings false (c ∷ cs) args ≡ prepend (c ∷ []) (vsprintf strings false cs args)
  unfolding vsprintf
  printed_plain h = rw (vsprintf, h) refl

  printed_escape :
      (c == 37) ≡ true
      → vsprintf strings true (c ∷ cs) args ≡ prepend (37 ∷ []) (vsprintf strings false cs args)
  unfolding vsprintf
  printed_escape h = rw (vsprintf, h) refl

-- Characters and `%%` are printed as they are counted, one for one or two of the format.
covers_more :
    (strings : ℕ → List ℕ) (b b' : Bool) (c : ℕ) (cs args : List ℕ) (count n : ℕ) (u text : List ℕ)
    → length_loop strings b (c ∷ cs) args count n ≡ length_loop strings b' cs args count n
    → Covers strings b' cs args count n u
    → length text ≤ 1 + length u
    → Covers strings b (c ∷ cs) args count n text
unfolding Covers
covers_more strings b b' c cs args count n u text q (k, e, l, t, r) le =
    (k, e, q ∙ l, omega arith, omega arith)

ended :
    (strings : ℕ → List ℕ) (args : List ℕ) (count n : ℕ) (text : List ℕ)
    → n < 2 ^ 32
    → vsprintf strings false [] args ≡ some text
    → Covers strings false [] args count n text
unfolding Covers length_loop vsprintf
ended strings args count n text lt e =
    let m : n ≡ (n + 0) % 2 ^ 32 = omega arith in
    (count, 0, ap (λ k. some (count, k)) m, empty text e, omega arith)
  where
    empty : (t : List ℕ) → ◌≡◌ {A = Option (List ℕ)} (some []) (some t) → length t ≤ 0 + 0
    empty [] q = omega arith
    empty (x ∷ t) q = absurd (cc)

none_not_some : {t : List ℕ} → ◌≡◌ {A = Option (List ℕ)} none (some t) → ⊥
none_not_some q = cc

conversion :
    (strings : ℕ → List ℕ) (c : ℕ) (cs args text : List ℕ)
    → (c == 37) ≡ false
    → vsprintf strings true (c ∷ cs) args ≡ some text
    → (a : ℕ) × (rest t u : List ℕ) × (args ≡ (a ∷ rest))
      × (put_arg strings c a ≡ some t)
      × (vsprintf strings false cs rest ≡ some u)
      × (length text ≡ length t + length u)
unfolding vsprintf next_arg
conversion strings c cs [] text h e = absurd (none_not_some (sym (rw (vsprintf, h) refl) ∙ e))
conversion strings c cs (a ∷ args) text h e = elim (Option-cases (put_arg strings c a)) [
  | inl p ↦ absurd (none_not_some (sym (refused p) ∙ e))
  | inr (t, p) ↦
      let (u, q, l) = prepend-some t _ text (sym (given t p) ∙ e) in (a, args, t, u, refl, p, q, l)
]
  where
    refused : put_arg strings c a ≡ none → vsprintf strings true (c ∷ cs) (a ∷ args) ≡ none
    refused p = rw (vsprintf, h, p) refl

    given :
        (t : List ℕ)
        → put_arg strings c a ≡ some t
        → vsprintf strings true (c ∷ cs) (a ∷ args) ≡ prepend t (vsprintf strings false cs args)
    given t p = rw (vsprintf, h, p) refl

taken :
    (strings : ℕ → List ℕ) (c a : ℕ) (cs args rest : List ℕ) (count n : ℕ) (t u text : List ℕ)
    → args ≡ (a ∷ rest)
    → (c == 37) ≡ false
    → n < 2 ^ 32
    → put_arg strings c a ≡ some t
    → Covers strings false cs rest
        ((count + 1) % 2 ^ 32)
        (arg_length strings (skip_digits (skip_minus (c ∷ cs))) a n)
        u
    → length text ≡ length t + length u
    → Covers strings true (c ∷ cs) args count n text
unfolding Covers length_loop next_arg total
taken strings c a cs args rest count n t u text more h lt p (k, e, l, le, r) s =
    let (e', m, le', r') = put_arg_lem strings c a n cs t lt p in
    let w : (((n + e') % 2 ^ 32) + e) % 2 ^ 32 ≡ (n + (e' + e)) % 2 ^ 32 = omega arith in
    rw more (
      k,
      e' + e,
      rw (length_loop, h) (l ∙ ap (λ x. some (k, x)) (ap (λ x. (x + e) % 2 ^ 32) m ∙ w)),
      omega arith,
      omega arith,
    )

length_loop-Covers :
    (strings : ℕ → List ℕ) (b : Bool) (format args : List ℕ) (count n : ℕ) (text : List ℕ)
    → n < 2 ^ 32
    → vsprintf strings b format args ≡ some text
    → Covers strings b format args count n text
unfolding length_loop vsprintf
length_loop-Covers strings false [] args count n text lt e = ended strings args count n text lt e
length_loop-Covers strings false (c ∷ cs) args count n text lt e = elim (Bool-cases (c == 37)) [
  | inl h ↦
      covers_more strings false true c cs args count n text text
        (loop_plain strings c cs args true count n h)
        (length_loop-Covers strings true cs args count n text lt
          (sym (printed_percent strings c cs args h) ∙ e))
        (omega arith)
  | inr h ↦
      let (u, q, l) = prepend-some (c ∷ []) _ text (sym (printed_plain strings c cs args h) ∙ e) in
      covers_more strings false false c cs args count n u text
        (loop_plain strings c cs args false count n h)
        (length_loop-Covers strings false cs args count n u lt q) (omega arith)
]
length_loop-Covers strings true [] args count n text lt e = absurd (cc)
length_loop-Covers strings true (c ∷ cs) args count n text lt e = elim (Bool-cases (c == 37)) [
  | inl h ↦
      let (u, q, l) =
        prepend-some (37 ∷ []) _ text (sym (printed_escape strings c cs args h) ∙ e) in
      covers_more strings true false c cs args count n u text
        (loop_escape strings c cs args count n h)
        (length_loop-Covers strings false cs args count n u lt q) (omega arith)
  | inr h ↦
      let (a, rest, t, u, more, p, q, l) = conversion strings c cs args text h e in
      taken strings c a cs args rest count n t u text more h lt p
        (length_loop-Covers strings false cs rest _ _ u (count_bound strings c a n cs t lt p) q) l
]

-- What is printed of a text behind a name: the line, in a buffer of 256 bytes with its NUL, or an
-- error, of which the length's is for a line whose text and name may need more than `room`.
pub Fits : ℕ → List ℕ → List ℕ → Option Line → Type 0
Fits room name text none = ⊥
Fits room name text (some (name_error n)) = (n ≡ length name) × (50 ≤ n)
Fits room name text (some (length_error n)) = (length name < 50) × (256 ≤ n) × (n ≤ room)
Fits room name text (some (put line)) =
    (line ≡ (prefix name ++ text)) × (length name < 50) × (length line < 256)

-- The two checks of the length, for a text of a length below what was counted.
checked :
    (room n f : ℕ) (name text : List ℕ)
    → n + length (prefix name) + f ≤ room
    → room < 2 ^ 32
    → length text ≤ n + f
    → Fits room name text (
        let all = ((n + length (prefix name)) % 2 ^ 32 + f) % 2 ^ 32 in
        if leb 50 (length name)
        then some (name_error (length name))
        else if leb 256 all
        then some (length_error all)
        else some (put (prefix name ++ text)))
unfolding Fits
checked room n f name text le small covered =
    let a = length-append (prefix name) text in
    let w : ((n + length (prefix name)) % 2 ^ 32 + f) % 2 ^ 32 ≡ n + length (prefix name) + f =
      omega arith in
    ground arith

-- A line that is printed with the conversions d, u, x, X, c and s without flags and widths, behind
-- a name, in less than 2^32 characters in all, at 20 for each of the format: `base_trace_print`
-- refuses a name of 50 characters or more, and a line for which it counts 256 or more, which is at
-- most that sum; it prints any other as `vsprintf` has it, and its buffer of 256 bytes holds it.
pub compose_line-Fits :
    (strings : ℕ → List ℕ) (name format args text : List ℕ)
    → vsprintf strings false format args ≡ some text
    → length (prefix name) + 20 * length format + total strings args < 2 ^ 32
    → Fits
        (length (prefix name) + 20 * length format + total strings args)
        name
        text
        (compose_line strings name format args)
unfolding compose_line Covers prepend
compose_line-Fits strings name format args text e small =
    let (k, n, l, le, r) = length_loop-Covers strings false format args 0 0 text (omega arith) e in
    let w : (0 + n) % 2 ^ 32 ≡ n = omega arith in
    rw (compose_line, l, e, w)
      (checked _ n (length format) name text (omega arith) small (omega arith))
