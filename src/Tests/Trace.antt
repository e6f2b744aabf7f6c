-- ===== src/Tests/Trace.antt =====
-- Lines of src/trace/base_trace.c on small inputs.
use basearch.Prelude.{
  ℕ, ◌+◌, ◌-◌, ◌*◌, ◌^◌, ◌<◌, ◌≡◌, refl, false, none, some, List, [], ◌∷◌, arith, length,
}
use basearch.Trace.Line.{
  next_arg, skip_minus, skip_digits, count_chars, arg_length, length_loop, base_trace_get_length,
  numeral, signed, put_arg, prepend, vsprintf, prefix, compose_line,
}
use basearch.Trace.Fits.{total, Fits, compose_line-Fits}

-- "disk" stands at every address.
abbrev disk : ℕ → List ℕ
disk a = 100 ∷ 105 ∷ 115 ∷ 107 ∷ []

-- "%s %d%%"
abbrev usage : List ℕ
usage = 37 ∷ 115 ∷ 32 ∷ 37 ∷ 100 ∷ 37 ∷ 37 ∷ []

-- "[OS]"
abbrev os : List ℕ
os = 91 ∷ 79 ∷ 83 ∷ 93 ∷ []

-- "disk -7%"
abbrev shown : List ℕ
shown = 100 ∷ 105 ∷ 115 ∷ 107 ∷ 32 ∷ 45 ∷ 55 ∷ 37 ∷ []

usage-shown : vsprintf disk false usage (8 ∷ (2 ^ 32 - 7) ∷ []) ≡ some shown
unfolding vsprintf next_arg put_arg prepend signed numeral
usage-shown = refl

usage-length : base_trace_get_length disk usage (8 ∷ (2 ^ 32 - 7) ∷ []) ≡ some (2, 23)
unfolding length_loop next_arg skip_minus skip_digits arg_length count_chars
usage-length = refl

-- A width is passed over and not counted: "%300d".
width-length : base_trace_get_length disk (37 ∷ 51 ∷ 48 ∷ 48 ∷ 100 ∷ []) (7 ∷ []) ≡ some (1, 19)
unfolding length_loop next_arg skip_minus skip_digits arg_length
width-length = refl

-- A format that ends in "%" is read past its end.
ends_in_percent : base_trace_get_length disk (37 ∷ []) (7 ∷ []) ≡ none
unfolding length_loop
ends_in_percent = refl

-- All digits of the largest word.
largest : numeral 10 97 10 (2 ^ 32 - 1) ≡ (52 ∷ 50 ∷ 57 ∷ 52 ∷ 57 ∷ 54 ∷ 55 ∷ 50 ∷ 57 ∷ 53 ∷ [])
unfolding numeral
largest = refl

room_small : length (prefix os) + 20 * length usage + total disk (8 ∷ (2 ^ 32 - 7) ∷ []) < 2 ^ 32
unfolding prefix total
room_small = omega arith

compose_line-Fits_example :
    Fits
      (length (prefix os) + 20 * length usage + total disk (8 ∷ (2 ^ 32 - 7) ∷ []))
      os
      shown
      (compose_line disk os usage (8 ∷ (2 ^ 32 - 7) ∷ []))
compose_line-Fits_example =
    compose_line-Fits disk os usage (8 ∷ (2 ^ 32 - 7) ∷ []) shown usage-shown room_small
