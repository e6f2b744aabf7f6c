-- ===== src/Mem/Bytes.antt =====
-- `base_mem_set`, `base_mem_cpy` and the two readings of the counters (src/linux/base_mem.c). The
-- memory is a list of bytes, and a pointer into it an offset; NULL is `none`.
use basearch.Prelude.{
  ℕ, zero, suc, ◌+◌, ◌%◌, ◌≡◌, false, Option, none, some, List, [], ◌∷◌, if◌then◌else◌, ◌==◌,
  read_bytes, write_bytes, replicate, refl, ap, ap₂, sym, ◌∙◌, arith, ◌<◌, eq_false_of_ne,
}
use basearch.Mem.{Mem}

unfoldable pub base_mem_freesize_get : Mem → ℕ
base_mem_freesize_get m = m.free_bytes

unfoldable pub base_mem_minusedsize_get : Mem → ℕ
base_mem_minusedsize_get m = m.min_free_bytes

-- `while (u4Size--) *pDestStart++ = i4Value;`
unfoldable pub set_loop : ℕ → ℕ → ℕ → List ℕ → ℕ × List ℕ
set_loop zero value p bytes = (p, bytes)
set_loop (suc n) value p bytes = set_loop n value (p + 1) (write_bytes bytes p ((value % 256) ∷ []))

-- The pointer that is returned is the one that the loop has moved.
unfoldable pub base_mem_set : Option ℕ → ℕ → ℕ → List ℕ → Option ℕ × List ℕ
base_mem_set none value size bytes = (none, bytes)
base_mem_set (some dest) value size bytes =
    if size == 0
    then (none, bytes)
    else let (p, bytes') = set_loop size value dest bytes in (some p, bytes')

-- `while (u4Size-- > 0) *pDstTemp++ = *pSrcTemp++;`
unfoldable pub cpy_loop : ℕ → ℕ → ℕ → List ℕ → List ℕ
cpy_loop zero dest src bytes = bytes
cpy_loop (suc n) dest src bytes =
    cpy_loop n (dest + 1) (src + 1) (write_bytes bytes dest (read_bytes bytes src 1))

unfoldable pub base_mem_cpy : Option ℕ → Option ℕ → ℕ → List ℕ → Option ℕ × List ℕ
base_mem_cpy none src size bytes = (none, bytes)
base_mem_cpy (some dest) none size bytes = (none, bytes)
base_mem_cpy (some dest) (some src) size bytes =
    if size == 0 then (none, bytes) else (some dest, cpy_loop size dest src bytes)

write_bytes-nil : (m : List ℕ) (p : ℕ) → write_bytes m p [] ≡ m
unfolding write_bytes
write_bytes-nil [] p = refl
write_bytes-nil (x ∷ m) zero = refl
write_bytes-nil (x ∷ m) (suc p) = ap (λ l. x ∷ l) (write_bytes-nil m p)

write_bytes-cons :
    (m : List ℕ) (p x : ℕ) (xs : List ℕ)
    → write_bytes (write_bytes m p (x ∷ [])) (suc p) xs ≡ write_bytes m p (x ∷ xs)
unfolding write_bytes
write_bytes-cons [] p x xs = refl
write_bytes-cons (y ∷ m) zero x xs = ap (λ l. x ∷ write_bytes l 0 xs) (write_bytes-nil m 0)
write_bytes-cons (y ∷ m) (suc p) x xs = ap (λ l. y ∷ l) (write_bytes-cons m p x xs)

set_loop-memset :
    (n value p : ℕ) (bytes : List ℕ)
    → set_loop n value p bytes ≡ (p + n, write_bytes bytes p (replicate n (value % 256)))
unfolding set_loop replicate
set_loop-memset zero value p bytes =
    ap₂ (λ q l. (q, l)) (omega arith) (sym (write_bytes-nil bytes p))
set_loop-memset (suc n) value p bytes =
    set_loop-memset n value (p + 1) (write_bytes bytes p ((value % 256) ∷ []))
    ∙ ap₂ (λ q l. (q, l)) (omega arith)
        (ap
            (λ q.
              write_bytes (write_bytes bytes p ((value % 256) ∷ [])) q (replicate n (value % 256)))
            (omega arith)
          ∙ write_bytes-cons bytes p (value % 256) (replicate n (value % 256)))

-- `base_mem_set` of some bytes from `dest` on does to the memory what `memset` does, but it returns
-- the pointer behind them, where `memset` returns `dest`.
pub set-memset :
    (dest value size : ℕ) (bytes : List ℕ)
    → 0 < size
    → base_mem_set (some dest) value size bytes
      ≡ (some (dest + size), write_bytes bytes dest (replicate size (value % 256)))
unfolding base_mem_set
set-memset dest value size bytes pos =
    let q : (size == 0) ≡ false = eq_false_of_ne _ _ (λ e. absurd (omega arith)) in
    rw (q, set_loop-memset size value dest bytes)
