-- ===== src/Prelude/Bytes.antt =====
-- C's byte buffers: `memcmp`, `memcpy` and `memset` on lists of bytes.
use Prim.Native.Nat.{ℕ, zero, suc, ◌+◌, ◌≤◌}
use mathlib.Core.Path.{◌≡◌, refl, ap}
use mathlib.Core.Bool.{Bool, true, false, ◌&&◌}
use mathlib.Core.List.{List, [], ◌∷◌}
use native.Mathlib.Omega.{arith}
use basearch.Prelude.Tests.{◌==◌}
use basearch.Prelude.Lists.{length, take}

-- `memcmp (a, b, n) == 0`. A buffer that ends before the `n` bytes compares as different.
unfoldable pub memcmp_eq : ℕ → List ℕ → List ℕ → Bool
memcmp_eq zero a b = true
memcmp_eq (suc n) (x ∷ a) (y ∷ b) = (x == y) && memcmp_eq n a b
memcmp_eq (suc n) _ _ = false

-- `n` bytes from offset `o` on.
unfoldable pub read_bytes : List ℕ → ℕ → ℕ → List ℕ
read_bytes m zero n = take n m
read_bytes [] (suc o) n = []
read_bytes (x ∷ m) (suc o) n = read_bytes m o n

-- The bytes `bs` put over those from offset `o` on. What falls outside the buffer is lost.
unfoldable pub write_bytes : List ℕ → ℕ → List ℕ → List ℕ
write_bytes [] o bs = []
write_bytes (x ∷ m) zero [] = x ∷ m
write_bytes (x ∷ m) zero (b ∷ bs) = b ∷ write_bytes m zero bs
write_bytes (x ∷ m) (suc o) bs = x ∷ write_bytes m o bs

pub memcmp_eq_refl : (n : ℕ) (a : List ℕ) → n ≤ length a → memcmp_eq n a a ≡ true
unfolding memcmp_eq
memcmp_eq_refl zero a h = refl
memcmp_eq_refl (suc n) [] h = absurd (omega arith)
memcmp_eq_refl (suc n) (x ∷ a) h = ground (arith, memcmp_eq_refl n a)

-- On buffers of `n` bytes the comparison decides equality.
pub memcmp_eq→eq :
    (n : ℕ) (a b : List ℕ) → length a ≡ n → length b ≡ n → memcmp_eq n a b ≡ true → a ≡ b
unfolding memcmp_eq
memcmp_eq→eq zero [] [] p q h = refl
memcmp_eq→eq zero (x ∷ a) b p q h = absurd (omega arith)
memcmp_eq→eq zero [] (y ∷ b) p q h = absurd (omega arith)
memcmp_eq→eq (suc n) [] b p q h = absurd (omega arith)
memcmp_eq→eq (suc n) (x ∷ a) [] p q h = absurd (omega arith)
memcmp_eq→eq (suc n) (x ∷ a) (y ∷ b) p q h = ground (arith, memcmp_eq→eq n a b)

pub length-write_bytes : (m : List ℕ) (o : ℕ) (bs : List ℕ) → length (write_bytes m o bs) ≡ length m
unfolding write_bytes
length-write_bytes [] o bs = refl
length-write_bytes (x ∷ m) zero [] = refl
length-write_bytes (x ∷ m) zero (b ∷ bs) = ap suc (length-write_bytes m zero bs)
length-write_bytes (x ∷ m) (suc o) bs = ap suc (length-write_bytes m o bs)

pub read_bytes-write_same :
    (m : List ℕ) (o : ℕ) (bs : List ℕ)
    → o + length bs ≤ length m
    → read_bytes (write_bytes m o bs) o (length bs) ≡ bs
unfolding read_bytes write_bytes
read_bytes-write_same [] zero [] h = refl
read_bytes-write_same [] zero (b ∷ bs) h = absurd (omega arith)
read_bytes-write_same [] (suc o) bs h = absurd (omega arith)
read_bytes-write_same (x ∷ m) zero [] h = refl
read_bytes-write_same (x ∷ m) zero (b ∷ bs) h =
    ap (λ t. b ∷ t) (read_bytes-write_same m zero bs (omega arith))
read_bytes-write_same (x ∷ m) (suc o) bs h = read_bytes-write_same m o bs (omega arith)

-- A read that ends before the write, or starts behind it, does not see it.
pub read_bytes-write_before :
    (m : List ℕ) (o : ℕ) (bs : List ℕ) (p n : ℕ)
    → p + n ≤ o
    → read_bytes (write_bytes m o bs) p n ≡ read_bytes m p n
unfolding read_bytes write_bytes
read_bytes-write_before [] o bs p n h = refl
read_bytes-write_before (x ∷ m) zero bs zero zero h = refl
read_bytes-write_before (x ∷ m) zero bs zero (suc n) h = absurd (omega arith)
read_bytes-write_before (x ∷ m) zero bs (suc p) n h = absurd (omega arith)
read_bytes-write_before (x ∷ m) (suc o) bs zero zero h = refl
read_bytes-write_before (x ∷ m) (suc o) bs zero (suc n) h =
    ap (λ t. x ∷ t) (read_bytes-write_before m o bs zero n (omega arith))
read_bytes-write_before (x ∷ m) (suc o) bs (suc p) n h =
    read_bytes-write_before m o bs p n (omega arith)

pub read_bytes-write_after :
    (m : List ℕ) (o : ℕ) (bs : List ℕ) (p n : ℕ)
    → o + length bs ≤ p
    → read_bytes (write_bytes m o bs) p n ≡ read_bytes m p n
unfolding read_bytes write_bytes
read_bytes-write_after [] o bs p n h = refl
read_bytes-write_after (x ∷ m) zero [] p n h = refl
read_bytes-write_after (x ∷ m) zero (b ∷ bs) zero n h = absurd (omega arith)
read_bytes-write_after (x ∷ m) zero (b ∷ bs) (suc p) n h =
    read_bytes-write_after m zero bs p n (omega arith)
read_bytes-write_after (x ∷ m) (suc o) bs zero n h = absurd (omega arith)
read_bytes-write_after (x ∷ m) (suc o) bs (suc p) n h =
    read_bytes-write_after m o bs p n (omega arith)

pub length-read_bytes : (m : List ℕ) (o n : ℕ) → o + n ≤ length m → length (read_bytes m o n) ≡ n
unfolding read_bytes
length-read_bytes m zero zero h = refl
length-read_bytes [] zero (suc n) h = absurd (omega arith)
length-read_bytes (x ∷ m) zero (suc n) h = ap suc (length-read_bytes m zero n (omega arith))
length-read_bytes [] (suc o) n h = absurd (omega arith)
length-read_bytes (x ∷ m) (suc o) n h = length-read_bytes m o n (omega arith)
