-- ===== src/Name.antt =====
-- The name buffers of src/linux: the loops by which the calls of base_task.c, base_sem.c and
-- base_event.c copy a caller's string into a zeroed buffer.
pub mod Long
use basearch.Prelude.{
  ℕ, zero, suc, ◌≡◌, ◌∙◌, ◌≢◌, false, List, [], ◌∷◌, if◌then◌else◌, ◌==◌, eq_false_of_ne, length,
  length-replicate, length-write_bytes, replicate, write_bytes,
}
use basearch.Registry.Table.{osix_name_len, name_size, is_empty_name}
use basearch.Registry.Add.{IsName}

-- The characters that a loop over `limit` of them copies; it stops at the NUL. A string that ends
-- without one counts as ended there.
unfoldable pub chars_of : ℕ → List ℕ → List ℕ
chars_of zero s = []
chars_of (suc limit) [] = []
chars_of (suc limit) (c ∷ s) = let rest = chars_of limit s in if c == 0 then [] else c ∷ rest

-- `memset` of a buffer of `size` bytes, and the loop over `limit` characters.
unfoldable pub fill_name : ℕ → ℕ → List ℕ → List ℕ
fill_name size limit s = write_bytes (replicate size 0) 0 (chars_of limit s)

-- `au1Name` of most calls: the first OSIX_NAME_LEN characters.
abbrev pub short_name : List ℕ → List ℕ
short_name s = fill_name name_size osix_name_len s

pub length-fill_name : (size limit : ℕ) (s : List ℕ) → length (fill_name size limit s) ≡ size
unfolding fill_name
length-fill_name size limit s =
    length-write_bytes (replicate size 0) 0 (chars_of limit s) ∙ length-replicate size 0

short_name-full : (c : ℕ) (s : List ℕ) → c ≢ 0 → is_empty_name (short_name (c ∷ s)) ≡ false
unfolding is_empty_name fill_name chars_of write_bytes replicate
short_name-full c s ne = let q : (c == 0) ≡ false = eq_false_of_ne _ _ ne in rw (q, q)

-- A string that does not begin with NUL gives a name that the registry accepts.
pub short_name-IsName : (c : ℕ) (s : List ℕ) → c ≢ 0 → IsName (short_name (c ∷ s))
short_name-IsName c s ne = record {
  size = length-fill_name name_size osix_name_len (c ∷ s);
  full = short_name-full c s ne;
}
