-- ===== src/Queue/Fifo.antt =====
-- What a message queue promises: a bounded first-in first-out list of messages of one size.
use basearch.Prelude.{
  ℕ, Option, none, some, List, [], ◌∷◌, ◌++◌, if◌then◌else◌, ◌==◌, length, read_bytes,
}
use basearch.Registry.{Status, success, failure}

-- At most `cap` messages, of `len` bytes each.
unfoldable pub fifo_send : ℕ → ℕ → List ℕ → List (List ℕ) → Status × List (List ℕ)
fifo_send cap len msg ms =
    if length ms == cap then (failure, ms) else (success, ms ++ (read_bytes msg 0 len ∷ []))

unfoldable pub fifo_receive : List (List ℕ) → Option (List ℕ × List (List ℕ))
fifo_receive [] = none
fifo_receive (m ∷ ms) = some (m, ms)
