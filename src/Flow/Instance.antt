-- ===== src/Flow/Instance.antt =====
-- A circular buffer over a list of bytes, which shows that the laws of the library can hold.
use nanocap.Prelude.{◌-◌, ◌≤◌, refl, arith, [], ◌∷◌, ◌++◌, length, length-drop, drop}
use nanocap.Stream.{Bytes}
use nanocap.Flow.{CircularBuffer, capacity, newest}
use nanocap.Flow.Buffer.{newest-small}

pub length-newest : (xs : Bytes) → length (newest xs) ≤ capacity
length-newest xs = omega (arith, length-drop (length xs - capacity) xs)

-- The bytes that were pushed, of which the newest ones count.
abbrev pub byte_buffer : CircularBuffer
byte_buffer = record {
  Buffer = Bytes;
  fresh = [];
  contents = newest;
  push_back = λ x b. newest b ++ x ∷ [];
  clear = λ b. [];
  erase_begin = λ n b. drop n (newest b);
  view_after_erase = λ n b. newest b;
  contents-fresh = refl;
  contents-push_back = λ x b. refl;
  contents-clear = λ b. refl;
  contents-erase_begin = λ n b h.
      newest-small (drop n (newest b)) (omega (arith, length-drop n (newest b), length-newest b));
  contents_le = length-newest;
  length-view_after_erase = λ n b. refl;
}
