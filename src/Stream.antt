-- ===== src/Stream.antt =====
-- The runtime of the generated parser (kaitai/kaitaistream.h), of which the program only makes
-- calls: the stream and its reads are parameters, with the laws that they are documented to have.
pub mod Takes
pub mod Decodes
pub mod Instance
pub mod Words
pub mod Repeat
pub mod Reads
pub mod Rounds
pub mod Quiet
use nanocap.Prelude.{
  ℕ, zero, suc, ◌+◌, ◌*◌, ◌/◌, ◌%◌, ◌^◌, ◌≤◌, ◌<◌, ◌≡◌, Bool, List, [], ◌∷◌, ◌++◌, length, take,
  drop, Parser, Outcome, ok, throw, runtime_error, pure, raise, ◌>>=◌, if◌then◌else◌, ◌==◌, ◌&&◌,
  true, false,
}
use mathlib.Core.List.{reverse}

abbrev pub Bytes : Type 0
Bytes = List ℕ

abbrev pub joined : List Bytes → Bytes
joined [] = []
joined (x ∷ xs) = x ++ joined xs

-- The number that bytes stand for, the least significant byte first.
unfoldable pub le_value : Bytes → ℕ
le_value [] = 0
le_value (b ∷ bs) = b + 256 * le_value bs

unfoldable pub be_value : Bytes → ℕ
unfolding le_value
be_value bs = le_value (reverse bs)

abbrev pub is_nil : Bytes → Bool
is_nil [] = true
is_nil (b ∷ bs) = false

unfoldable pub eq_bytes : Bytes → Bytes → Bool
eq_bytes [] [] = true
eq_bytes (a ∷ xs) (b ∷ ys) = a == b && eq_bytes xs ys
eq_bytes _ _ = false

-- `remaining s` are the bytes that are still to be read; the program itself never sees them.
pub record KStream : Type 1 where
  pub Stream : Type 0
  pub open_stream : Bytes → Stream
  pub remaining : Stream → Bytes
  pub pos : Stream → ℕ
  pub is_eof : Stream → Bool
  pub read_bytes : ℕ → Parser Stream Bytes
  pub read_u1 : Parser Stream ℕ
  pub read_u2le : Parser Stream ℕ
  pub read_u4le : Parser Stream ℕ
  pub read_u4be : Parser Stream ℕ
  pub read_u8le : Parser Stream ℕ
  pub read_u8be : Parser Stream ℕ
  pub ensure_fixed_contents : Bytes → Parser Stream Bytes
  pub remaining-open_stream : (bs : Bytes) → remaining (open_stream bs) ≡ bs
  pub pos-open_stream : (bs : Bytes) → pos (open_stream bs) ≡ 0
  pub is_eof_lem : (s : Stream) → is_eof s ≡ is_nil (remaining s)
  pub read_bytes_enough :
      (n : ℕ) (s : Stream)
      → n ≤ length (remaining s)
      → (s' : Stream) × (read_bytes n s ≡ ok (take n (remaining s), s'))
        × (remaining s' ≡ drop n (remaining s))
        × (pos s' ≡ pos s + n)
  pub read_bytes_short :
      (n : ℕ) (s : Stream) → length (remaining s) < n → read_bytes n s ≡ throw runtime_error
  pub read_u1_lem : read_u1 ≡ (read_bytes 1 >>= λ b. pure (le_value b))
  pub read_u2le_lem : read_u2le ≡ (read_bytes 2 >>= λ b. pure (le_value b))
  pub read_u4le_lem : read_u4le ≡ (read_bytes 4 >>= λ b. pure (le_value b))
  pub read_u4be_lem : read_u4be ≡ (read_bytes 4 >>= λ b. pure (be_value b))
  pub read_u8le_lem : read_u8le ≡ (read_bytes 8 >>= λ b. pure (le_value b))
  pub read_u8be_lem : read_u8be ≡ (read_bytes 8 >>= λ b. pure (be_value b))
  pub ensure_fixed_contents_lem :
      (e : Bytes)
      → ensure_fixed_contents e
        ≡ (read_bytes (length e) >>= λ b. if eq_bytes b e then pure b else raise runtime_error)
