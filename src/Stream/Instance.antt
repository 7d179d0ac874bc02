-- ===== src/Stream/Instance.antt =====
-- A stream over a list of bytes, which shows that the laws of the runtime can hold and on which
-- the readers run in tests.
use nanocap.Prelude.{
  ℕ, ◌+◌, ◌≡◌, refl, ◌≤◌, ◌<◌, leb, arith, length, take, drop, Parser, ok, throw, runtime_error,
  pure, raise, ◌>>=◌, if◌then◌else◌,
}
use nanocap.Stream.{KStream, Bytes, le_value, be_value, is_nil, eq_bytes}

pub record Cursor : Type 0 where
  pub left : Bytes
  pub position : ℕ

abbrev pub read_some : ℕ → Parser Cursor Bytes
read_some n c =
    if leb n (length c.left)
    then ok (take n c.left, record { left = drop n c.left; position = c.position + n })
    else throw runtime_error

pub read_some_enough :
    (n : ℕ) (c : Cursor)
    → n ≤ length c.left
    → (c' : Cursor) × (read_some n c ≡ ok (take n c.left, c'))
      × (c'.left ≡ drop n c.left)
      × (c'.position ≡ c.position + n)
read_some_enough n c h =
    (record { left = drop n c.left; position = c.position + n }, ground arith, refl, refl)

pub read_some_short : (n : ℕ) (c : Cursor) → length c.left < n → read_some n c ≡ throw runtime_error
read_some_short n c h = ground arith

abbrev pub byte_stream : KStream
byte_stream = record {
  Stream = Cursor;
  open_stream = λ bs. record { left = bs; position = 0 };
  remaining = λ c. c.left;
  pos = λ c. c.position;
  is_eof = λ c. is_nil c.left;
  read_bytes = read_some;
  read_u1 = read_some 1 >>= λ b. pure (le_value b);
  read_u2le = read_some 2 >>= λ b. pure (le_value b);
  read_u4le = read_some 4 >>= λ b. pure (le_value b);
  read_u4be = read_some 4 >>= λ b. pure (be_value b);
  read_u8le = read_some 8 >>= λ b. pure (le_value b);
  read_u8be = read_some 8 >>= λ b. pure (be_value b);
  ensure_fixed_contents =
      λ e. read_some (length e) >>= λ b. if eq_bytes b e then pure b else raise runtime_error;
  remaining-open_stream = λ bs. refl;
  pos-open_stream = λ bs. refl;
  is_eof_lem = λ c. refl;
  read_bytes_enough = read_some_enough;
  read_bytes_short = read_some_short;
  read_u1_lem = refl;
  read_u2le_lem = refl;
  read_u4le_lem = refl;
  read_u4be_lem = refl;
  read_u8le_lem = refl;
  read_u8be_lem = refl;
  ensure_fixed_contents_lem = λ e. refl;
}
