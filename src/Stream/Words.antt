-- ===== src/Stream/Words.antt =====
-- The unsigned integers of the runtime: their sizes, and the bytes that they are read from.
use native.Mathlib.Nat.{pow-suc}
use mathlib.Core.List.{reverse, reverse-reverse, reverse-cons}
use nanocap.Prelude.{
  ℕ, zero, suc, ◌/◌, ◌%◌, ◌^◌, ◌<◌, ◌≡◌, refl, ◌∙◌, ap, subst, arith, length, length-append, [],
  ◌∷◌, append-nil, Parser, pure, ◌>>=◌,
}
use nanocap.Stream.{KStream, Bytes, le_value, be_value}
use nanocap.Stream.Takes.{Takes, read_bytes-Takes, bind-Takes, pure-Takes}
use nanocap.Stream.Decodes.{Decodes, read_bytes-Decodes, bind-Decodes, pure-Decodes}

-- The `w` bytes of a number, the least significant first.
unfoldable pub le_bytes : ℕ → ℕ → Bytes
le_bytes zero n = []
le_bytes (suc w) n = (n % 256) ∷ le_bytes w (n / 256)

unfoldable pub be_bytes : ℕ → ℕ → Bytes
unfolding le_bytes
be_bytes w n = reverse (le_bytes w n)

pub length-le_bytes : (w n : ℕ) → length (le_bytes w n) ≡ w
unfolding le_bytes
length-le_bytes zero n = refl
length-le_bytes (suc w) n = ap suc (length-le_bytes w (n / 256))

length-reverse : (xs : Bytes) → length (reverse xs) ≡ length xs
length-reverse [] = refl
length-reverse (x ∷ xs) =
    omega
      (arith, ap length (reverse-cons x xs), length-append (reverse xs) (x ∷ []), length-reverse xs)

pub length-be_bytes : (w n : ℕ) → length (be_bytes w n) ≡ w
unfolding be_bytes
length-be_bytes w n = length-reverse (le_bytes w n) ∙ length-le_bytes w n

pub le_value-le_bytes : (w n : ℕ) → n < 256 ^ w → le_value (le_bytes w n) ≡ n
unfolding le_value le_bytes
le_value-le_bytes zero n h = omega arith
le_value-le_bytes (suc w) n h =
    omega (arith, le_value-le_bytes w (n / 256) (omega (arith, pow-suc 256 w)))

pub be_value-be_bytes : (w n : ℕ) → n < 256 ^ w → be_value (be_bytes w n) ≡ n
unfolding be_value be_bytes
be_value-be_bytes w n h = ap le_value (reverse-reverse (le_bytes w n)) ∙ le_value-le_bytes w n h

module _ (k : KStream) where
  open k use {Stream, read_bytes}

  word-Takes :
      (w : ℕ) {p : Parser Stream ℕ} (value : Bytes → ℕ)
      → p ≡ (read_bytes w >>= λ b. pure (value b))
      → Takes k p w
  word-Takes w {p} value e = rw e (
      subst (Takes k _) (omega arith)
        (bind-Takes k (read_bytes-Takes k w) λ b. pure-Takes k (value b)))

  pub read_u1-Takes : Takes k k.read_u1 1
  read_u1-Takes = word-Takes 1 le_value k.read_u1_lem

  pub read_u2le-Takes : Takes k k.read_u2le 2
  read_u2le-Takes = word-Takes 2 le_value k.read_u2le_lem

  pub read_u4le-Takes : Takes k k.read_u4le 4
  read_u4le-Takes = word-Takes 4 le_value k.read_u4le_lem

  pub read_u4be-Takes : Takes k k.read_u4be 4
  read_u4be-Takes = word-Takes 4 be_value k.read_u4be_lem

  pub read_u8le-Takes : Takes k k.read_u8le 8
  read_u8le-Takes = word-Takes 8 le_value k.read_u8le_lem

  pub read_u8be-Takes : Takes k k.read_u8be 8
  read_u8be-Takes = word-Takes 8 be_value k.read_u8be_lem

  word-Decodes :
      (w : ℕ) {p : Parser Stream ℕ} (value : Bytes → ℕ) (n : ℕ) (bs : Bytes)
      → p ≡ (read_bytes w >>= λ b. pure (value b))
      → length bs ≡ w
      → value bs ≡ n
      → Decodes k p n bs
  word-Decodes w {p} value n bs e l v =
      rw (e, ← l, ← v)
        (subst (Decodes k _ _) (append-nil bs)
          (bind-Decodes k _ (read_bytes-Decodes k bs) (pure-Decodes k (value bs))))

  pub read_u1-Decodes : (n : ℕ) → n < 256 → Decodes k k.read_u1 n (le_bytes 1 n)
  read_u1-Decodes n h =
      word-Decodes 1 le_value n _ k.read_u1_lem (length-le_bytes 1 n) (le_value-le_bytes 1 n h)

  pub read_u2le-Decodes : (n : ℕ) → n < 2 ^ 16 → Decodes k k.read_u2le n (le_bytes 2 n)
  read_u2le-Decodes n h =
      word-Decodes 2 le_value n _ k.read_u2le_lem (length-le_bytes 2 n) (le_value-le_bytes 2 n h)

  pub read_u4le-Decodes : (n : ℕ) → n < 2 ^ 32 → Decodes k k.read_u4le n (le_bytes 4 n)
  read_u4le-Decodes n h =
      word-Decodes 4 le_value n _ k.read_u4le_lem (length-le_bytes 4 n) (le_value-le_bytes 4 n h)

  pub read_u4be-Decodes : (n : ℕ) → n < 2 ^ 32 → Decodes k k.read_u4be n (be_bytes 4 n)
  read_u4be-Decodes n h =
      word-Decodes 4 be_value n _ k.read_u4be_lem (length-be_bytes 4 n) (be_value-be_bytes 4 n h)

  pub read_u8le-Decodes : (n : ℕ) → n < 2 ^ 64 → Decodes k k.read_u8le n (le_bytes 8 n)
  read_u8le-Decodes n h =
      word-Decodes 8 le_value n _ k.read_u8le_lem (length-le_bytes 8 n) (le_value-le_bytes 8 n h)

  pub read_u8be-Decodes : (n : ℕ) → n < 2 ^ 64 → Decodes k k.read_u8be n (be_bytes 8 n)
  read_u8be-Decodes n h =
      word-Decodes 8 be_value n _ k.read_u8be_lem (length-be_bytes 8 n) (be_value-be_bytes 8 n h)
