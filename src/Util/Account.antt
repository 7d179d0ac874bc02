-- ===== src/Util/Account.antt =====
-- `account_encode`, `number`, `balance_to_dec` and `pub_to_account` of src/util/nanoutil.cpp. The
-- fixed-width integers of boost are numbers with their modulus written out; `blake2b` is a
-- parameter, a function from the length of the digest and the data to the digest.
pub mod Decode
use mathlib.Core.List.{reverse}
use nanocap.Prelude.{
  ℕ, zero, suc, ◌+◌, ◌*◌, ◌/◌, ◌%◌, ◌^◌, List, [], ◌∷◌, ◌++◌, Option, some, none, take, get_elem?,
}
use nanocap.Stream.{Bytes, le_value}
use nanocap.Util.Text.{codes, to_string}

abbrev pub account_lookup : Bytes
account_lookup = codes "13456789abcdefghijkmnopqrstuwxyz"

abbrev pub or_zero : Option ℕ → ℕ
or_zero none = 0
or_zero (some c) = c

-- The source asserts that the value is below 32.
unfoldable pub account_encode : ℕ → ℕ
account_encode value = or_zero (get_elem? account_lookup value)

-- The first shift is by 0 and each later one by 8; the accumulator has 256 bits.
unfoldable pub number_from : ℕ → Bytes → ℕ
number_from acc [] = acc
number_from acc (b ∷ bs) = number_from ((acc * 256 + b) % 2 ^ 256) bs

unfoldable pub number : Bytes → ℕ
unfolding number_from
number bs = number_from 0 bs

-- The first sixteen bytes, the most significant first.
unfoldable pub balance_to_dec : Bytes → Bytes
unfolding number_from
balance_to_dec balance = to_string (number_from 0 (take 16 balance) % 2 ^ 128)

-- `n` rounds that take the lowest five bits each.
unfoldable pub encode_rounds : ℕ → ℕ → Bytes
unfolding account_encode
encode_rounds zero number_l = []
encode_rounds (suc n) number_l = account_encode (number_l % 32) ∷ encode_rounds n (number_l / 32)

module _ (blake2b : ℕ → List Bytes → Bytes) where
  -- The five bytes of the checksum, below 2 ^ 40, are written over a zeroed little-endian word.
  unfoldable pub account_check : Bytes → ℕ
  unfolding le_value
  account_check public_bytes = le_value (blake2b 5 (public_bytes ∷ []))

  -- The lower 40 bits of the shifted number are zero, so that `|=` adds the checksum.
  unfoldable pub pub_to_account : Bytes → Bytes
  unfolding account_check number encode_rounds
  pub_to_account public_bytes = reverse (
      encode_rounds 60 ((number public_bytes * 2 ^ 40) % 2 ^ 512 + account_check public_bytes)
      ++ codes "_onan")
