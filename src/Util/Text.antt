-- ===== src/Util/Text.antt =====
-- `to_hex` of src/util/hex.hpp, and the texts of the source as lists of character codes.
pub mod Hex
use Prim.Native.Char.{code}
use nanocap.Prelude.{ℕ, zero, suc, ◌+◌, ◌/◌, ◌%◌, String, [], ◌∷◌, ◌++◌, ltb, if◌then◌else◌}
use nanocap.Stream.{Bytes}

abbrev pub codes : String → Bytes
codes String.[] = []
codes (String.◌∷◌ c s) = code c ∷ codes s

-- A digit as `std::hex` with `std::uppercase` prints it.
unfoldable pub hex_digit : ℕ → ℕ
hex_digit n = if ltb n 10 then 48 + n else 55 + n

unfoldable pub to_hex : Bytes → Bytes
unfolding hex_digit
to_hex [] = []
to_hex (b ∷ bs) = hex_digit (b % 256 / 16) ∷ hex_digit (b % 16) ∷ to_hex bs

-- The decimal digits of a number, as `std::to_string` and `operator<<` print it.
unfoldable pub decimal_digits : ℕ → ℕ → Bytes
decimal_digits zero n = []
decimal_digits (suc fuel) n =
    let rest = decimal_digits fuel (n / 10) in
    if ltb n 10 then (48 + n) ∷ [] else rest ++ (48 + n % 10) ∷ []

unfoldable pub to_string : ℕ → Bytes
unfolding decimal_digits
to_string n = decimal_digits (suc n) n
