-- ===== src/Util/Text/Hex.antt =====
-- Hexadecimal text stands for its bytes.
use nanocap.Prelude.{
  ℕ, ◌+◌, ◌-◌, ◌*◌, ◌/◌, ◌%◌, ◌<◌, ◌≡◌, refl, arith, Bool, true, [], ◌∷◌, All, ltb, ◌==◌,
  if◌then◌else◌, passes, passes-true,
}
use nanocap.Stream.{Bytes}
use nanocap.Util.Text.{hex_digit, to_hex}

-- The value of a digit, and the bytes that pairs of digits stand for.
abbrev pub digit_value : ℕ → ℕ
digit_value c = if ltb c 58 then c - 48 else c - 55

abbrev pub from_hex : Bytes → Bytes
from_hex [] = []
from_hex (c ∷ []) = []
from_hex (c ∷ (d ∷ cs)) = (16 * digit_value c + digit_value d) ∷ from_hex cs

value_ok : ℕ → Bool
value_ok d = digit_value (hex_digit d) == d

value_table : passes value_ok 16 ≡ true
unfolding passes value_ok hex_digit
value_table = refl

value-digit : (d : ℕ) → d < 16 → digit_value (hex_digit d) ≡ d
unfolding value_ok
value-digit d lt = let t = passes-true value_ok 16 value_table d lt in ground arith

-- Bytes below 256 can be read back from their hexadecimal text.
pub from_hex-to_hex : (bs : Bytes) → All (λ b. b < 256) bs → from_hex (to_hex bs) ≡ bs
unfolding to_hex
from_hex-to_hex [] h = refl
from_hex-to_hex (b ∷ bs) (h, hs) =
    let high = value-digit (b % 256 / 16) (omega arith) in
    let low = value-digit (b % 16) (omega arith) in
    let byte : 16 * (b % 256 / 16) + b % 16 ≡ b = omega arith in
    rw (high, low, byte, from_hex-to_hex bs hs) refl
