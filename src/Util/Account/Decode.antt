-- ===== src/Util/Account/Decode.antt =====
-- What the text of an account stands for.
use native.Mathlib.Nat.{pow-suc}
use mathlib.Core.List.{reverse, reverse-reverse}
use nanocap.Util.Text.{codes}
use nanocap.Prelude.{
  ℕ, zero, suc, take, take-append, ◌+◌, ◌*◌, ◌/◌, ◌%◌, ◌^◌, ◌<◌, ◌≡◌, refl, sym, ◌∙◌, ap, arith,
  Bool, true, [], ◌∷◌, ◌++◌, List, length, ◌==◌, passes, passes-true, if◌then◌else◌,
}
use nanocap.Stream.{Bytes}
use nanocap.Util.Account.{
  account_lookup, account_encode, encode_rounds, number_from, number, account_check, pub_to_account,
}

-- The place of a letter in the alphabet of accounts, and the number that letters stand for, the
-- lowest one first.
abbrev place_in : ℕ → Bytes → ℕ
place_in c [] = 0
place_in c (d ∷ ds) = if c == d then 0 else suc (place_in c ds)

abbrev pub letter_value : ℕ → ℕ
letter_value c = place_in c account_lookup

abbrev pub decode_letters : Bytes → ℕ
decode_letters [] = 0
decode_letters (c ∷ cs) = letter_value c + 32 * decode_letters cs

letter_ok : ℕ → Bool
letter_ok v = letter_value (account_encode v) == v

letter_table : passes letter_ok 32 ≡ true
unfolding passes letter_ok account_encode
letter_table = refl

value-letter : (v : ℕ) → v < 32 → letter_value (account_encode v) ≡ v
unfolding letter_ok
value-letter v lt = let t = passes-true letter_ok 32 letter_table v lt in ground arith

-- A number below 32 ^ n can be read back from the letters of n rounds.
pub decode-encode_rounds : (n m : ℕ) → m < 32 ^ n → decode_letters (encode_rounds n m) ≡ m
unfolding encode_rounds
decode-encode_rounds zero m lt = omega arith
decode-encode_rounds (suc n) m lt =
    let letter = value-letter (m % 32) (omega arith) in
    let rest = decode-encode_rounds n (m / 32) (omega (arith, pow-suc 32 n)) in
    omega (arith, letter, rest)

length-encode_rounds : (n m : ℕ) → length (encode_rounds n m) ≡ n
unfolding encode_rounds
length-encode_rounds zero m = refl
length-encode_rounds (suc n) m = ap suc (length-encode_rounds n (m / 32))

number_from-lt : (acc : ℕ) (bs : Bytes) → acc < 2 ^ 256 → number_from acc bs < 2 ^ 256
unfolding number_from
number_from-lt acc [] lt = lt
number_from-lt acc (b ∷ bs) lt = number_from-lt ((acc * 256 + b) % 2 ^ 256) bs (omega arith)

number-lt : (bs : Bytes) → number bs < 2 ^ 256
unfolding number
number-lt bs = number_from-lt 0 bs (omega arith)

-- If the checksum fits its five bytes, then the text of an account, without its prefix of five
-- letters and read backwards, stands for the number of its key shifted by forty bits, plus the
-- checksum: nothing of the key is lost.
pub pub_to_account-decodes :
    (blake2b : ℕ → List Bytes → Bytes) (key : Bytes)
    → account_check blake2b key < 2 ^ 40
    → decode_letters (take 60 (reverse (pub_to_account blake2b key)))
      ≡ number key * 2 ^ 40 + account_check blake2b key
unfolding pub_to_account
pub_to_account-decodes blake2b key lt =
    let m = (number key * 2 ^ 40) % 2 ^ 512 + account_check blake2b key in
    let small : number key * 2 ^ 40 < 2 ^ 296 = omega (arith, number-lt key) in
    let whole : m ≡ number key * 2 ^ 40 + account_check blake2b key = omega arith in
    let letters = encode_rounds 60 m in
    let first : take 60 (letters ++ codes "_onan") ≡ letters =
      ap (λ n. take n (letters ++ codes "_onan")) (sym (length-encode_rounds 60 m))
      ∙ take-append letters (codes "_onan") in
    ap (λ t. decode_letters (take 60 t)) (reverse-reverse (letters ++ codes "_onan"))
    ∙ ap decode_letters first
    ∙ decode-encode_rounds 60 m (omega arith)
    ∙ whole
