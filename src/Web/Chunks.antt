-- ===== src/Web/Chunks.antt =====
-- A file is sent whole, in reads of the size of the buffer.
use nanocap.Prelude.{
  ℕ, zero, suc, ◌≤◌, ◌<◌, ◌≡◌, ◌≢◌, refl, ◌∙◌, ap, arith, Bool, true, false, List, [], ◌∷◌, ◌++◌,
  append-nil, length, take, drop, ltb, length-take, length-drop, take-append-drop, Bool-cases, inl,
  inr, ◌==◌, ==_iff,
}
use nanocap.Stream.{Bytes}
use nanocap.Web.{buffer_size, read_and_send}

-- The bytes of some writes, in their order.
abbrev pub join : List Bytes → Bytes
join [] = []
join (w ∷ ws) = w ++ join ws

take_all : (n : ℕ) (xs : Bytes) → length xs ≤ n → take n xs ≡ xs
take_all zero [] h = refl
take_all zero (x ∷ xs) h = absurd (omega (arith, h))
take_all (suc n) [] h = refl
take_all (suc n) (x ∷ xs) h = ap (λ ys. x ∷ ys) (take_all n xs (omega (arith, h)))

no_bytes : (xs : Bytes) → length xs ≡ 0 → xs ≡ []
no_bytes [] h = refl
no_bytes (x ∷ xs) h = absurd (omega (arith, h))

ltb-zero : (x : ℕ) → ltb 0 x ≡ false → x ≡ 0
ltb-zero x h = ground arith

differs : (a b : ℕ) → (a == b) ≡ false → a ≢ b
differs a b h e = ground arith

nothing_left : (content : Bytes) → ltb 0 (length (take buffer_size content)) ≡ false → content ≡ []
nothing_left content h =
    no_bytes content (
      omega
        (arith, length-take buffer_size content, ltb-zero (length (take buffer_size content)) h))

short_read :
    (content : Bytes)
    → (length (take buffer_size content) == buffer_size) ≡ false
    → length content ≤ buffer_size
short_read content h = omega (
  arith,
  length-take buffer_size content,
  differs (length (take buffer_size content)) buffer_size h,
)

-- A full read leaves fewer bytes.
full_read :
    (content : Bytes) (fuel : ℕ)
    → (length (take buffer_size content) == buffer_size) ≡ true
    → length content < suc fuel
    → length (drop buffer_size content) < fuel
full_read content fuel full room = omega (
  arith,
  length-take buffer_size content,
  length-drop buffer_size content,
  room,
  (==_iff (length (take buffer_size content)) buffer_size).0 full,
)

-- Where every write succeeds, and there is fuel for each byte and one more, as there is where a file is
-- served, the writes are the bytes of the file in their order.
pub read_and_send-joins :
    (fuel : ℕ) (sent : ℕ → Bool) (content : Bytes)
    → length content < fuel
    → ((n : ℕ) → sent n ≡ true)
    → join (read_and_send fuel sent content) ≡ content
unfolding read_and_send
read_and_send-joins zero sent content room ok = absurd (omega (arith, room))
read_and_send-joins (suc fuel) sent content room ok =
    elim (Bool-cases (ltb 0 (length (take buffer_size content)))) [
      | inr none ↦ rw (none, nothing_left content none) refl
      | inl some ↦ elim (Bool-cases (length (take buffer_size content) == buffer_size)) [
        | inr short ↦
            rw (some, short)
              (append-nil (take buffer_size content)
                ∙ take_all buffer_size content (short_read content short))
        | inl full ↦
            rw (some, full, ok 0)
              (ap (λ ws. take buffer_size content ++ ws)
                  (read_and_send-joins fuel (λ n. sent (suc n)) (drop buffer_size content)
                    (full_read content fuel full room) (λ n. ok (suc n)))
                ∙ take-append-drop buffer_size content)
      ]
    ]
