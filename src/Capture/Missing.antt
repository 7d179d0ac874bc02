-- ===== src/Capture/Missing.antt =====
-- The test for lost data.
use nanocap.Prelude.{
  ℕ, ◌<◌, ◌≡◌, ◌↔◌, refl, ◌∙◌, ap, sym, Bool, true, false, ◌&&◌, [], ◌∷◌, ◌++◌, length, ltb, drop,
  ltb→lt, lt→ltb, ◌==◌, arith, Bool-cases, inl, inr, ==_iff,
}
use mathlib.Core.Bool.{true≢false, or-true}
use nanocap.Stream.{Bytes}
use nanocap.Capture.{has_tag, has_missing_data}

-- `ing]`.
abbrev pub tag : Bytes
tag = 105 ∷ 110 ∷ 103 ∷ 93 ∷ []

-- What stands around the tag in some bytes.
pub record Tagged (bs : Bytes) : Type 0 where
  pub before : Bytes
  pub after : Bytes
  pub split : bs ≡ before ++ (tag ++ after)

and_true : (a b : Bool) → (a && b) ≡ true → (a ≡ true) × (b ≡ true)
and_true true b h = (refl, h)
and_true false b h = absurd (true≢false (sym h))

has_tag-cons : (a : ℕ) (bs : Bytes) → has_tag bs ≡ true → has_tag (a ∷ bs) ≡ true
unfolding has_tag
has_tag-cons a [] h = h
has_tag-cons a (b ∷ []) h = h
has_tag-cons a (b ∷ c ∷ []) h = h
has_tag-cons a (b ∷ c ∷ d ∷ rest) h = rw h (or-true _)

tagged_has : (before after : Bytes) → has_tag (before ++ (tag ++ after)) ≡ true
unfolding has_tag
tagged_has [] after = refl
tagged_has (a ∷ before) after = has_tag-cons a _ (tagged_has before after)

later : {bs : Bytes} (a : ℕ) → Tagged bs → Tagged (a ∷ bs)
later a t = record { before = a ∷ t.before; after = t.after; split = ap (λ xs. a ∷ xs) t.split }

tag_here :
    (a b c d : ℕ) (rest : Bytes)
    → (a == 105 && (b == 110 && (c == 103 && d == 93))) ≡ true
    → Tagged (a ∷ b ∷ c ∷ d ∷ rest)
tag_here a b c d rest h =
    let (ha, h₁) = and_true (a == 105) (b == 110 && (c == 103 && d == 93)) h in
    let (hb, h₂) = and_true (b == 110) (c == 103 && d == 93) h₁ in
    let (hc, hd) = and_true (c == 103) (d == 93) h₂ in
    let a≡ = (==_iff a 105).0 ha in
    let b≡ = (==_iff b 110).0 hb in
    let c≡ = (==_iff c 103).0 hc in
    let d≡ = (==_iff d 93).0 hd in
    record { before = []; after = rest; split = rw (a≡, b≡, c≡, d≡) refl }

has_tag-finds : (bs : Bytes) → has_tag bs ≡ true → Tagged bs
unfolding has_tag
has_tag-finds [] h = absurd (true≢false (sym h))
has_tag-finds (a ∷ []) h = absurd (true≢false (sym h))
has_tag-finds (a ∷ b ∷ []) h = absurd (true≢false (sym h))
has_tag-finds (a ∷ b ∷ c ∷ []) h = absurd (true≢false (sym h))
has_tag-finds (a ∷ b ∷ c ∷ d ∷ rest) h =
    elim (Bool-cases (a == 105 && (b == 110 && (c == 103 && d == 93)))) [
      | inl here ↦ tag_here a b c d rest here
      | inr off ↦ later a (has_tag-finds (b ∷ c ∷ d ∷ rest) (rw off at h))
    ]

abbrev first : Bytes → ℕ
first [] = 0
first (b ∷ bs) = b

tail-Tagged :
    {a : ℕ} {bs : Bytes} (before after : Bytes)
    → a ∷ bs ≡ before ++ (tag ++ after)
    → a ≡ 91
    → Tagged bs
tail-Tagged [] after e a≡ = absurd (omega (arith, ap first e, a≡))
tail-Tagged (b ∷ before) after e a≡ = record {
  before = before;
  after = after;
  split = ap (drop 1) e;
}

cons-Tagged : {a : ℕ} {bs : Bytes} → Tagged (a ∷ bs) → a ≡ 91 → Tagged bs
cons-Tagged t a≡ = tail-Tagged t.before t.after t.split a≡

missing-tag :
    (bs : Bytes)
    → has_missing_data bs ≡ true
    → (16 < length bs)
      × ((before : Bytes) × ((after : Bytes) × (bs ≡ 91 ∷ (before ++ (tag ++ after)))))
unfolding has_missing_data
missing-tag [] h = absurd (true≢false (sym h))
missing-tag (b ∷ bs) h =
    let (guard, found) = and_true (ltb 16 (length (b ∷ bs)) && b == 91) (has_tag (b ∷ bs)) h in
    let (long, opens) = and_true (ltb 16 (length (b ∷ bs))) (b == 91) guard in
    let b≡ = (==_iff b 91).0 opens in
    let t = cons-Tagged (has_tag-finds (b ∷ bs) found) b≡ in
    (
      ltb→lt 16 (length (b ∷ bs)) long,
      (t.before, (t.after, ap (λ x. x ∷ bs) b≡ ∙ ap (λ xs. 91 ∷ xs) t.split)),
    )

missing_from :
    (bs : Bytes)
    → 16 < length bs
    → (before after : Bytes) → bs ≡ 91 ∷ (before ++ (tag ++ after))
    → has_missing_data bs ≡ true
unfolding has_missing_data
missing_from bs long before after e =
    rw (lt→ltb 16 (length bs) long, e)
      (has_tag-cons 91 (before ++ (tag ++ after)) (tagged_has before after))

-- Bytes that came with a packet count as lost data exactly where there are more than 16 of them,
-- the first one is an opening bracket, and the text `ing]` stands somewhere behind it.
pub has_missing_data_iff :
    (bs : Bytes)
    → (has_missing_data bs ≡ true) ↔ (
        (16 < length bs)
        × ((before : Bytes) × ((after : Bytes) × (bs ≡ 91 ∷ (before ++ (tag ++ after))))))
unfolding has_missing_data
has_missing_data_iff bs =
    (missing-tag bs, λ (long, (before, (after, e))). missing_from bs long before after e)
