-- ===== src/Stream/Rounds.antt =====
-- Reading back a list to the end of the stream.
use mathlib.Core.List.{map}
use mathlib.Core.Path.{ap₂}
use nanocap.Prelude.{
  ℕ, zero, suc, ◌+◌, ◌≤◌, ◌<◌, ◌≡◌, refl, ◌∙◌, ap, arith, Bool, true, false, ◌||◌, length,
  length-append, List, [], ◌∷◌, ◌++◌, none, some, All, Parser, pure, ◌>>=◌,
}
use nanocap.Stream.{KStream, Bytes, joined, is_nil}
use nanocap.Stream.Repeat.{branch-true, branch-false, repeat_until, optional_repeat, fuel_of}
use nanocap.Stream.Decodes.{Decodes, DecodesAll}

or-true : (b : Bool) → (b || true) ≡ true
or-true true = refl
or-true false = refl

nonempty : (xs ys : Bytes) → 0 < length xs → is_nil (xs ++ ys) ≡ false
nonempty [] ys h = absurd (omega arith)
nonempty (x ∷ xs) ys h = refl

length-joined :
    {A : Type 0} (enc : A → Bytes) (xs : List A)
    → All (λ x. 0 < length (enc x)) xs
    → length xs ≤ length (joined (map enc xs))
length-joined enc [] h = omega arith
length-joined enc (x ∷ xs) (h, hs) =
    omega (arith, length-joined enc xs hs, length-append (enc x) (joined (map enc xs)))

module _ (k : KStream) where
  open k use {Stream, remaining, is_eof}

  module _ {A : Type 0} (p : Parser Stream A) (enc : A → Bytes) where
    -- Every element is read back from its bytes, of which there is at least one.
    pub record Reversible (x : A) : Type 0 where
      pub reads : Decodes k p x (enc x)
      pub some_byte : 0 < length (enc x)

    some_bytes : (xs : List A) → All Reversible xs → All (λ x. 0 < length (enc x)) xs
    some_bytes [] h = tt
    some_bytes (x ∷ xs) (h, hs) = (h.some_byte, some_bytes xs hs)

    -- The loop reads a list of at least one element up to the end of the stream, if the count does
    -- not stop it before the last one.
    repeat_until-DecodesAll :
        (fuel : ℕ) (stop : ℕ → Bool) (i : ℕ) (x : A) (xs : List A)
        → All Reversible (x ∷ xs)
        → ((j : ℕ) → i < j → j ≤ i + length xs → stop j ≡ false)
        → length xs < fuel
        → DecodesAll k (repeat_until k fuel stop i p) (x ∷ xs) (joined (map enc (x ∷ xs)))
    unfolding repeat_until ◌>>=◌ pure
    repeat_until-DecodesAll zero stop i x xs all go lt = absurd (omega arith)
    repeat_until-DecodesAll (suc fuel) stop i x [] (hx, _) go lt = record {
      decoded_all = λ s h.
          let (s₁, e₁, r₁, q₁) = hx.reads.decoded s [] h in
          let eof : is_eof s₁ ≡ true = k.is_eof_lem s₁ ∙ ap is_nil r₁ in
          (
            s₁,
            rw e₁
                (branch-true k _ _ _ s₁ (ap (λ b. stop (suc i) || b) eof ∙ or-true (stop (suc i)))),
            r₁,
            omega (arith, length-append (enc x) []),
          );
    }
    repeat_until-DecodesAll (suc fuel) stop i x (y ∷ ys) (hx, (hy, hs)) go lt = record {
      decoded_all = λ s h.
          let (s₁, e₁, r₁, q₁) = hx.reads.decoded s (joined (map enc (y ∷ ys))) h in
          let more : is_eof s₁ ≡ false =
            k.is_eof_lem s₁ ∙ ap is_nil r₁ ∙ nonempty (enc y) (joined (map enc ys)) hy.some_byte in
          let on : stop (suc i) ≡ false = go (suc i) (omega arith) (omega arith) in
          let (s₂, e₂, r₂, q₂) =
            (repeat_until-DecodesAll fuel stop (suc i) y ys (hy, hs)
                (λ j lo hi. go j (omega arith) (omega arith)) (omega arith)).decoded_all
              s₁ r₁ in
          (
            s₂,
            rw e₁ (branch-false k _ _ _ s₁ (ap₂ ◌||◌ on more) ∙ rw e₂),
            r₂,
            omega (arith, length-append (enc x) (joined (map enc (y ∷ ys)))),
          );
    }

    -- The optional list: null stands for no bytes.
    pub optional_repeat-DecodesAll :
        (stop : ℕ → Bool) (x : A) (xs : List A)
        → All Reversible (x ∷ xs)
        → ((j : ℕ) → 0 < j → j ≤ length xs → stop j ≡ false)
        → DecodesAll k (optional_repeat k stop p) (some (x ∷ xs)) (joined (map enc (x ∷ xs)))
    unfolding optional_repeat ◌>>=◌ pure
    optional_repeat-DecodesAll stop x xs all go = record {
      decoded_all = λ s h.
          let more : is_eof s ≡ false =
            k.is_eof_lem s ∙ ap is_nil h ∙ nonempty (enc x) (joined (map enc xs)) all.0.some_byte in
          let (s₂, e₂, r₂, q₂) =
            (repeat_until-DecodesAll (fuel_of k s) stop 0 x xs all
                (λ j lo hi. go j lo (omega arith))
                (omega (
                  arith,
                  ap length h,
                  length-joined enc (x ∷ xs) (some_bytes (x ∷ xs) all),
                ))).decoded_all
              s h in
          (s₂, branch-false k _ _ _ s more ∙ rw e₂, r₂, q₂);
    }

    pub optional_repeat-none : (stop : ℕ → Bool) → DecodesAll k (optional_repeat k stop p) none []
    unfolding optional_repeat pure
    optional_repeat-none stop = record {
      decoded_all =
          λ s h. (s, branch-true k _ _ _ s (k.is_eof_lem s ∙ ap is_nil h), h, omega arith);
    }
