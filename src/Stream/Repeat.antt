-- ===== src/Stream/Repeat.antt =====
-- The loops of the generated parser, `do { read one; i++ } while (!(... || is_eof()))`.
use nanocap.Prelude.{
  ℕ, zero, suc, ◌≡◌, Bool, true, ◌||◌, Option, none, some, List, [], ◌∷◌, ◌++◌, length, Parser,
  other_error, out_of_fuel, pure, raise, ◌>>=◌, false, get_elem?, if◌then◌else◌,
}
use nanocap.Stream.{KStream}

module _ (k : KStream) where
  open k use {Stream, remaining, is_eof}

  -- Each round reads at least one byte, so that the bytes left bound the rounds.
  abbrev pub fuel_of : Stream → ℕ
  fuel_of s = suc (length (remaining s))

  -- A test of the stream between reads.
  unfoldable pub branch :
      {A : Type 0} → (Stream → Bool) → Parser Stream A → Parser Stream A → Parser Stream A
  branch test p q s = elim (test s) [ true ↦ p s | false ↦ q s ]

  pub branch-true :
      {A : Type 0} (test : Stream → Bool) (p q : Parser Stream A) (s : Stream)
      → test s ≡ true
      → branch test p q s ≡ p s
  unfolding branch
  branch-true test p q s h = rw (h, branch)

  pub branch-false :
      {A : Type 0} (test : Stream → Bool) (p q : Parser Stream A) (s : Stream)
      → test s ≡ false
      → branch test p q s ≡ q s
  unfolding branch
  branch-false test p q s h = rw (h, branch)

  -- `stop i` is the part of the test that counts the rounds.
  unfoldable pub repeat_until :
      {A : Type 0} → ℕ → (ℕ → Bool) → ℕ → Parser Stream A → Parser Stream (List A)
  repeat_until zero stop i p = raise out_of_fuel
  repeat_until (suc fuel) stop i p = do
    a ← p
    branch (λ s. stop (suc i) || is_eof s) (pure (a ∷ []))
        (do as' ← repeat_until fuel stop (suc i) p; pure (a ∷ as'))

  -- A list that is read only where the stream has not ended: null where it has.
  unfoldable pub optional_repeat :
      {A : Type 0} → (ℕ → Bool) → Parser Stream A → Parser Stream (Option (List A))
  unfolding repeat_until
  optional_repeat stop p s =
      branch is_eof (pure none) (do as' ← repeat_until (fuel_of s) stop 0 p; pure (some as')) s

  -- What follows the test `is_eof() || last(entry.at(i))` where the stream has not ended.
  unfoldable pub at_index :
      {A : Type 0}
      → Option A
      → (A → Bool)
      → Parser Stream (List A)
      → Parser Stream (List A)
      → Parser Stream (List A)
  at_index none last p q = raise other_error
  at_index (some e) last p q = if last e then p else q

  -- The test is read after `i++`, so that `i` is the number of entries.
  unfoldable pub repeat_at :
      {A : Type 0} → ℕ → (A → Bool) → List A → Parser Stream A → Parser Stream (List A)
  unfolding at_index
  repeat_at zero last entries p = raise out_of_fuel
  repeat_at (suc fuel) last entries p = do
    a ← p
    let entries' = entries ++ a ∷ []
    branch is_eof (pure entries') (
        at_index (get_elem? entries' (length entries')) last (pure entries')
          (repeat_at fuel last entries' p))
