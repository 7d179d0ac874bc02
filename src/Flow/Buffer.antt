-- ===== src/Flow/Buffer.antt =====
-- What the circular buffer holds after a packet was copied in.
use nanocap.Prelude.{
  ◌+◌, ◌-◌, ◌≤◌, ◌≡◌, sym, ◌∙◌, ap, arith, [], ◌∷◌, ◌++◌, length, length-append, append_assoc,
  append-nil,
}
use nanocap.Stream.{Bytes}
use nanocap.Flow.{CircularBuffer, capacity, newest, accumulate}

pub newest-small : (xs : Bytes) → length xs ≤ capacity → newest xs ≡ xs
newest-small xs h = let e : length xs - capacity ≡ 0 = omega arith in rw e

module _ (cb : CircularBuffer) where
  open cb use {Buffer, contents, push_back}

  -- As long as the buffer is large enough, nothing is lost.
  pub contents-accumulate :
      (xs : Bytes) (b : Buffer)
      → length (contents b) + length xs ≤ capacity
      → contents (accumulate cb xs b) ≡ contents b ++ xs
  unfolding accumulate
  contents-accumulate [] b h = sym (append-nil (contents b))
  contents-accumulate (x ∷ xs) b h =
      let e : contents (push_back x b) ≡ contents b ++ x ∷ [] =
        cb.contents-push_back x b
        ∙ newest-small (contents b ++ x ∷ [])
            (omega (arith, length-append (contents b) (x ∷ []))) in
      contents-accumulate xs (push_back x b)
        (omega (arith, ap length e, length-append (contents b) (x ∷ [])))
      ∙ ap (λ ys. ys ++ xs) e
      ∙ append_assoc (contents b) (x ∷ []) xs
