-- ===== src/Prelude/Throws.antt =====
-- The outcome of a C++ call that may throw. `runtime_error` is what the source catches as
-- `std::runtime_error`, `other_error` is any other exception, such as `std::out_of_range`.
-- `out_of_fuel` is no exception of the program: a loop that it cannot reach says so by a theorem.

pub data Exception : Type 0 where
  runtime_error other_error out_of_fuel : Exception

pub data Outcome {ℓ} (A : Type ℓ) : Type ℓ where
  ok : A → Outcome A
  throw : Exception → Outcome A

-- A computation on a state, such as a stream, whose state is lost when it throws.
abbrev pub Parser {ℓ} : Type ℓ → Type ℓ → Type ℓ
Parser S A = S → Outcome (A × S)

module _ {ℓ} {S A : Type ℓ} where
  unfoldable pub pure : A → Parser S A
  pure a s = ok (a, s)

  unfoldable pub raise : Exception → Parser S A
  raise e s = throw e

module _ {ℓ} {S A B : Type ℓ} where
  abbrev pub continue : (A → Parser S B) → Outcome (A × S) → Outcome (B × S)
  continue f (ok (a, s)) = f a s
  continue f (throw e) = throw e

  infixl 10 ◌>>=◌
  unfoldable pub ◌>>=◌ : Parser S A → (A → Parser S B) → Parser S B
  ◌>>=◌ m f s = continue f (m s)
