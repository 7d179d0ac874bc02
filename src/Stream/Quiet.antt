-- ===== src/Stream/Quiet.antt =====
-- Readers that throw nothing but `runtime_error`, which every loop of the program catches.
use nanocap.Prelude.{
  ℕ, zero, suc, ◌≡◌, ◌≢◌, refl, sym, ◌∙◌, ap, Bool, Bool-cases, inl, inr, none, some, [], ◌∷◌,
  Parser, Exception, Outcome, throw, runtime_error, other_error, out_of_fuel, pure, raise, ◌>>=◌,
}
use nanocap.Stream.{KStream}
use nanocap.Stream.Takes.{Takes, Takes-cases}
use nanocap.Stream.Repeat.{
  branch, branch-true, branch-false, repeat_until, optional_repeat, fuel_of,
}
use nanocap.Stream.Reads.{Outcome-cases, ReadsAt}

throw-injective {ℓ} :
    {A : Type ℓ} {x y : Exception} → ◌≡◌ {A = Outcome A} (throw x) (throw y) → x ≡ y
throw-injective h = cc

runtime_of : (x : Exception) → x ≢ other_error → x ≢ out_of_fuel → x ≡ runtime_error
runtime_of runtime_error a b = refl
runtime_of other_error a b = absurd (a refl)
runtime_of out_of_fuel a b = absurd (b refl)

module _ (k : KStream) where
  open k use {Stream, is_eof}

  pub record Quiet {A : Type 0} (p : Parser Stream A) : Type 0 where
    pub quiet : (s : Stream) → p s ≢ throw other_error

  -- With enough fuel too, any exception is one that is caught.
  pub Quiet-runtime :
      {A : Type 0} {p : Parser Stream A} {n : ℕ} (s : Stream) (x : Exception)
      → Quiet p
      → ReadsAt k p s n
      → p s ≡ throw x
      → x ≡ runtime_error
  Quiet-runtime s x q r e =
      runtime_of x (λ h. q.quiet s (e ∙ ap throw h)) (λ h. r.safe (e ∙ ap throw h))

  pub Takes-Quiet : {A : Type 0} {p : Parser Stream A} {n : ℕ} → Takes k p n → Quiet p
  Takes-Quiet {p} {n} t = record {
    quiet = λ s h. elim (Takes-cases k t s) [ inl (a, s', e) ↦ cc | inr e ↦ cc ];
  }

  pub pure-Quiet : {A : Type 0} (a : A) → Quiet (pure a)
  unfolding pure
  pure-Quiet a = record { quiet = λ s h. cc }

  pub bind-Quiet :
      {A B : Type 0} {p : Parser Stream A} (f : A → Parser Stream B)
      → Quiet p
      → ((a : A) → Quiet (f a))
      → Quiet (p >>= f)
  unfolding ◌>>=◌
  bind-Quiet {p} f qp qf = record {
    quiet = λ s h. elim (Outcome-cases (p s)) [
      | inl ((a, s₁), e) ↦ (qf a).quiet s₁ (rw e at h)
      | inr (x, e) ↦ qp.quiet s (e ∙ ap throw (throw-injective (rw e at h)))
    ];
  }

  pub same-Quiet :
      {A : Type 0} {p q : Parser Stream A} → ((s : Stream) → p s ≡ q s) → Quiet q → Quiet p
  same-Quiet e r = record { quiet = λ s h. r.quiet s (sym (e s) ∙ h) }

  branch-Quiet :
      {A : Type 0} (test : Stream → Bool) {p q : Parser Stream A}
      → Quiet p
      → Quiet q
      → Quiet (branch k test p q)
  branch-Quiet test {p} {q} qp qq = record {
    quiet = λ s h. elim (Bool-cases (test s)) [
      | inl e ↦ qp.quiet s (sym (branch-true k test p q s e) ∙ h)
      | inr e ↦ qq.quiet s (sym (branch-false k test p q s e) ∙ h)
    ];
  }

  pub raise-Quiet : {A : Type 0} (x : Exception) → x ≢ other_error → Quiet (raise {A = A} x)
  unfolding raise
  raise-Quiet x h = record { quiet = λ s bad. h (throw-injective bad) }

  fuel-Quiet : {A : Type 0} → Quiet (raise {A = A} out_of_fuel)
  fuel-Quiet = raise-Quiet out_of_fuel (λ h. cc)

  module _ {A : Type 0} {p : Parser Stream A} (qp : Quiet p) where
    repeat_until-Quiet : (fuel : ℕ) (stop : ℕ → Bool) (i : ℕ) → Quiet (repeat_until k fuel stop i p)
    unfolding repeat_until
    repeat_until-Quiet zero stop i = fuel-Quiet
    repeat_until-Quiet (suc fuel) stop i = bind-Quiet _ qp λ a.
        branch-Quiet _ (pure-Quiet (a ∷ []))
          (bind-Quiet _ (repeat_until-Quiet fuel stop (suc i)) λ bs. pure-Quiet (a ∷ bs))

    pub optional_repeat-Quiet : (stop : ℕ → Bool) → Quiet (optional_repeat k stop p)
    unfolding optional_repeat
    optional_repeat-Quiet stop = record {
      quiet = λ s h.
          (branch-Quiet is_eof (pure-Quiet none) (
              bind-Quiet _ (repeat_until-Quiet (fuel_of k s) stop 0)
                λ bs. pure-Quiet (some bs))).quiet
            s h;
    }
