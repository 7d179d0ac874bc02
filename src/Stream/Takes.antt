-- ===== src/Stream/Takes.antt =====
-- Readers of a fixed size: `Takes p n` says that `p` reads `n` bytes where so many are left, and
-- throws where they are not.
use nanocap.Prelude.{
  ℕ, ◌+◌, ◌≤◌, ◌<◌, ◌≡◌, refl, ◌∙◌, ap, inl, inr, Bool-cases, leb, arith, length, drop, length-drop,
  drop-drop, Parser, ok, throw, runtime_error, pure, ◌>>=◌, ◌⊎◌,
}
use nanocap.Stream.{KStream}

module _ (k : KStream) where
  open k use {Stream, remaining, pos, read_bytes}

  pub record Takes {A : Type 0} (p : Parser Stream A) (n : ℕ) : Type 0 where
    pub enough :
        (s : Stream)
        → n ≤ length (remaining s)
        → (a : A) × (s' : Stream) × (p s ≡ ok (a, s'))
          × (remaining s' ≡ drop n (remaining s))
          × (pos s' ≡ pos s + n)
    pub short : (s : Stream) → length (remaining s) < n → p s ≡ throw runtime_error

  pub pure-Takes : {A : Type 0} (a : A) → Takes (pure a) 0
  unfolding pure
  pure-Takes a = record {
    enough = λ s h. (a, s, refl, refl, omega arith);
    short = λ s h. absurd (omega arith);
  }

  pub read_bytes-Takes : (n : ℕ) → Takes (read_bytes n) n
  read_bytes-Takes n = record {
    enough = λ s h. let (s', e, r, q) = k.read_bytes_enough n s h in (_, s', e, r, q);
    short = λ s h. k.read_bytes_short n s h;
  }

  le_or_lt : (a b : ℕ) → (a ≤ b) ⊎ (b < a)
  le_or_lt a b = elim (Bool-cases (leb a b)) [
    | inl e ↦ inl (ground arith)
    | inr e ↦ inr (ground arith)
  ]

  pub bind-Takes :
      {A B : Type 0} {p : Parser Stream A} {f : A → Parser Stream B} {m n : ℕ}
      → Takes p m
      → ((a : A) → Takes (f a) n)
      → Takes (p >>= f) (m + n)
  unfolding ◌>>=◌
  bind-Takes {A} {B} {p} {f} {m} {n} tp tf = record {
    enough = λ s h.
        let (a, s₁, e₁, r₁, q₁) = tp.enough s (omega arith) in
        let (b, s₂, e₂, r₂, q₂) =
          (tf a).enough s₁ (omega (arith, ap length r₁, length-drop m (remaining s))) in
        (b, s₂, rw e₁ e₂, r₂ ∙ ap (drop n) r₁ ∙ drop-drop m n (remaining s), omega arith);
    short = λ s h. elim (le_or_lt m (length (remaining s))) [
      | inr few ↦ rw (tp.short s few)
      | inl more ↦
          let (a, s₁, e₁, r₁, q₁) = tp.enough s more in
          rw e₁ ((tf a).short s₁ (omega (arith, ap length r₁, length-drop m (remaining s))))
    ];
  }

  -- A reader of a fixed size succeeds or throws `runtime_error`.
  pub Takes-cases :
      {A : Type 0} {p : Parser Stream A} {n : ℕ}
      → Takes p n
      → (s : Stream) → ((a : A) × (s' : Stream) × (p s ≡ ok (a, s'))) ⊎ (p s ≡ throw runtime_error)
  Takes-cases {n} t s = elim (le_or_lt n (length (remaining s))) [
    | inl more ↦ let (a, s', e, _, _) = t.enough s more in inl (a, s', e)
    | inr few ↦ inr (t.short s few)
  ]
