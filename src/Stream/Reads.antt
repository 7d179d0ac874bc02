-- ===== src/Stream/Reads.antt =====
-- Readers of any size: `Reads p n` says that `p` never runs out of fuel, and that it reads at
-- least `n` bytes where it succeeds, moving the position by as many as it takes.
use nanocap.Prelude.{
  ℕ, zero, suc, ◌+◌, ◌≤◌, ◌<◌, ◌≡◌, ◌≢◌, refl, sym, ◌∙◌, ap, inl, inr, ◌⊎◌, arith, Bool, true,
  false, Bool-cases, leb, length, drop, length-drop, drop-drop, [], ◌∷◌, none, some, Parser,
  Exception, Outcome, ok, throw, out_of_fuel, pure, raise, ◌>>=◌,
}
use nanocap.Stream.{KStream}
use nanocap.Stream.Takes.{Takes}
use nanocap.Stream.Repeat.{
  branch, branch-true, branch-false, repeat_until, optional_repeat, fuel_of,
}

pub Outcome-cases {ℓ} :
    {A : Type ℓ} (o : Outcome A) → ((a : A) × (o ≡ ok a)) ⊎ ((e : Exception) × (o ≡ throw e))
Outcome-cases (ok a) = inl (a, refl)
Outcome-cases (throw e) = inr (e, refl)

throw-injective {ℓ} :
    {A : Type ℓ} {x y : Exception} → ◌≡◌ {A = Outcome A} (throw x) (throw y) → x ≡ y
throw-injective h = cc

throw-ok : {A : Type 0} {x : Exception} {a : A} → ◌≢◌ {A = Outcome A} (throw x) (ok a)
throw-ok h = cc

-- A sequence that succeeds: what its first part returned.
pub bind-ok :
    {S A B : Type 0} (p : Parser S A) (f : A → Parser S B) (s s' : S) (b : B)
    → (p >>= f) s ≡ ok (b, s')
    → (a : A) × (s₁ : S) × (p s ≡ ok (a, s₁)) × (f a s₁ ≡ ok (b, s'))
unfolding ◌>>=◌
bind-ok p f s s' b h = elim (Outcome-cases (p s)) [
  | inl ((a, s₁), e) ↦ (a, s₁, e, rw e at h)
  | inr (x, e) ↦ let bad = rw e at h in absurd (throw-ok bad)
]

module _ (k : KStream) where
  open k use {Stream, remaining, pos, is_eof}

  -- The stream `s'` is `s` after `m` more bytes.
  pub record After (s s' : Stream) (m : ℕ) : Type 0 where
    pub fits : m ≤ length (remaining s)
    pub rest : remaining s' ≡ drop m (remaining s)
    pub moved : pos s' ≡ pos s + m

  After-trans : {s t u : Stream} {m n : ℕ} → After s t m → After t u n → After s u (m + n)
  After-trans {s} {m} {n} a b = record {
    fits = omega (arith, a.fits, b.fits, ap length a.rest, length-drop m (remaining s));
    rest = b.rest ∙ ap (drop n) a.rest ∙ drop-drop m n (remaining s);
    moved = omega (arith, a.moved, b.moved);
  }

  After-refl : (s : Stream) → After s s 0
  After-refl s = record { fits = omega arith; rest = refl; moved = omega arith }

  pub After-length :
      {s s' : Stream} {m : ℕ} → After s s' m → length (remaining s') + m ≡ length (remaining s)
  After-length {s} {m} a = omega (arith, a.fits, ap length a.rest, length-drop m (remaining s))

  pub record ReadsAt {A : Type 0} (p : Parser Stream A) (s : Stream) (n : ℕ) : Type 0 where
    pub safe : p s ≢ throw out_of_fuel
    pub moves : (s' : Stream) (a : A) → p s ≡ ok (a, s') → (m : ℕ) × (n ≤ m) × After s s' m

  abbrev pub Reads : {A : Type 0} → Parser Stream A → ℕ → Type 0
  Reads p n = (s : Stream) → ReadsAt p s n

  le_or_lt : (a b : ℕ) → (a ≤ b) ⊎ (b < a)
  le_or_lt a b = elim (Bool-cases (leb a b)) [
    | inl e ↦ inl (ground arith)
    | inr e ↦ inr (ground arith)
  ]

  pub Takes-Reads : {A : Type 0} {p : Parser Stream A} {n : ℕ} → Takes k p n → Reads p n
  Takes-Reads {n} t s = elim (le_or_lt n (length (remaining s))) [
    | inl more ↦
        let (b, s₁, e₁, r, q) = t.enough s more in
        record {
          safe = λ bad. cc;
          moves = λ s' a e.
              let same : s' ≡ s₁ = cc in
              (n, omega arith, rw same (record { fits = more; rest = r; moved = q }));
        }
    | inr few ↦ let e₁ = t.short s few in record { safe = λ bad. cc; moves = λ s' a e. cc }
  ]

  pub raise-Reads :
      {A : Type 0} (x : Exception) (n : ℕ) → x ≢ out_of_fuel → Reads (raise {A = A} x) n
  unfolding raise
  raise-Reads x n h s = record { safe = λ bad. h (throw-injective bad); moves = λ s' a e. cc }

  pub pure-Reads : {A : Type 0} (a : A) → Reads (pure a) 0
  unfolding pure
  pure-Reads a s = record {
    safe = λ bad. cc;
    moves = λ s' b e. let same : s' ≡ s = cc in (0, omega arith, rw same (After-refl s));
  }

  -- More was read than is claimed.
  pub weaken-ReadsAt :
      {A : Type 0} {p : Parser Stream A} {s : Stream} {m n : ℕ}
      → n ≤ m
      → ReadsAt p s m
      → ReadsAt p s n
  weaken-ReadsAt le r = record {
    safe = r.safe;
    moves = λ s' a e. let (j, le_j, after) = r.moves s' a e in (j, omega arith, after);
  }

  -- Sequencing at one stream: the second reader starts where the first one stops.
  pub bind-ReadsAt :
      {A B : Type 0} {p : Parser Stream A} (f : A → Parser Stream B) {s : Stream} {m n : ℕ}
      → ReadsAt p s m
      → ((a : A) (s₁ : Stream) (j : ℕ) → m ≤ j → After s s₁ j → ReadsAt (f a) s₁ n)
      → ReadsAt (p >>= f) s (m + n)
  unfolding ◌>>=◌
  bind-ReadsAt {p} f {s} {m} {n} rp rf = elim (Outcome-cases (p s)) [
    | inl ((a, s₁), e) ↦
        let (i, le_i, after_i) = rp.moves s₁ a e in
        let rest = rf a s₁ i le_i after_i in
        record {
          safe = λ bad. rest.safe (rw e at bad);
          moves = λ s' b h.
              let (j, le_j, after_j) = rest.moves s' b (rw e at h) in
              (i + j, omega arith, After-trans after_i after_j);
        }
    | inr (x, e) ↦ record {
      safe = λ bad. rp.safe (e ∙ ap throw (throw-injective (rw e at bad)));
      moves = λ s' b h. let bad = rw e at h in cc;
    }
  ]

  pub bind-Reads :
      {A B : Type 0} {p : Parser Stream A} (f : A → Parser Stream B) {m n : ℕ}
      → Reads p m
      → ((a : A) → Reads (f a) n)
      → Reads (p >>= f) (m + n)
  bind-Reads f rp rf s = bind-ReadsAt f (rp s) λ a s₁ _ _ _. rf a s₁

  -- Readers that agree at a stream.
  pub same-ReadsAt :
      {A : Type 0} {p q : Parser Stream A} {s : Stream} {n : ℕ}
      → p s ≡ q s
      → ReadsAt q s n
      → ReadsAt p s n
  same-ReadsAt e r = record {
    safe = λ bad. r.safe (sym e ∙ bad);
    moves = λ s' a h. r.moves s' a (sym e ∙ h);
  }

  pub branch-ReadsAt :
      {A : Type 0} (test : Stream → Bool) {p q : Parser Stream A} {s : Stream} {n : ℕ}
      → (test s ≡ true → ReadsAt p s n)
      → (test s ≡ false → ReadsAt q s n)
      → ReadsAt (branch k test p q) s n
  branch-ReadsAt test {p} {q} {s} rp rq = elim (Bool-cases (test s)) [
    | inl e ↦ same-ReadsAt (branch-true k test p q s e) (rp e)
    | inr e ↦ same-ReadsAt (branch-false k test p q s e) (rq e)
  ]

  -- A loop whose reader takes something in each round ends before its fuel does.
  module _ {A : Type 0} {p : Parser Stream A} {n : ℕ} (rp : Reads p (suc n)) where
    repeat_until-ReadsAt :
        (fuel : ℕ) (stop : ℕ → Bool) (i : ℕ) (s : Stream)
        → length (remaining s) < fuel
        → ReadsAt (repeat_until k fuel stop i p) s (suc n)
    unfolding repeat_until
    repeat_until-ReadsAt zero stop i s lt = absurd (omega arith)
    repeat_until-ReadsAt (suc fuel) stop i s lt = weaken-ReadsAt (omega arith) (
        bind-ReadsAt _ {n = 0} (rp s) λ a s₁ j le after.
          branch-ReadsAt _ (λ _. pure-Reads (a ∷ []) s₁)
            (λ _. weaken-ReadsAt (omega arith) (
              bind-ReadsAt _ {n = 0}
                (repeat_until-ReadsAt fuel stop (suc i) s₁ (omega (arith, After-length after)))
                λ bs s₂ _ _ _. pure-Reads (a ∷ bs) s₂)))

    pub optional_repeat-Reads : (stop : ℕ → Bool) → Reads (optional_repeat k stop p) 0
    unfolding optional_repeat
    optional_repeat-Reads stop s = same-ReadsAt refl (
        branch-ReadsAt _ (λ _. pure-Reads none s)
          (λ _. weaken-ReadsAt (omega arith) (
            bind-ReadsAt _ {n = 0} (repeat_until-ReadsAt (fuel_of k s) stop 0 s (omega arith))
              λ bs s₂ _ _ _. pure-Reads (some bs) s₂)))

  -- A reader whose result is put under a constructor.
  pub map-Reads :
      {A B : Type 0} {p : Parser Stream A} (g : A → B) {n : ℕ}
      → Reads p n
      → Reads (p >>= λ a. pure (g a)) 0
  map-Reads g rp s = weaken-ReadsAt (omega arith) (bind-Reads _ rp (λ a. pure-Reads (g a)) s)

  pub loose : {A : Type 0} {p : Parser Stream A} {n : ℕ} → Reads p n → Reads p 0
  loose rp s = weaken-ReadsAt (omega arith) (rp s)
