-- ===== src/Stream/Decodes.antt =====
-- Round trips over a stream: `Decodes p a bs` says that `p` reads the bytes `bs`, whatever follows
-- them, returns `a` and stops behind them; `DecodesAll` says so where nothing follows.
use nanocap.Prelude.{
  ℕ, ◌+◌, ◌≡◌, refl, ◌∙◌, sym, ap, arith, length, length-append, take, drop, take-append,
  drop-append, [], ◌++◌, append-nil, append_assoc, Parser, ok, pure, ◌>>=◌,
}
use nanocap.Stream.{KStream, Bytes}

module _ (k : KStream) where
  open k use {Stream, remaining, pos, read_bytes}

  pub record Decodes {A : Type 0} (p : Parser Stream A) (a : A) (bs : Bytes) : Type 0 where
    pub decoded :
        (s : Stream) (rest : Bytes)
        → remaining s ≡ bs ++ rest
        → (s' : Stream) × (p s ≡ ok (a, s')) × (remaining s' ≡ rest) × (pos s' ≡ pos s + length bs)

  pub record DecodesAll {A : Type 0} (p : Parser Stream A) (a : A) (bs : Bytes) : Type 0 where
    pub decoded_all :
        (s : Stream)
        → remaining s ≡ bs
        → (s' : Stream) × (p s ≡ ok (a, s')) × (remaining s' ≡ []) × (pos s' ≡ pos s + length bs)

  pub Decodes-DecodesAll :
      {A : Type 0} {p : Parser Stream A} {a : A} {bs : Bytes} → Decodes p a bs → DecodesAll p a bs
  Decodes-DecodesAll {bs} d = record {
    decoded_all = λ s h. d.decoded s [] (h ∙ sym (append-nil bs));
  }

  pub pure-Decodes : {A : Type 0} (a : A) → Decodes (pure a) a []
  unfolding pure
  pure-Decodes a = record { decoded = λ s rest h. (s, refl, h, omega arith) }

  pub read_bytes-Decodes : (bs : Bytes) → Decodes (read_bytes (length bs)) bs bs
  read_bytes-Decodes bs = record {
    decoded = λ s rest h.
        let (s', e, r, q) =
          k.read_bytes_enough (length bs) s (omega (arith, ap length h, length-append bs rest)) in
        (
          s',
          e ∙ ap (λ x. ok (x, s')) (ap (λ x. take (length bs) x) h ∙ take-append bs rest),
          r ∙ ap (drop (length bs)) h ∙ drop-append bs rest,
          q,
        );
  }

  pub bytes-Decodes : (n : ℕ) (bs : Bytes) → length bs ≡ n → Decodes (read_bytes n) bs bs
  bytes-Decodes n bs h = rw (← h) (read_bytes-Decodes bs)

  pub bind-Decodes :
      {A B : Type 0} {p : Parser Stream A} {a : A} {b : B} {xs ys : Bytes} (f : A → Parser Stream B)
      → Decodes p a xs
      → Decodes (f a) b ys
      → Decodes (p >>= f) b (xs ++ ys)
  unfolding ◌>>=◌
  bind-Decodes {xs} {ys} f dp df = record {
    decoded = λ s rest h.
        let (s₁, e₁, r₁, q₁) = dp.decoded s (ys ++ rest) (h ∙ append_assoc xs ys rest) in
        let (s₂, e₂, r₂, q₂) = df.decoded s₁ rest r₁ in
        (s₂, rw e₁ e₂, r₂, omega (arith, length-append xs ys));
  }

  pub bind-DecodesAll :
      {A B : Type 0} {p : Parser Stream A} {a : A} {b : B} {xs ys : Bytes} (f : A → Parser Stream B)
      → Decodes p a xs
      → DecodesAll (f a) b ys
      → DecodesAll (p >>= f) b (xs ++ ys)
  unfolding ◌>>=◌
  bind-DecodesAll {xs} {ys} f dp df = record {
    decoded_all = λ s h.
        let (s₁, e₁, r₁, q₁) = dp.decoded s ys h in
        let (s₂, e₂, r₂, q₂) = df.decoded_all s₁ r₁ in
        (s₂, rw e₁ e₂, r₂, omega (arith, length-append xs ys));
  }

  pub map-DecodesAll :
      {A B : Type 0} {p : Parser Stream A} {a : A} {bs : Bytes} (f : A → B)
      → DecodesAll p a bs
      → DecodesAll (p >>= λ x. pure (f x)) (f a) bs
  unfolding ◌>>=◌ pure
  map-DecodesAll f d = record {
    decoded_all = λ s h. let (s', e, r, q) = d.decoded_all s h in (s', rw e refl, r, q);
  }

  pub map-Decodes :
      {A B : Type 0} {p : Parser Stream A} {a : A} {bs : Bytes} (f : A → B)
      → Decodes p a bs
      → Decodes (p >>= λ x. pure (f x)) (f a) bs
  unfolding ◌>>=◌ pure
  map-Decodes f d = record {
    decoded = λ s rest h. let (s', e, r, q) = d.decoded s rest h in (s', rw e refl, r, q);
  }
