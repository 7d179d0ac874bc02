-- ===== src/Web/Within.antt =====
-- The test that a path is within the root.
use nanocap.Prelude.{
  subst, append-nil, ℕ, ◌≤◌, ◌≡◌, refl, arith, if_both, Bool, true, [], ◌∷◌, ◌++◌, length, leb,
  ==_iff,
}
use nanocap.Stream.{Bytes}
use nanocap.Db.Query.{same_bytes}
use nanocap.Web.{
  FilePath, Files, starts_with, is_within, resolve, with_index, send_file, serve_static,
}

same_bytes_refl : (bs : Bytes) → same_bytes bs bs ≡ true
same_bytes_refl [] = refl
same_bytes_refl (b ∷ bs) = rw ((==_iff b b).1 refl) (same_bytes_refl bs)

starts_with-append : (root path : FilePath) → starts_with root (root ++ path) ≡ true
unfolding starts_with
starts_with-append [] path = refl
starts_with-append (r ∷ root) path = rw (same_bytes_refl r) (starts_with-append root path)

longer : (root path : FilePath) → length root ≤ length (root ++ path)
longer [] path = omega arith
longer (r ∷ root) path = omega (arith, longer root path)

leb-true : (a b : ℕ) → a ≤ b → leb a b ≡ true
leb-true a b h = ground arith

within-append : (root path : FilePath) → is_within root (root ++ path) ≡ true
unfolding is_within
within-append root path =
    rw (leb-true (length root) (length (root ++ path)) (longer root path))
      (starts_with-append root path)

module _ (files : Files) where
  open files use {parts, exists, file}

  resolve-within :
      (root : FilePath) (request_path : Bytes)
      → is_within root (resolve files root request_path) ≡ true
  unfolding resolve
  resolve-within root request_path =
      if_both (λ path. is_within root path ≡ true) (exists (root ++ parts request_path))
        (within-append root (parts request_path))
        (subst (λ path. is_within root path ≡ true) (append-nil root) (within-append root []))

  -- The response to a request for a static file is that without the test that its path is within
  -- the root: whatever parts the path of the request has, `..` among them, the test rejects it
  -- never.
  pub serve_static-unchecked :
      (root : FilePath) (sent : ℕ → Bool) (request_path : Bytes)
      → (let path = with_index files (resolve files root request_path) in
          serve_static files root sent request_path ≡ send_file files sent path (file path))
  unfolding serve_static
  serve_static-unchecked root sent request_path =
      rw (resolve-within root request_path, serve_static) refl
