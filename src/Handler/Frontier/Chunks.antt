-- ===== src/Handler/Frontier/Chunks.antt =====
-- How the bytes of a response are cut into packets makes no difference.
use nanocap.Prelude.{
  ◌+◌, ◌≤◌, ◌<◌, ◌≡◌, refl, sym, ◌∙◌, ap, arith, List, [], ◌∷◌, ◌++◌, length, length-append,
  append_assoc, All, if◌then◌else◌,
}
use nanocap.Stream.{KStream, Bytes}
use nanocap.Flow.{CircularBuffer, TcpFlowData, NanoPacket, capacity}
use nanocap.Protocol.Bootstrap.{FrontierEntry}
use nanocap.Protocol.Encode.{encode_frontier_entry}
use nanocap.Db.{Env, Db}
use nanocap.Db.Bootstrap.{put_frontier_entry}
use nanocap.Handler.Session.{Session, if_details}
use nanocap.Handler.Frontier.{accept_frontier, handle_frontier}
use nanocap.Handler.Frontier.Split.{
  IsOpen, wire, accept_all, bytes_of, with_payload, handle_frontier-open,
}

All-append {ℓ} :
    {A : Type 0} (P : A → Type ℓ) (xs ys : List A) → All P xs → All P ys → All P (xs ++ ys)
All-append P [] ys hx hy = hy
All-append P (x ∷ xs) ys (h, hx) hy = (h, All-append P xs ys hx hy)

wire-append : (xs ys : List FrontierEntry) → wire (xs ++ ys) ≡ wire xs ++ wire ys
wire-append [] ys = refl
wire-append (x ∷ xs) ys =
    ap (λ t. encode_frontier_entry x ++ t) (wire-append xs ys)
    ∙ sym (append_assoc (encode_frontier_entry x) (wire xs) (wire ys))

module _ (k : KStream) (cb : CircularBuffer) (env : Env) where
  open cb use {Buffer}

  -- The database after entries for the request of a given id.
  put_all : List FrontierEntry → TcpFlowData Buffer → Db → Db
  put_all [] flow db = db
  put_all (e ∷ es) flow db = put_all es flow (if_details cb env (put_frontier_entry env e flow) db)

  put-same :
      (e : FrontierEntry) (f g : TcpFlowData Buffer) (db : Db)
      → f.message_id ≡ g.message_id
      → put_frontier_entry env e f db ≡ put_frontier_entry env e g db
  unfolding put_frontier_entry
  put-same e f g db h = ap (λ m. put_frontier_entry env e (record f { message_id = m }) db) h

  put_all-same :
      (es : List FrontierEntry) (f g : TcpFlowData Buffer) (db : Db)
      → f.message_id ≡ g.message_id
      → put_all es f db ≡ put_all es g db
  unfolding put_all
  put_all-same [] f g db h = refl
  put_all-same (e ∷ es) f g db h =
      ap (λ d. put_all es f (if env.bootstrap_details then d else db)) (put-same e f g db h)
      ∙ put_all-same es f g _ h

  put_all-append :
      (xs ys : List FrontierEntry) (f : TcpFlowData Buffer) (db : Db)
      → put_all (xs ++ ys) f db ≡ put_all ys f (put_all xs f db)
  unfolding put_all
  put_all-append [] ys f db = refl
  put_all-append (x ∷ xs) ys f db = put_all-append xs ys f _

  -- What a session shows: the rows, the count of entries and the id of the request.
  accepted :
      (es : List FrontierEntry) (s : Session cb)
      → ((accept_all k cb env es s).1 ≡ put_all es s.0 s.1)
        × ((accept_all k cb env es s).0.response_count ≡ s.0.response_count + length es)
        × ((accept_all k cb env es s).0.message_id ≡ s.0.message_id)
  unfolding put_all accept_frontier
  accepted [] s = (refl, omega arith, refl)
  accepted (e ∷ es) (flow, db) =
      let s' = accept_frontier k cb env e 64 (flow, db) in
      let (rows, count, id) = accepted es s' in
      (rows ∙ put_all-same es s'.0 flow _ refl, omega (arith, count), id)

  -- A response cut into two packets, anywhere, leaves what one packet with the same bytes leaves:
  -- the same database, the same count of entries and the same bytes in the buffer. The buffer and
  -- both packets together hold at most 4096 bytes; after the first packet, and after the second,
  -- the bytes are open entries and less than one more.
  pub handle_frontier-chunks :
      (info₁ info₂ info : NanoPacket) (s : Session cb) (es₁ es₂ : List FrontierEntry)
      (r₁ r₂ : Bytes)
      → All IsOpen es₁
      → All IsOpen es₂
      → bytes_of k cb env s ++ info₁.payload ≡ wire es₁ ++ r₁
      → r₁ ++ info₂.payload ≡ wire es₂ ++ r₂
      → length r₁ < 64
      → length r₂ < 64
      → info.payload ≡ info₁.payload ++ info₂.payload
      → length (bytes_of k cb env s) + length info.payload ≤ capacity
      → let two = (handle_frontier k cb env info₂ (handle_frontier k cb env info₁ s).0).0 in
        let one = (handle_frontier k cb env info s).0 in
        (two.1 ≡ one.1)
        × (two.0.response_count ≡ one.0.response_count)
        × (bytes_of k cb env two ≡ bytes_of k cb env one)
  handle_frontier-chunks info₁ info₂ info s es₁ es₂ r₁ r₂ h₁ h₂ e₁ e₂ l₁ l₂ cut fits =
      let len = ap length cut ∙ length-append info₁.payload info₂.payload in
      let a₁ = with_payload k cb env info₁ s in
      let (run₁, left₁) = handle_frontier-open k cb env info₁ s es₁ r₁ h₁ e₁ l₁ (omega arith) in
      let s₁ = accept_all k cb env es₁ a₁ in
      let e₂' : bytes_of k cb env s₁ ++ info₂.payload ≡ wire es₂ ++ r₂ =
        ap (λ t. t ++ info₂.payload) left₁ ∙ e₂ in
      let few : length (bytes_of k cb env s₁) + length info₂.payload ≤ capacity = omega (
        arith,
        ap length left₁,
        ap length e₁,
        length-append (wire es₁) r₁,
        length-append (bytes_of k cb env s) info₁.payload,
      ) in
      let (run₂, left₂) = handle_frontier-open k cb env info₂ s₁ es₂ r₂ h₂ e₂' l₂ few in
      let whole : bytes_of k cb env s ++ info.payload ≡ wire (es₁ ++ es₂) ++ r₂ =
        ap (λ t. bytes_of k cb env s ++ t) cut
        ∙ sym (append_assoc (bytes_of k cb env s) info₁.payload info₂.payload)
        ∙ ap (λ t. t ++ info₂.payload) e₁
        ∙ append_assoc (wire es₁) r₁ info₂.payload
        ∙ ap (λ t. wire es₁ ++ t) e₂
        ∙ sym (append_assoc (wire es₁) (wire es₂) r₂)
        ∙ ap (λ t. t ++ r₂) (sym (wire-append es₁ es₂)) in
      let (run, left) =
        handle_frontier-open k cb env info s (es₁ ++ es₂) r₂ (All-append IsOpen es₁ es₂ h₁ h₂) whole
          l₂ fits in
      let a = with_payload k cb env info s in
      let (rows₁, count₁, id₁) = accepted es₁ a₁ in
      let (rows₂, count₂, id₂) = accepted es₂ (with_payload k cb env info₂ s₁) in
      let (rows, count, id) = accepted (es₁ ++ es₂) a in
      rw (run₁, run₂, run)
        (
          rows₂
              ∙ put_all-same es₂ (with_payload k cb env info₂ s₁).0 a₁.0 s₁.1 id₁
              ∙ ap (put_all es₂ a₁.0) rows₁
              ∙ sym (put_all-append es₁ es₂ a₁.0 s.1)
              ∙ put_all-same (es₁ ++ es₂) a₁.0 a.0 s.1 refl
              ∙ sym rows,
          omega (arith, count, count₁, count₂, length-append es₁ es₂),
          left₂ ∙ sym left,
        )
