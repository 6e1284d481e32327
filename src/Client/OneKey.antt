-- ===== src/Client/OneKey.antt =====
-- The one key of a process of client/src-tauri: what all its replies have to do with it.
use vtnet.Base.{
  ℕ, ◌≡◌, refl, sym, ◌∙◌, ap, subst, some, List, [], ◌∷◌, Result, ok, err, arith, IsArray,
  Result-cases, inl, inr, ◌⊎◌,
}
use vtnet.Text.{Text}
use vtnet.External.{Base64, IsBase64, Ed25519, Keyring}
use vtnet.Shared.Uid.{from_bytes}
use vtnet.Shared.Payload.{auth_nonce_bytes, auth_signature_payload}
use vtnet.Client
use vtnet.Client.{
  Process, SignAuthChallengeRequest, IdentityError, decode_nonce, signature_of, sign_with,
  store_seed, locked_load, load_or_create_signing_key,
}
use vtnet.Client.Identity.{IsCached, load-IsCached, load_of_IsCached}
use vtnet.Client.Commands.{
  Command, get_or_create_identity, sign_auth_challenge, Reply, identity, signature, Call, dispatch,
  invoke, run,
}

module _ (b : Base64) (c : Ed25519) where
  -- The text is a signature by the key, and over nothing but the payload of a handshake of the key's
  -- own uid, with the 32 bytes of the request's nonce.
  pub record IsSigned (key : c.SigningKey) (request : SignAuthChallengeRequest) (t : Text)
      : Type 0 where
    pub nonce : List ℕ
    pub nonce_array : IsArray auth_nonce_bytes nonce
    pub nonce_eq : b.decode request.nonce_base64 ≡ some nonce
    pub text_eq :
        t
        ≡ b.encode (
            c.signature_to_bytes (
              c.sign key (
                auth_signature_payload request.protocol_version nonce request.server_timestamp
                  (from_bytes (c.public_bytes key)))))

  -- A success is of this key; a failure tells nothing of it.
  abbrev pub IsReplyOf : c.SigningKey → Command → Reply → Type 0
  IsReplyOf key get_or_create_identity (identity (ok info)) =
      info.user_uid ≡ from_bytes (c.public_bytes key)
  IsReplyOf key get_or_create_identity (identity (err x)) = Unit {0}
  IsReplyOf key (sign_auth_challenge request) (signature (ok t)) = IsSigned key request t
  IsReplyOf key (sign_auth_challenge request) (signature (err x)) = Unit {0}
  IsReplyOf key _ _ = ⊥

  abbrev pub AreRepliesOf : {k : Keyring} → c.SigningKey → List (Call k) → List Reply → Type 0
  AreRepliesOf key [] [] = Unit {0}
  AreRepliesOf key (call ∷ calls) (reply ∷ replies) =
      IsReplyOf key call.command reply × AreRepliesOf key calls replies
  AreRepliesOf key _ _ = ⊥

module _ {b : Base64} (lawful : IsBase64 b) (k : Keyring) (c : Ed25519) where
  decode_nonce-IsArray :
      (t : Text) (nonce : List ℕ)
      → decode_nonce b t ≡ ok nonce
      → (b.decode t ≡ some nonce) × IsArray auth_nonce_bytes nonce
  unfolding decode_nonce
  decode_nonce-IsArray t nonce e = ground (arith, lawful.decode_bytes t nonce)

  -- A load that fails leaves the process as it was.
  load_err :
      (process : Process k) (fresh : List ℕ) {x : IdentityError}
      → (load_or_create_signing_key b k c process fresh).1 ≡ err x
      → (load_or_create_signing_key b k c process fresh).0 ≡ process
  unfolding load_or_create_signing_key locked_load store_seed
  load_err process fresh e = ground arith

  module _ (process : Process k) (fresh : List ℕ) where
    -- With the key at hand, the reply is of the key.
    dispatch-IsReplyOf :
        (key : c.SigningKey) (command : Command)
        → (load_or_create_signing_key b k c process fresh).1 ≡ ok key
        → IsReplyOf b c key command (dispatch b k c process fresh command).1
    unfolding Client.get_or_create_identity Client.sign_auth_challenge sign_with signature_of
    dispatch-IsReplyOf key get_or_create_identity e = rw e refl
    dispatch-IsReplyOf key (sign_auth_challenge request) e =
        elim (Result-cases (decode_nonce b request.nonce_base64)) [
          | inl (nonce, q) ↦
              let (decoded, array) = decode_nonce-IsArray request.nonce_base64 nonce q in
              rw (q, e)
                (record { nonce = nonce; nonce_array = array; nonce_eq = decoded; text_eq = refl })
          | inr (x, q) ↦ rw q tt
        ]

    -- With no key, the reply is a failure.
    dispatch_failed :
        (key : c.SigningKey) (command : Command) {x : IdentityError}
        → (load_or_create_signing_key b k c process fresh).1 ≡ err x
        → IsReplyOf b c key command (dispatch b k c process fresh command).1
    unfolding Client.get_or_create_identity Client.sign_auth_challenge sign_with
    dispatch_failed key get_or_create_identity e = rw e tt
    dispatch_failed key (sign_auth_challenge request) e =
        elim (Result-cases (decode_nonce b request.nonce_base64)) [
          | inl (nonce, q) ↦ rw (q, e) tt
          | inr (x, q) ↦ rw q tt
        ]

    -- A command leaves the process as the load of the key does, or as it was, with a failure.
    dispatch_state :
        (command : Command)
        → let out = dispatch b k c process fresh command in
          (out.0 ≡ (load_or_create_signing_key b k c process fresh).0)
          ⊎ ((out.0 ≡ process) × ((key : c.SigningKey) → IsReplyOf b c key command out.1))
    unfolding Client.get_or_create_identity Client.sign_auth_challenge sign_with
    dispatch_state get_or_create_identity = inl refl
    dispatch_state (sign_auth_challenge request) =
        elim (Result-cases (decode_nonce b request.nonce_base64)) [
          | inl (nonce, q) ↦ rw q (inl refl)
          | inr (x, q) ↦ rw q (inr (refl, λ key. tt))
        ]

    -- After a command the process has a key, of which the reply is; or it is as it was, and the
    -- reply fits any key.
    Settles : Command → Type 0
    Settles command =
        let out = dispatch b k c process fresh command in
        ((key : c.SigningKey) × IsCached b k c out.0 key × IsReplyOf b c key command out.1)
        ⊎ ((out.0 ≡ process) × ((key : c.SigningKey) → IsReplyOf b c key command out.1))

    dispatch-Settles : (command : Command) → Settles command
    unfolding Settles
    dispatch-Settles command = elim (dispatch_state command) [
      | inr unchanged ↦ inr unchanged
      | inl same ↦ elim (Result-cases (load_or_create_signing_key b k c process fresh).1) [
        | inl (key, e) ↦ inl (
          key,
          subst (λ p. IsCached b k c p key) (sym same)
              (load-IsCached b k c process _ fresh
                (λ i. ((load_or_create_signing_key b k c process fresh).0, e i))),
          dispatch-IsReplyOf key command e,
        )
        | inr (x, e) ↦ inr (same ∙ load_err process fresh e, λ key. dispatch_failed key command e)
      ]
    ]

    -- A process that has a key keeps it, and its reply is of that key.
    dispatch_of_key :
        (key : c.SigningKey) (command : Command)
        → IsCached b k c process key
        → IsCached b k c (dispatch b k c process fresh command).0 key
          × IsReplyOf b c key command (dispatch b k c process fresh command).1
    dispatch_of_key key command h =
        let e = load_of_IsCached b k c process fresh key h in
        (
          elim (dispatch_state command) [
            | inl same ↦
                subst (λ p. IsCached b k c p key)
                  (sym (same ∙ ap (λ (r : Process k × Result c.SigningKey IdentityError). r.0) e)) h
            | inr (same, fits) ↦ subst (λ p. IsCached b k c p key) (sym same) h
          ],
          dispatch-IsReplyOf key command
              (ap (λ (r : Process k × Result c.SigningKey IdentityError). r.1) e),
        )

  -- A process keeps its key under whatever keyring.
  moved-IsCached :
      (process : Process k) (ring : k.State) (key : c.SigningKey)
      → IsCached b k c process key
      → IsCached b k c (record process { keyring = ring }) key
  moved-IsCached process ring key h = record {
    seed = h.seed;
    cached = h.cached;
    unpoisoned = h.unpoisoned;
    key_eq = h.key_eq;
  }

  run_of_key :
      (process : Process k) (key : c.SigningKey) (calls : List (Call k))
      → IsCached b k c process key
      → AreRepliesOf b c key calls (run b k c process calls)
  unfolding run invoke
  run_of_key process key [] h = tt
  run_of_key process key (call ∷ calls) h =
      let (kept, reply) =
        dispatch_of_key (record process { keyring = call.keyring }) call.fresh key call.command
          (moved-IsCached process call.keyring key h) in
      (
        reply,
        run_of_key
            (dispatch b k c (record process { keyring = call.keyring }) call.fresh call.command).0
            key calls kept,
      )

  -- If Base64 decodes to bytes, then whatever a frontend calls, and whatever becomes of the keyring
  -- between the calls, all successful replies of a process are of one key: every identity is the uid
  -- of that key, and every signature is by that key, over the payload of a handshake of that uid with
  -- the 32-byte nonce, the version and the time of the request, and over nothing else.
  pub one_key :
      (process : Process k) (calls : List (Call k))
      → (key : c.SigningKey) × AreRepliesOf b c key calls (run b k c process calls)
  unfolding run invoke Settles
  one_key process [] = (c.signing_key [], tt)
  one_key process (call ∷ calls) =
      elim (dispatch-Settles (record process { keyring = call.keyring }) call.fresh call.command) [
        | inl (key, cached, reply) ↦ (
          key,
          (
            reply,
            run_of_key
                (dispatch b k c (record process { keyring = call.keyring }) call.fresh
                  call.command).0
                key calls cached,
          ),
        )
        | inr (same, fits) ↦
            let (key, replies) =
              one_key
                (dispatch b k c (record process { keyring = call.keyring }) call.fresh
                  call.command).0
                calls in
            (key, (fits key, replies))
      ]
