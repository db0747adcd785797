-- ===== src/Bundler/Methods/Sent.antt =====
-- What SendUserOp sends.
use aa_sdk_go.Prelude.{◌≡◌, refl, ap, Option, none, some, [], ◌∷◌, length}
use mathlib.Core.Path.{subst}
use aa_sdk_go.Prelude.Outcome.{ok, wrapping, wrapping-eq-ok}
use aa_sdk_go.Prelude.State.{>>=-eq-ok, wrapped, wrapped-eq-ok, lift-eq-ok}
use aa_sdk_go.Bytes.{Bytes, Hash}
use aa_sdk_go.Ethereum.{Ethereum, IsDocumented}
use aa_sdk_go.UserOperation.Body.{to_body}
use aa_sdk_go.Client.{Client, Node}
use aa_sdk_go.Client.Fill.{fill_and_sign}
use aa_sdk_go.Client.Fill.Agreement.{Consistent, PaymasterGas}
use aa_sdk_go.Client.Fill.Signed.{fill_and_sign-Consistent}
use aa_sdk_go.Bundler.{Http, Calling, Param, Response, call, answered}
use aa_sdk_go.Bundler.Methods.{Json, Sending, filling, calling, send_user_op}

-- A result comes with no error.
answered-ok :
    {A : Type 0} (r : Response A) {a : A} → answered r ≡ ok a → (r.error ≡ none) × (r.result ≡ a)
unfolding answered
answered-ok {A} r {a} e = by_error r.error refl e
  where
    by_error :
        (o : Option _)
        → r.error ≡ o
        → answered (record r { error = o }) ≡ ok a
        → (r.error ≡ none) × (r.result ≡ a)
    by_error none there h = (there, cc h)
    by_error (some x) there h = cc h

module _ {Key Abi Rotator Req Res Receipt Net : Type 0} (g : Ethereum Key Abi)
    (doc : IsDocumented g) (node : Node Net) (http : Http Req Res Net) (json : Json Receipt)
    (c : Client Key Abi Rotator) where
  -- The operation that was sent, and the bundler's answer.
  pub record Sent (signer : Option Key) (t : Sending Net) (answer : Hash) : Type 0 where
    pub signed_hash : Hash
    pub consistent : Consistent g c signer t.op signed_hash
    pub before : Calling Net
    pub bytes : Bytes
    pub sent :
        call http c.config.bundler_url "eth_sendUserOperation"
          (Param.body (to_body g t.op) ∷ Param.address c.config.entrypoint ∷ [])
          before
        ≡ (ok bytes, t.calling)
    pub response : Response Hash
    pub decoded : json.hash bytes ≡ ok response
    pub no_error : response.error ≡ none
    pub result : response.result ≡ answer

  -- Where SendUserOp answers a hash, the body that it sent to the bundler is that of the caller's
  -- operation as it was left, this operation carries the signer's and the paymaster's signatures of
  -- its own hashes, and the answer is the result of a response without an error. The two paymaster gas
  -- limits are below 2^128 and the configured paymaster is an address.
  pub send_user_op-Sent :
      (signer : Option Key) (s t : Sending Net) (answer : Hash)
      → length c.config.paymaster_address ≡ 20
      → PaymasterGas s.op
      → send_user_op g node http json c signer s ≡ (ok answer, t)
      → Sent signer t answer
  unfolding send_user_op
  send_user_op-Sent signer s t answer l gas e =
      let (hash, u, e₁, r₁) =
        >>=-eq-ok (wrapped "error fill and sign userop" (filling (fill_and_sign g node c signer))) _
          e in
      let filled =
        wrapped-eq-ok "error fill and sign userop" (filling (fill_and_sign g node c signer)) e₁ in
      let (bytes, v, e₂, r₂) =
        >>=-eq-ok
          (wrapped "error calling eth_sendUserOperation" (
            calling (
              call http c.config.bundler_url "eth_sendUserOperation"
                (Param.body (to_body g u.op) ∷ Param.address c.config.entrypoint ∷ []))))
          _ r₁ in
      let (response, e₃, r₃) =
        lift-eq-ok (wrapping "error unmarshalling when sending user operation" (json.hash bytes)) v
          _ r₂ in
      finish hash u bytes v response
        (fill_and_sign-Consistent g doc node c signer (record { op = s.op; net = s.calling.net })
          (record { op = u.op; net = u.calling.net }) hash l gas
          (λ i. ((filled i).0, record { op = (filled i).1.op; net = (filled i).1.calling.net })))
        (wrapped-eq-ok "error calling eth_sendUserOperation"
          (calling (
            call http c.config.bundler_url "eth_sendUserOperation"
              (Param.body (to_body g u.op) ∷ Param.address c.config.entrypoint ∷ [])))
          e₂)
        (wrapping-eq-ok _ _ e₃) (ap (λ r. r.0) r₃) (ap (λ r. r.1) r₃)
    where
      finish :
          (hash : Hash) (u : Sending Net) (bytes : Bytes) (v : Sending Net)
          (response : Response Hash)
          → Consistent g c signer u.op hash
          → calling
              (call http c.config.bundler_url "eth_sendUserOperation"
                (Param.body (to_body g u.op) ∷ Param.address c.config.entrypoint ∷ []))
              u
            ≡ (ok bytes, v)
          → json.hash bytes ≡ ok response
          → answered response ≡ ok answer
          → v ≡ t
          → Sent signer t answer
      finish hash u bytes v response consistent sent decoded result last =
          subst (λ w. Sent signer w answer) last
            (record {
              signed_hash = hash;
              consistent =
                  subst (λ o. Consistent g c signer o hash) (ap (λ r. r.1.op) sent) consistent;
              before = u.calling;
              bytes = bytes;
              sent =
                  subst
                    (λ o.
                      call http c.config.bundler_url "eth_sendUserOperation"
                        (Param.body (to_body g o) ∷ Param.address c.config.entrypoint ∷ [])
                        u.calling
                      ≡ (ok bytes, v.calling))
                    (ap (λ r. r.1.op) sent) (λ i. ((sent i).0, (sent i).1.calling));
              response = response;
              decoded = decoded;
              no_error = (answered-ok response result).0;
              result = (answered-ok response result).1;
            })
