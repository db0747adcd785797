-- ===== src/Client/Fill/Stages.antt =====
-- What each stage of FillAndSign has done when it succeeds.
use aa_sdk_go.Prelude.{◌≡◌, ◌≢◌, refl, sym, ap, ◌∙◌, Option, none, some, ◌⊎◌, inl, inr}
use aa_sdk_go.Prelude.Int.{ℤ}
use aa_sdk_go.Prelude.Outcome.{ok, wrapping, wrapping-eq-ok}
use aa_sdk_go.Prelude.State.{Action, wrapped, >>=-eq-ok, wrapped-eq-ok, lift-eq-ok, same_return}
use aa_sdk_go.Bytes.{Bytes, Hash}
use aa_sdk_go.UserOperation.{UserOperation, PackedUserOperation}
use aa_sdk_go.Ethereum.{Ethereum}
use aa_sdk_go.Packing.{
  encode_paymaster_data, pack_user_operation, packed_for_paymaster, empty_signature,
}
use aa_sdk_go.Hashing.{get_user_op_hash, get_paymaster_hash}
use aa_sdk_go.Signing.{sign_message, sign_user_op}
use aa_sdk_go.Signing.Laws.{sign_user_op-ok}
use aa_sdk_go.Client.{Client, Node}
use aa_sdk_go.Client.Fill.{
  Filling, on_net, nonce_or_fetched, valid_until, valid_after, fill_nonce, fill_paymaster,
  fill_signature,
}

-- A call of the network leaves the operation alone.
pub on_net-ok :
    {Net A : Type 0} (m : Action Net A) (s u : Filling Net) {a : A}
    → on_net m s ≡ (ok a, u)
    → (m s.net ≡ (ok a, u.net)) × (u.op ≡ s.op)
on_net-ok m s u e = ((λ i. ((e i).0, (e i).1.net)), sym (ap (λ r. r.1.op) e))

module _ {Key Abi Rotator Net : Type 0} (g : Ethereum Key Abi) (node : Node Net)
    (c : Client Key Abi Rotator) where
  -- What the paymaster has signed, for `op` before the paymaster's fields are filled in.
  pub record PaymasterSigned (op : UserOperation) (paymaster_data' : Bytes) : Type 0 where
    pub unsigned : Bytes
    pub packed : PackedUserOperation
    pub hash : Hash
    pub sig : Bytes
    pub encoded_empty :
        encode_paymaster_data g valid_until valid_after empty_signature ≡ ok unsigned
    pub packed_op :
        packed_for_paymaster g (record op { paymaster = c.config.paymaster_address }) unsigned
        ≡ ok packed
    pub hashed : get_paymaster_hash g packed c.chain_id valid_until valid_after ≡ ok hash
    pub signed : sign_message g c.config.verifying_signer hash ≡ ok sig
    pub encoded : encode_paymaster_data g valid_until valid_after sig ≡ ok paymaster_data'

  pub fill_paymaster-ok :
      {s t : Filling Net}
      → fill_paymaster g node c s ≡ (ok tt, t)
      → (paymaster_data' : Bytes) × PaymasterSigned s.op paymaster_data'
        × (t ≡ record s {
          op = record s.op {
            paymaster = c.config.paymaster_address;
            paymaster_data = paymaster_data';
          };
        })
  unfolding fill_paymaster
  fill_paymaster-ok {s} e =
      let op : UserOperation = record s.op { paymaster = c.config.paymaster_address } in
      let (u, e₁, r₁) =
        lift-eq-ok
          (wrapping "error encoding paymaster data"
            (encode_paymaster_data g valid_until valid_after empty_signature))
          s _ e in
      let (p, e₂, r₂) = lift-eq-ok (packed_for_paymaster g op u) _ _ r₁ in
      let (h, e₃, r₃) =
        lift-eq-ok
          (wrapping "error getting paymaster data"
            (get_paymaster_hash g p c.chain_id valid_until valid_after))
          _ _ r₂ in
      let (sig, e₄, r₄) =
        lift-eq-ok
          (wrapping "error signing paymaster data" (sign_message g c.config.verifying_signer h)) _ _
          r₃ in
      let (d, e₅, r₅) =
        lift-eq-ok
          (wrapping "error encoding paymaster data"
            (encode_paymaster_data g valid_until valid_after sig))
          _ _ r₄ in
      (
        d,
        record {
          unsigned = u;
          packed = p;
          hash = h;
          sig = sig;
          encoded_empty = wrapping-eq-ok _ _ e₁;
          packed_op = e₂;
          hashed = wrapping-eq-ok _ _ e₃;
          signed = wrapping-eq-ok _ _ e₄;
          encoded = wrapping-eq-ok _ _ e₅;
        },
        sym (ap (λ r. r.1) r₅),
      )

  pub fill_signature-ok :
      (signer : Option Key) (s t : Filling Net) (hash : Hash)
      → fill_signature g node c signer s ≡ (ok hash, t)
      → (packed : PackedUserOperation) × (sig : Bytes) × (pack_user_operation g (some s.op)
          ≡ ok packed)
        × (get_user_op_hash g packed c.config.entrypoint c.chain_id ≡ ok hash)
        × (sign_message g signer hash ≡ ok sig)
        × (t ≡ record s { op = record s.op { signature = sig } })
  unfolding fill_signature
  fill_signature-ok signer s t hash e =
      let (p, e₁, r₁) = lift-eq-ok (pack_user_operation g (some s.op)) _ _ e in
      let (signed, e₂, r₂) =
        lift-eq-ok
          (wrapping "error signing user operation"
            (sign_user_op g c.config.entrypoint c.chain_id p signer))
          _ _ r₁ in
      finish p signed e₁ (wrapping-eq-ok _ _ e₂) (same_return r₂).0 (same_return r₂).1
    where
      finish :
          (p : PackedUserOperation) (signed : Bytes × Hash)
          → pack_user_operation g (some s.op) ≡ ok p
          → sign_user_op g c.config.entrypoint c.chain_id p signer ≡ ok signed
          → signed.1 ≡ hash
          → record s { op = record s.op { signature = signed.0 } } ≡ t
          → (packed : PackedUserOperation) × (sig : Bytes) × (pack_user_operation g (some s.op)
              ≡ ok packed)
            × (get_user_op_hash g packed c.config.entrypoint c.chain_id ≡ ok hash)
            × (sign_message g signer hash ≡ ok sig)
            × (t ≡ record s { op = record s.op { signature = sig } })
      finish p (sig, h) e₁ e₂ same last =
          let (hashed, signed) =
            sign_user_op-ok g c.config.entrypoint c.chain_id p signer
              (e₂ ∙ ap (λ x. ok (sig, x)) same) in
          (p, sig, e₁, hashed, signed, sym last)

  -- Where FillAndSign's filling in of the nonce succeeds, a nonce that was there is kept and the
  -- network not asked, and a missing one is what the entrypoint answers for the sender, with the salt
  -- as the key; no other field changes.
  pub fill_nonce-ok :
      (s t : Filling Net)
      → fill_nonce g node c s ≡ (ok tt, t)
      → ((s.op.nonce ≢ none) × (t ≡ s))
        ⊎ ((n : Option ℤ) × (s.op.nonce ≡ none)
            × (node.get_nonce s.op.sender s.op.salt s.net ≡ (ok n, t.net))
            × (t.op ≡ record s.op { nonce = n }))
  unfolding fill_nonce
  fill_nonce-ok s t e = go s.op.nonce refl e
    where
      fetched :
          (n : Option ℤ) (u : Filling Net)
          → s.op.nonce ≡ none
          → (node.get_nonce s.op.sender s.op.salt s.net ≡ (ok n, u.net)) × (u.op ≡ s.op)
          → record u { op = record u.op { nonce = n } } ≡ t
          → ((s.op.nonce ≢ none) × (t ≡ s))
            ⊎ ((n : Option ℤ) × (s.op.nonce ≡ none)
                × (node.get_nonce s.op.sender s.op.salt s.net ≡ (ok n, t.net))
                × (t.op ≡ record s.op { nonce = n }))
      fetched n u h (call, same) last = inr (
        n,
        h,
        call ∙ ap (λ v. (ok n, v.net)) last,
        sym (ap (λ v. v.op) last) ∙ ap {A = UserOperation} (λ o. record o { nonce = n }) same,
      )

      go :
          (o : Option ℤ)
          → s.op.nonce ≡ o
          → nonce_or_fetched g node c o s ≡ (ok tt, t)
          → ((s.op.nonce ≢ none) × (t ≡ s))
            ⊎ ((n : Option ℤ) × (s.op.nonce ≡ none)
                × (node.get_nonce s.op.sender s.op.salt s.net ≡ (ok n, t.net))
                × (t.op ≡ record s.op { nonce = n }))
      go (some n) h r = inl ((λ x. cc), sym (same_return r).1)
      go none h r =
          let (n, u, e₁, r₁) =
            >>=-eq-ok
              (wrapped "error getting nonce" (on_net (node.get_nonce s.op.sender s.op.salt))) _ r in
          let call =
            wrapped-eq-ok "error getting nonce" (on_net (node.get_nonce s.op.sender s.op.salt))
              e₁ in
          fetched n u h (on_net-ok (node.get_nonce s.op.sender s.op.salt) s u call)
            (same_return r₁).1
