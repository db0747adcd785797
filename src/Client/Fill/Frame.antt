-- ===== src/Client/Fill/Frame.antt =====
-- What FillAndSign never changes, whether it succeeds, fails or panics: the caller's fields.
use aa_sdk_go.Prelude.{◌≡◌, refl, ◌∙◌, Option, none, some, [], ◌∷◌, Bool-cases, inl, inr}
use aa_sdk_go.Prelude.Int.{ℤ}
use aa_sdk_go.Prelude.Outcome.{wrapping}
use aa_sdk_go.Prelude.State.{lift, wrapped, Keeps, Keeps-bind, Keeps-lift}
use aa_sdk_go.Bytes.{Bytes, zero_address, eq_bytes}
use aa_sdk_go.UserOperation.{UserOperation}
use aa_sdk_go.Ethereum.{Ethereum}
use aa_sdk_go.Packing.{
  encode_paymaster_data, pack_user_operation, packed_for_paymaster, empty_signature,
}
use aa_sdk_go.Hashing.{get_paymaster_hash}
use aa_sdk_go.Signing.{sign_message, sign_user_op}
use aa_sdk_go.Client.{Client, Node}
use aa_sdk_go.Client.Fill.{
  Filling, valid_until, valid_after, on_net, change_op, with_init_code, nonce_or_fetched,
  fill_nonce, get_init_code_data, owner_of, fill_init_code, fill_paymaster, fill_signature,
  fill_and_sign,
}

-- An operation with the fields blank that FillAndSign writes: what is left is the caller's.
abbrev pub caller_fields : UserOperation → UserOperation
caller_fields op = record op {
  nonce = none;
  init_code = [];
  factory = zero_address;
  factory_data = [];
  paymaster = zero_address;
  paymaster_data = [];
  signature = [];
}

module _ {Key Abi Rotator Net : Type 0} (g : Ethereum Key Abi) (node : Node Net)
    (c : Client Key Abi Rotator) (start : UserOperation) where
  abbrev Same : Filling Net → Type 0
  Same s = caller_fields s.op ≡ caller_fields start

  nonce_or_fetched-Keeps : (o : Option ℤ) → Keeps Same (nonce_or_fetched g node c o)
  unfolding nonce_or_fetched
  nonce_or_fetched-Keeps (some n) s h = h
  nonce_or_fetched-Keeps none s h =
      Keeps-bind Same
        (wrapped "error getting nonce" (on_net (node.get_nonce s.op.sender s.op.salt)))
        (λ n. change_op (λ op. record op { nonce = n })) (λ u k. k) (λ n u k. k) s h

  with_init_code-same :
      (codes : Bytes × Bytes) (op : UserOperation)
      → caller_fields (with_init_code g node c codes op) ≡ caller_fields op
  unfolding with_init_code
  with_init_code-same ([], d) op = refl
  with_init_code-same ((b ∷ bs), d) op = refl

  pub fill_init_code-Keeps : (signer : Option Key) → Keeps Same (fill_init_code g node c signer)
  unfolding fill_init_code
  fill_init_code-Keeps signer s h =
      Keeps-bind Same (lift (owner_of g node c signer)) _ (λ u k. k)
        (λ owner u k.
          Keeps-bind Same
            (wrapped "error getting account init code"
              (on_net (get_init_code_data g node c u.op.sender owner u.op.salt)))
            (λ codes. change_op (with_init_code g node c codes)) (λ v l. l)
            (λ codes v l. with_init_code-same codes v.op ∙ l) u k)
        s h

  fill_paymaster-Keeps : Keeps Same (fill_paymaster g node c)
  unfolding fill_paymaster
  fill_paymaster-Keeps s h =
      let op : UserOperation = record s.op { paymaster = c.config.paymaster_address } in
      Keeps-lift Same
        (wrapping "error encoding paymaster data"
          (encode_paymaster_data g valid_until valid_after empty_signature))
        s _ h
        λ unsigned.
          Keeps-lift Same (packed_for_paymaster g op unsigned) (record s { op = op }) _ h
            λ packed.
              Keeps-lift Same
                (wrapping "error getting paymaster data"
                  (get_paymaster_hash g packed c.chain_id valid_until valid_after))
                (record s { op = op }) _ h
                λ hash.
                  Keeps-lift Same
                    (wrapping "error signing paymaster data"
                      (sign_message g c.config.verifying_signer hash))
                    (record s { op = op }) _ h
                    λ sig.
                      Keeps-lift Same
                        (wrapping "error encoding paymaster data"
                          (encode_paymaster_data g valid_until valid_after sig))
                        (record s { op = op }) _ h λ d. h

  fill_signature-Keeps : (signer : Option Key) → Keeps Same (fill_signature g node c signer)
  unfolding fill_signature
  fill_signature-Keeps signer s h =
      Keeps-lift Same (pack_user_operation g (some s.op)) s _ h λ packed.
        Keeps-lift Same
          (wrapping "error signing user operation"
            (sign_user_op g c.config.entrypoint c.chain_id packed signer))
          s _ h λ signed. h

  pub fill_nonce-Keeps : Keeps Same (fill_nonce g node c)
  unfolding fill_nonce
  fill_nonce-Keeps s h = nonce_or_fetched-Keeps s.op.nonce s h

  fill_and_sign-Keeps : (signer : Option Key) → Keeps Same (fill_and_sign g node c signer)
  unfolding fill_and_sign
  fill_and_sign-Keeps signer s h = elim (Bool-cases (eq_bytes s.op.sender zero_address)) [
    | inl empty ↦ rw empty h
    | inr full ↦ rw full (
        Keeps-bind Same (fill_nonce g node c) _ fill_nonce-Keeps
          (λ _ u k.
            Keeps-bind Same (fill_init_code g node c signer) _ (fill_init_code-Keeps signer)
              (λ _ v l.
                Keeps-bind Same (fill_paymaster g node c) _ fill_paymaster-Keeps
                  (λ _ w m. fill_signature-Keeps signer w m) v l)
              u k)
          s h)
  ]

-- Whether FillAndSign succeeds, fails or panics, it leaves the sender, the call data, the salt and
-- the gas fields of the caller's operation as they were.
pub fill_and_sign-caller_fields :
    {Key Abi Rotator Net : Type 0} (g : Ethereum Key Abi) (node : Node Net)
    (c : Client Key Abi Rotator) (signer : Option Key) (s : Filling Net)
    → caller_fields (fill_and_sign g node c signer s).1.op ≡ caller_fields s.op
fill_and_sign-caller_fields g node c signer s = fill_and_sign-Keeps g node c s.op signer s refl
