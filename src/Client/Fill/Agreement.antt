-- ===== src/Client/Fill/Agreement.antt =====
-- That the operation, its hash and its two signatures belong together.
use aa_sdk_go.Prelude.{
  ℕ, ◌^◌, ◌<◌, ◌≡◌, refl, sym, ap, ◌∙◌, ◌++◌, Option, some, [], length, length-append, append_assoc,
  arith,
}
use aa_sdk_go.Prelude.Int.{ℤ, pos}
use aa_sdk_go.Prelude.Outcome.{ok}
use aa_sdk_go.Bytes.{Bytes, Address, Hash}
use aa_sdk_go.UserOperation.{UserOperation, PackedUserOperation}
use aa_sdk_go.Ethereum.{Ethereum, IsDocumented}
use aa_sdk_go.Packing.{
  packed_of, encode_paymaster_data, pack_user_operation, pack_paymaster_and_data,
  paymaster_data_offset,
}
use aa_sdk_go.Packing.Parts.{
  Parts, pack_user_operation-Parts, Parts-pack_user_operation, packed_for_paymaster-Parts,
}
use aa_sdk_go.Packing.Layout.{half_word, half_word-IsArray, pack_paymaster_and_data-half_word}
use aa_sdk_go.Hashing.{get_user_op_hash, hashed_user_op, get_paymaster_hash}
use aa_sdk_go.Hashing.Paymaster.{get_paymaster_hash-prefix}
use aa_sdk_go.Signing.{sign_message}
use aa_sdk_go.Client.{Client, Node}
use aa_sdk_go.Client.Fill.{valid_until, valid_after}
use aa_sdk_go.Client.Fill.Stages.{PaymasterSigned}

-- The hash, the two signatures and the fields of an operation belong together: the user's signature
-- is over the hash of this very operation, and the paymaster's is over the paymaster hash of it.
pub record Consistent {Key Abi Rotator : Type 0} (g : Ethereum Key Abi) (c : Client Key Abi Rotator)
    (signer : Option Key) (op : UserOperation) (hash : Hash) : Type 0 where
  pub packed : PackedUserOperation
  pub packed_op : pack_user_operation g (some op) ≡ ok packed
  pub hashed : get_user_op_hash g packed c.config.entrypoint c.chain_id ≡ ok hash
  pub signed : sign_message g signer hash ≡ ok op.signature
  pub paymaster : op.paymaster ≡ c.config.paymaster_address
  pub paymaster_hash : Hash
  pub paymaster_sig : Bytes
  pub paymaster_hashed :
      get_paymaster_hash g packed c.chain_id valid_until valid_after ≡ ok paymaster_hash
  pub paymaster_signed : sign_message g c.config.verifying_signer paymaster_hash ≡ ok paymaster_sig
  pub paymaster_encoded :
      encode_paymaster_data g valid_until valid_after paymaster_sig ≡ ok op.paymaster_data

-- The gas limits that paymasterAndData holds fit their 16 bytes.
pub record PaymasterGas (op : UserOperation) : Type 0 where
  pub verification : ℕ
  pub post_op : ℕ
  pub verification_is : op.paymaster_verification_gas_limit ≡ some (pos verification)
  pub post_op_is : op.paymaster_post_op_gas_limit ≡ some (pos post_op)
  pub verification_fits : verification < 2 ^ 128
  pub post_op_fits : post_op < 2 ^ 128

module _ {Key Abi Rotator Net : Type 0} (g : Ethereum Key Abi) (doc : IsDocumented g)
    (node : Node Net) (c : Client Key Abi Rotator) where
  -- The first 52 bytes of paymasterAndData.
  front_of : Address → ℕ → ℕ → Bytes
  front_of paymaster v p = paymaster ++ (half_word v ++ half_word p)

  length-front_of :
      (paymaster : Address) (v p : ℕ)
      → length paymaster ≡ 20
      → v < 2 ^ 128
      → p < 2 ^ 128
      → length (front_of paymaster v p) ≡ paymaster_data_offset
  unfolding front_of
  length-front_of paymaster v p l hv hp = omega (
    arith,
    length-append paymaster (half_word v ++ half_word p),
    length-append (half_word v) (half_word p),
    (half_word-IsArray v hv).0,
    (half_word-IsArray p hp).0,
  )

  -- paymasterAndData is these bytes and the paymaster's data.
  pack_paymaster_and_data-front :
      (paymaster : Address) (a b : Option ℤ) (v p : ℕ) (d : Bytes) {bs : Bytes}
      → a ≡ some (pos v)
      → b ≡ some (pos p)
      → pack_paymaster_and_data g paymaster a b d ≡ ok bs
      → bs ≡ front_of paymaster v p ++ d
  unfolding front_of
  pack_paymaster_and_data-front paymaster a b v p d ha hb e =
      let grouped : (paymaster ++ (half_word v ++ half_word p)) ++ d
          ≡ paymaster ++ (half_word v ++ (half_word p ++ d)) =
        append_assoc paymaster (half_word v ++ half_word p) d
        ∙ ap (λ t. paymaster ++ t) (append_assoc (half_word v) (half_word p) d) in
      cc (pack_paymaster_and_data-half_word g doc paymaster v p d)

  -- The operation with the paymaster's fields, and with the signature too.
  abbrev funded : UserOperation → Bytes → UserOperation
  funded op d = record op { paymaster = c.config.paymaster_address; paymaster_data = d }

  abbrev final : UserOperation → Bytes → Bytes → UserOperation
  final op d sig = record op {
    paymaster = c.config.paymaster_address;
    paymaster_data = d;
    signature = sig;
  }

  module _ (signer : Option Key) (op : UserOperation) (gas : PaymasterGas op)
      (d u sig : Bytes) where
    -- What the paymaster signed before its data was there is the paymaster hash of the final
    -- operation.
    same_paymaster_hash :
        (p₂ : Parts g (record op { paymaster = c.config.paymaster_address }) u)
        (p₃ : Parts g (funded op d) d)
        → length c.config.paymaster_address ≡ 20
        → get_paymaster_hash g
            (packed_of (final op d sig) p₃.limits p₃.fees p₃.front)
            c.chain_id
            valid_until
            valid_after
          ≡ get_paymaster_hash g
              (packed_of
                (record op { paymaster = c.config.paymaster_address; signature = [] })
                p₂.limits
                p₂.fees
                p₂.front)
              c.chain_id
              valid_until
              valid_after
    same_paymaster_hash p₂ p₃ l =
        ap
          (λ b.
            get_paymaster_hash g (packed_of (final op d sig) p₃.limits p₃.fees b) c.chain_id
              valid_until valid_after)
          after_signing
        ∙ get_paymaster_hash-prefix g (packed_of (final op d sig) p₃.limits p₃.fees [])
            (front_of c.config.paymaster_address gas.verification gas.post_op) d u sig [] c.chain_id
            valid_until valid_after
            (length-front_of c.config.paymaster_address gas.verification gas.post_op l
              gas.verification_fits gas.post_op_fits)
        ∙ (λ i.
            get_paymaster_hash g
              (packed_of (record op { paymaster = c.config.paymaster_address; signature = [] })
                (limits i) (fees i) (before_signing i))
              c.chain_id valid_until valid_after)
      where
        limits : p₃.limits ≡ p₂.limits
        limits = cc (p₃.limits_packed, p₂.limits_packed)

        fees : p₃.fees ≡ p₂.fees
        fees = cc (p₃.fees_packed, p₂.fees_packed)

        after_signing :
            p₃.front ≡ front_of c.config.paymaster_address gas.verification gas.post_op ++ d
        after_signing =
            pack_paymaster_and_data-front c.config.paymaster_address _ _ gas.verification
              gas.post_op d gas.verification_is gas.post_op_is p₃.front_packed

        before_signing :
            front_of c.config.paymaster_address gas.verification gas.post_op ++ u ≡ p₂.front
        before_signing = sym (
            pack_paymaster_and_data-front c.config.paymaster_address _ _ gas.verification
              gas.post_op u gas.verification_is gas.post_op_is p₂.front_packed)

    -- The signature is no part of what is hashed.
    same_op_hash :
        (p₃ : Parts g (funded op d) d)
        → get_user_op_hash g
            (packed_of (final op d sig) p₃.limits p₃.fees p₃.front)
            c.config.entrypoint
            c.chain_id
          ≡ get_user_op_hash g
              (packed_of (funded op d) p₃.limits p₃.fees p₃.front)
              c.config.entrypoint
              c.chain_id
    unfolding get_user_op_hash hashed_user_op
    same_op_hash p₃ = refl

  pub consistent :
      (signer : Option Key) (op : UserOperation) (d sig : Bytes) (hash : Hash)
      (packed : PackedUserOperation)
      → PaymasterGas op
      → length c.config.paymaster_address ≡ 20
      → PaymasterSigned g node c op d
      → pack_user_operation g (some (funded op d)) ≡ ok packed
      → get_user_op_hash g packed c.config.entrypoint c.chain_id ≡ ok hash
      → sign_message g signer hash ≡ ok sig
      → Consistent g c signer (final op d sig) hash
  consistent signer op d sig hash packed gas l ps e₁ e₂ e₃ =
      let (p₃, f₃) = pack_user_operation-Parts g (funded op d) e₁ in
      let (p₂, f₂) =
        packed_for_paymaster-Parts g (record op { paymaster = c.config.paymaster_address })
          ps.unsigned ps.packed_op in
      record {
        packed = packed_of (final op d sig) p₃.limits p₃.fees p₃.front;
        packed_op = Parts-pack_user_operation g (final op d sig) (same_parts p₃);
        hashed =
            same_op_hash signer op gas d ps.unsigned sig p₃
            ∙ ap (λ q. get_user_op_hash g q c.config.entrypoint c.chain_id) (sym f₃)
            ∙ e₂;
        signed = e₃;
        paymaster = refl;
        paymaster_hash = ps.hash;
        paymaster_sig = ps.sig;
        paymaster_hashed =
            same_paymaster_hash signer op gas d ps.unsigned sig p₂ p₃ l
            ∙ ap (λ q. get_paymaster_hash g q c.chain_id valid_until valid_after) (sym f₂)
            ∙ ps.hashed;
        paymaster_signed = ps.signed;
        paymaster_encoded = ps.encoded;
      }
    where
      same_parts : Parts g (funded op d) d → Parts g (final op d sig) d
      same_parts p = record {
        limits = p.limits;
        fees = p.fees;
        front = p.front;
        limits_packed = p.limits_packed;
        fees_packed = p.fees_packed;
        front_packed = p.front_packed;
      }
