-- ===== src/UserOperation/Body/Laws.antt =====
-- The body tells the operation: what ToBody sends determines every field that it sends.
use Prim.Native.String.{String}
use aa_sdk_go.Prelude.{
  ◌≡◌, refl, sym, ◌∙◌, Option, none, some, [], ◌∷◌, true, false, Bool-cases, inl, inr,
}
use aa_sdk_go.Prelude.Int.{ℤ}
use aa_sdk_go.Bytes.{Bytes, Address, zero_address, eq_bytes, IsArray}
use aa_sdk_go.Bytes.Padding.{eq_bytes_iff}
use aa_sdk_go.Digits.{AllBelow}
use aa_sdk_go.Hex.Laws.{encode_to_string_injective}
use aa_sdk_go.Hex.Written.{text_16_injective}
use aa_sdk_go.Ethereum.{Ethereum, IsDocumented}
use aa_sdk_go.UserOperation.{UserOperation}
use aa_sdk_go.UserOperation.Body.{big_text, bytes_text, address_text, to_body}
use aa_sdk_go.UserOperation.Body.Entries.{to_body-IsBodyOf}

-- The byte strings and addresses of an operation, as Go's types bound them.
pub record IsTyped (u : UserOperation) : Type 0 where
  pub sender : IsArray 20 u.sender
  pub call_data : AllBelow 256 u.call_data
  pub signature : AllBelow 256 u.signature
  pub paymaster : IsArray 20 u.paymaster
  pub paymaster_data : AllBelow 256 u.paymaster_data
  pub factory : IsArray 20 u.factory
  pub factory_data : AllBelow 256 u.factory_data

-- All fields but the init code and the salt, which are not sent.
pub record SameSent (u v : UserOperation) : Type 0 where
  pub sender : u.sender ≡ v.sender
  pub nonce : u.nonce ≡ v.nonce
  pub call_data : u.call_data ≡ v.call_data
  pub call_gas_limit : u.call_gas_limit ≡ v.call_gas_limit
  pub verification_gas_limit : u.verification_gas_limit ≡ v.verification_gas_limit
  pub pre_verification_gas : u.pre_verification_gas ≡ v.pre_verification_gas
  pub max_fee_per_gas : u.max_fee_per_gas ≡ v.max_fee_per_gas
  pub max_priority_fee_per_gas : u.max_priority_fee_per_gas ≡ v.max_priority_fee_per_gas
  pub signature : u.signature ≡ v.signature
  pub paymaster : u.paymaster ≡ v.paymaster
  pub paymaster_data : u.paymaster_data ≡ v.paymaster_data
  pub paymaster_verification_gas_limit :
      u.paymaster_verification_gas_limit ≡ v.paymaster_verification_gas_limit
  pub paymaster_post_op_gas_limit : u.paymaster_post_op_gas_limit ≡ v.paymaster_post_op_gas_limit
  pub factory : u.factory ≡ v.factory
  pub factory_data : u.factory_data ≡ v.factory_data

big_text_injective : (x y : Option ℤ) → big_text x ≡ big_text y → x ≡ y
unfolding big_text
big_text_injective none none e = refl
big_text_injective none (some y) e = cc
big_text_injective (some x) none e = cc
big_text_injective (some x) (some y) e = cc (text_16_injective x y (cc))

bytes_text_injective :
    (as' bs : Bytes)
    → AllBelow 256 as'
    → AllBelow 256 bs
    → bytes_text as' ≡ bytes_text bs
    → as' ≡ bs
unfolding bytes_text
bytes_text_injective [] [] ha hb e = refl
bytes_text_injective [] (b ∷ bs) ha hb e = cc
bytes_text_injective (a ∷ as') [] ha hb e = cc
bytes_text_injective (a ∷ as') (b ∷ bs) ha hb e =
    encode_to_string_injective (a ∷ as') (b ∷ bs) ha hb (cc)

module _ {Key Abi : Type 0} (g : Ethereum Key Abi) where
  address_text-zero : (a : Address) → eq_bytes a zero_address ≡ true → address_text g a ≡ none
  unfolding address_text
  address_text-zero a h = rw h

  address_text-nonzero :
      (a : Address) → eq_bytes a zero_address ≡ false → address_text g a ≡ some (g.address_hex a)
  unfolding address_text
  address_text-nonzero a h = rw h

  address_text_injective :
      IsDocumented g
      → (a b : Address) → IsArray 20 a
      → IsArray 20 b
      → address_text g a ≡ address_text g b
      → a ≡ b
  unfolding address_text
  address_text_injective doc a b ha hb e = elim (Bool-cases (eq_bytes a zero_address)) [
    | inl za ↦ elim (Bool-cases (eq_bytes b zero_address)) [
      | inl zb ↦ cc ((eq_bytes_iff a zero_address).0 za, (eq_bytes_iff b zero_address).0 zb)
      | inr nb ↦ cc (address_text-zero a za, address_text-nonzero b nb)
    ]
    | inr na ↦ elim (Bool-cases (eq_bytes b zero_address)) [
      | inl zb ↦ cc (address_text-nonzero a na, address_text-zero b zb)
      | inr nb ↦
          doc.address_hex_injective a b ha hb
            (cc (address_text-nonzero a na, address_text-nonzero b nb))
    ]
  ]

  -- Two operations with the same body agree in every field but the init code and the salt.
  pub to_body_injective :
      IsDocumented g
      → (u v : UserOperation) → IsTyped u
      → IsTyped v
      → ((j : String) → to_body g u j ≡ to_body g v j)
      → SameSent u v
  to_body_injective doc u v tu tv e =
      let bu = to_body-IsBodyOf g u in
      let bv = to_body-IsBodyOf g v in
      record {
        sender =
            address_text_injective doc _ _ tu.sender tv.sender
              (sym (bu.sender) ∙ e "sender" ∙ bv.sender);
        nonce = big_text_injective _ _ (sym (bu.nonce) ∙ e "nonce" ∙ bv.nonce);
        call_data =
            bytes_text_injective _ _ tu.call_data tv.call_data
              (sym (bu.call_data) ∙ e "callData" ∙ bv.call_data);
        call_gas_limit =
            big_text_injective _ _ (sym (bu.call_gas_limit) ∙ e "callGasLimit" ∙ bv.call_gas_limit);
        verification_gas_limit = big_text_injective _ _ (
            sym (bu.verification_gas_limit) ∙ e "verificationGasLimit" ∙ bv.verification_gas_limit);
        pre_verification_gas =
            big_text_injective _ _
              (sym (bu.pre_verification_gas) ∙ e "preVerificationGas" ∙ bv.pre_verification_gas);
        max_fee_per_gas =
            big_text_injective _ _
              (sym (bu.max_fee_per_gas) ∙ e "maxFeePerGas" ∙ bv.max_fee_per_gas);
        max_priority_fee_per_gas = big_text_injective _ _ (
            sym (bu.max_priority_fee_per_gas)
            ∙ e "maxPriorityFeePerGas"
            ∙ bv.max_priority_fee_per_gas);
        signature =
            bytes_text_injective _ _ tu.signature tv.signature
              (sym (bu.signature) ∙ e "signature" ∙ bv.signature);
        paymaster =
            address_text_injective doc _ _ tu.paymaster tv.paymaster
              (sym (bu.paymaster) ∙ e "paymaster" ∙ bv.paymaster);
        paymaster_data =
            bytes_text_injective _ _ tu.paymaster_data tv.paymaster_data
              (sym (bu.paymaster_data) ∙ e "paymasterData" ∙ bv.paymaster_data);
        paymaster_verification_gas_limit = big_text_injective _ _ (
            sym (bu.paymaster_verification_gas_limit)
            ∙ e "paymasterVerificationGasLimit"
            ∙ bv.paymaster_verification_gas_limit);
        paymaster_post_op_gas_limit = big_text_injective _ _ (
            sym (bu.paymaster_post_op_gas_limit)
            ∙ e "paymasterPostOpGasLimit"
            ∙ bv.paymaster_post_op_gas_limit);
        factory =
            address_text_injective doc _ _ tu.factory tv.factory
              (sym (bu.factory) ∙ e "factory" ∙ bv.factory);
        factory_data =
            bytes_text_injective _ _ tu.factory_data tv.factory_data
              (sym (bu.factory_data) ∙ e "factoryData" ∙ bv.factory_data);
      }
