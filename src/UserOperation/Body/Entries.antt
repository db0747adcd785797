-- ===== src/UserOperation/Body/Entries.antt =====
-- What ToBody puts under each key.
use Prim.Native.String.{String}
use text.Mathlib.Text.{◌==◌ as str_eq}
use aa_sdk_go.Prelude.{
  All, List, ◌≡◌, refl, ◌∙◌, Option, none, some, [], ◌∷◌, false, if◌then◌else◌, arith,
}
use aa_sdk_go.Hex.{Text}
use aa_sdk_go.Ethereum.{Ethereum}
use aa_sdk_go.UserOperation.{UserOperation}
use aa_sdk_go.UserOperation.Body.{Body, put_entry, big_text, bytes_text, address_text, to_body}

-- The first text that is there.
abbrev first_text : Option Text → Option Text → Option Text
first_text (some t) other = some t
first_text none other = other

put_entry_lem :
    (key : String) (t : Option Text) (body : Body) (j : String)
    → put_entry key t body j ≡ (if str_eq key j then first_text t (body j) else body j)
unfolding put_entry
put_entry_lem key none body j = ground arith
put_entry_lem key (some t) body j = refl

put_entry-skip :
    (key : String) (t : Option Text) (body : Body) (j : String)
    → str_eq key j ≡ false
    → put_entry key t body j ≡ body j
unfolding put_entry
put_entry-skip key none body j h = refl
put_entry-skip key (some t) body j h = rw h

first_text-none : (t : Option Text) → first_text t none ≡ t
first_text-none none = refl
first_text-none (some t) = refl

ruleset sent_texts = (put_entry_lem, first_text-none)

abbrev sent_keys : List String
sent_keys =
    "sender" ∷ "nonce" ∷ "callData" ∷ "callGasLimit" ∷ "verificationGasLimit" ∷ "preVerificationGas"
    ∷ "maxFeePerGas" ∷ "maxPriorityFeePerGas" ∷ "signature" ∷ "paymaster" ∷ "paymasterData"
    ∷ "paymasterVerificationGasLimit" ∷ "paymasterPostOpGasLimit" ∷ "factory" ∷ "factoryData" ∷ []

module _ {Key Abi : Type 0} (g : Ethereum Key Abi) where
  -- What a body says of an operation: at each key its field's text, and nothing at other keys.
  pub record IsBodyOf (u : UserOperation) (body : Body) : Type 0 where
    pub sender : body "sender" ≡ address_text g u.sender
    pub nonce : body "nonce" ≡ big_text u.nonce
    pub call_data : body "callData" ≡ bytes_text u.call_data
    pub call_gas_limit : body "callGasLimit" ≡ big_text u.call_gas_limit
    pub verification_gas_limit : body "verificationGasLimit" ≡ big_text u.verification_gas_limit
    pub pre_verification_gas : body "preVerificationGas" ≡ big_text u.pre_verification_gas
    pub max_fee_per_gas : body "maxFeePerGas" ≡ big_text u.max_fee_per_gas
    pub max_priority_fee_per_gas : body "maxPriorityFeePerGas" ≡ big_text u.max_priority_fee_per_gas
    pub signature : body "signature" ≡ bytes_text u.signature
    pub paymaster : body "paymaster" ≡ address_text g u.paymaster
    pub paymaster_data : body "paymasterData" ≡ bytes_text u.paymaster_data
    pub paymaster_verification_gas_limit :
        body "paymasterVerificationGasLimit" ≡ big_text u.paymaster_verification_gas_limit
    pub paymaster_post_op_gas_limit :
        body "paymasterPostOpGasLimit" ≡ big_text u.paymaster_post_op_gas_limit
    pub factory : body "factory" ≡ address_text g u.factory
    pub factory_data : body "factoryData" ≡ bytes_text u.factory_data
    pub others : (j : String) → All (λ k. str_eq k j ≡ false) sent_keys → body j ≡ none

  to_body-sender : (u : UserOperation) → to_body g u "sender" ≡ address_text g u.sender
  unfolding to_body
  to_body-sender u = simp sent_texts

  to_body-nonce : (u : UserOperation) → to_body g u "nonce" ≡ big_text u.nonce
  unfolding to_body
  to_body-nonce u = simp sent_texts

  to_body-call_data : (u : UserOperation) → to_body g u "callData" ≡ bytes_text u.call_data
  unfolding to_body
  to_body-call_data u = simp sent_texts

  to_body-call_gas_limit :
      (u : UserOperation) → to_body g u "callGasLimit" ≡ big_text u.call_gas_limit
  unfolding to_body
  to_body-call_gas_limit u = simp sent_texts

  to_body-verification_gas_limit :
      (u : UserOperation) → to_body g u "verificationGasLimit" ≡ big_text u.verification_gas_limit
  unfolding to_body
  to_body-verification_gas_limit u = simp sent_texts

  to_body-pre_verification_gas :
      (u : UserOperation) → to_body g u "preVerificationGas" ≡ big_text u.pre_verification_gas
  unfolding to_body
  to_body-pre_verification_gas u = simp sent_texts

  to_body-max_fee_per_gas :
      (u : UserOperation) → to_body g u "maxFeePerGas" ≡ big_text u.max_fee_per_gas
  unfolding to_body
  to_body-max_fee_per_gas u = simp sent_texts

  to_body-max_priority_fee_per_gas :
      (u : UserOperation) → to_body g u "maxPriorityFeePerGas" ≡ big_text u.max_priority_fee_per_gas
  unfolding to_body
  to_body-max_priority_fee_per_gas u = simp sent_texts

  to_body-signature : (u : UserOperation) → to_body g u "signature" ≡ bytes_text u.signature
  unfolding to_body
  to_body-signature u = simp sent_texts

  to_body-paymaster : (u : UserOperation) → to_body g u "paymaster" ≡ address_text g u.paymaster
  unfolding to_body
  to_body-paymaster u = simp sent_texts

  to_body-paymaster_data :
      (u : UserOperation) → to_body g u "paymasterData" ≡ bytes_text u.paymaster_data
  unfolding to_body
  to_body-paymaster_data u = simp sent_texts

  to_body-paymaster_verification_gas_limit :
      (u : UserOperation)
      → to_body g u "paymasterVerificationGasLimit" ≡ big_text u.paymaster_verification_gas_limit
  unfolding to_body
  to_body-paymaster_verification_gas_limit u = simp sent_texts

  to_body-paymaster_post_op_gas_limit :
      (u : UserOperation)
      → to_body g u "paymasterPostOpGasLimit" ≡ big_text u.paymaster_post_op_gas_limit
  unfolding to_body
  to_body-paymaster_post_op_gas_limit u = simp sent_texts

  to_body-factory : (u : UserOperation) → to_body g u "factory" ≡ address_text g u.factory
  unfolding to_body
  to_body-factory u = simp sent_texts

  to_body-factory_data : (u : UserOperation) → to_body g u "factoryData" ≡ bytes_text u.factory_data
  unfolding to_body
  to_body-factory_data u = simp sent_texts

  to_body-others :
      (u : UserOperation) (j : String)
      → All (λ k. str_eq k j ≡ false) sent_keys
      → to_body g u j ≡ none
  unfolding to_body
  to_body-others u j h =
      put_entry-skip "factoryData" _ _ j h.1.1.1.1.1.1.1.1.1.1.1.1.1.1.0
      ∙ put_entry-skip "factory" _ _ j h.1.1.1.1.1.1.1.1.1.1.1.1.1.0
      ∙ put_entry-skip "paymasterPostOpGasLimit" _ _ j h.1.1.1.1.1.1.1.1.1.1.1.1.0
      ∙ put_entry-skip "paymasterVerificationGasLimit" _ _ j h.1.1.1.1.1.1.1.1.1.1.1.0
      ∙ put_entry-skip "paymasterData" _ _ j h.1.1.1.1.1.1.1.1.1.1.0
      ∙ put_entry-skip "paymaster" _ _ j h.1.1.1.1.1.1.1.1.1.0
      ∙ put_entry-skip "signature" _ _ j h.1.1.1.1.1.1.1.1.0
      ∙ put_entry-skip "maxPriorityFeePerGas" _ _ j h.1.1.1.1.1.1.1.0
      ∙ put_entry-skip "maxFeePerGas" _ _ j h.1.1.1.1.1.1.0
      ∙ put_entry-skip "preVerificationGas" _ _ j h.1.1.1.1.1.0
      ∙ put_entry-skip "verificationGasLimit" _ _ j h.1.1.1.1.0
      ∙ put_entry-skip "callGasLimit" _ _ j h.1.1.1.0
      ∙ put_entry-skip "callData" _ _ j h.1.1.0
      ∙ put_entry-skip "nonce" _ _ j h.1.0
      ∙ put_entry-skip "sender" _ _ j h.0

  -- ToBody sends each field under its key unless it is nil, empty or the zero address, and sends
  -- nothing else.
  pub to_body-IsBodyOf : (u : UserOperation) → IsBodyOf u (to_body g u)
  to_body-IsBodyOf u = record {
    sender = to_body-sender u;
    nonce = to_body-nonce u;
    call_data = to_body-call_data u;
    call_gas_limit = to_body-call_gas_limit u;
    verification_gas_limit = to_body-verification_gas_limit u;
    pre_verification_gas = to_body-pre_verification_gas u;
    max_fee_per_gas = to_body-max_fee_per_gas u;
    max_priority_fee_per_gas = to_body-max_priority_fee_per_gas u;
    signature = to_body-signature u;
    paymaster = to_body-paymaster u;
    paymaster_data = to_body-paymaster_data u;
    paymaster_verification_gas_limit = to_body-paymaster_verification_gas_limit u;
    paymaster_post_op_gas_limit = to_body-paymaster_post_op_gas_limit u;
    factory = to_body-factory u;
    factory_data = to_body-factory_data u;
    others = to_body-others u;
  }
