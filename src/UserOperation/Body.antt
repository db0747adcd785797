-- ===== src/UserOperation/Body.antt =====
-- UserOperation.ToBody of types.go: the map of strings that is sent to the bundler. A map is a
-- function from keys to texts, `none` where a key is missing.
pub mod Laws
pub mod Entries
use Prim.Native.String.{String}
use text.Mathlib.Text.{◌==◌ as str_eq}
use aa_sdk_go.Prelude.{Option, none, some, [], ◌∷◌, Bool, true, false, not, if◌then◌else◌}
use aa_sdk_go.Prelude.Int.{ℤ}
use aa_sdk_go.Bytes.{Bytes, Address, zero_address, eq_bytes}
use aa_sdk_go.Hex.{Text, text_16, encode_to_string}
use aa_sdk_go.Quantity.{with_0x}
use aa_sdk_go.Ethereum.{Ethereum}
use aa_sdk_go.UserOperation.{UserOperation}

abbrev pub Body : Type 0
Body = String → Option Text

abbrev empty_body : Body
empty_body _ = none

-- What an `if` of ToBody writes, `none` where its condition fails: `body[key] = text` or nothing.
unfoldable pub put_entry : String → Option Text → Body → Body
put_entry key none body j = body j
put_entry key (some text) body j = if str_eq key j then some text else body j

-- `if x != nil { … "0x" + x.Text(16) }`
unfoldable pub big_text : Option ℤ → Option Text
big_text none = none
big_text (some x) = some (with_0x (text_16 x))

-- `if len(bs) > 0 { … "0x" + hex.EncodeToString(bs) }`
unfoldable pub bytes_text : Bytes → Option Text
bytes_text [] = none
bytes_text (b ∷ bs) = some (with_0x (encode_to_string (b ∷ bs)))

module _ {Key Abi : Type 0} (g : Ethereum Key Abi) where
  -- `if a != (common.Address{}) { … a.Hex() }`
  unfoldable pub address_text : Address → Option Text
  address_text a = if eq_bytes a zero_address then none else some (g.address_hex a)

  unfoldable pub to_body : UserOperation → Body
  to_body u =
      let b₁ = put_entry "sender" (address_text u.sender) empty_body in
      let b₂ = put_entry "nonce" (big_text u.nonce) b₁ in
      let b₃ = put_entry "callData" (bytes_text u.call_data) b₂ in
      let b₄ = put_entry "callGasLimit" (big_text u.call_gas_limit) b₃ in
      let b₅ = put_entry "verificationGasLimit" (big_text u.verification_gas_limit) b₄ in
      let b₆ = put_entry "preVerificationGas" (big_text u.pre_verification_gas) b₅ in
      let b₇ = put_entry "maxFeePerGas" (big_text u.max_fee_per_gas) b₆ in
      let b₈ = put_entry "maxPriorityFeePerGas" (big_text u.max_priority_fee_per_gas) b₇ in
      let b₉ = put_entry "signature" (bytes_text u.signature) b₈ in
      let b₁₀ = put_entry "paymaster" (address_text u.paymaster) b₉ in
      let b₁₁ = put_entry "paymasterData" (bytes_text u.paymaster_data) b₁₀ in
      let b₁₂ =
        put_entry "paymasterVerificationGasLimit" (big_text u.paymaster_verification_gas_limit)
          b₁₁ in
      let b₁₃ = put_entry "paymasterPostOpGasLimit" (big_text u.paymaster_post_op_gas_limit) b₁₂ in
      let b₁₄ = put_entry "factory" (address_text u.factory) b₁₃ in
      put_entry "factoryData" (bytes_text u.factory_data) b₁₄
