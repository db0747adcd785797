-- ===== src/Packing/Parts.antt =====
-- A packed operation and its three packed parts.
use aa_sdk_go.Prelude.{◌≡◌, some, []}
use aa_sdk_go.Prelude.Outcome.{ok, >>=-eq-ok}
use aa_sdk_go.Bytes.{Bytes, Hash}
use aa_sdk_go.UserOperation.{UserOperation, PackedUserOperation}
use aa_sdk_go.Ethereum.{Ethereum}
use aa_sdk_go.Packing.{
  packed_of, pack_int, pack_paymaster_and_data, pack_user_operation, packed_for_paymaster,
}

module _ {Key Abi : Type 0} (g : Ethereum Key Abi) where
  -- The words of gas numbers and paymasterAndData, for `data'` as the paymaster's data.
  pub record Parts (op : UserOperation) (data' : Bytes) : Type 0 where
    pub limits : Hash
    pub fees : Hash
    pub front : Bytes
    pub limits_packed : pack_int g op.verification_gas_limit op.call_gas_limit ≡ ok limits
    pub fees_packed : pack_int g op.max_priority_fee_per_gas op.max_fee_per_gas ≡ ok fees
    pub front_packed :
        pack_paymaster_and_data g op.paymaster op.paymaster_verification_gas_limit
          op.paymaster_post_op_gas_limit data'
        ≡ ok front

  pub pack_user_operation-Parts :
      (op : UserOperation) {q : PackedUserOperation}
      → pack_user_operation g (some op) ≡ ok q
      → (p : Parts op op.paymaster_data) × (q ≡ packed_of op p.limits p.fees p.front)
  unfolding pack_user_operation
  pack_user_operation-Parts op {q} e =
      let (l, e₁, r₁) = >>=-eq-ok (pack_int g op.verification_gas_limit op.call_gas_limit) _ e in
      let (f, e₂, r₂) =
        >>=-eq-ok (pack_int g op.max_priority_fee_per_gas op.max_fee_per_gas) _ r₁ in
      let (b, e₃, r₃) =
        >>=-eq-ok
          (pack_paymaster_and_data g op.paymaster op.paymaster_verification_gas_limit
            op.paymaster_post_op_gas_limit op.paymaster_data)
          _ r₂ in
      (
        record {
          limits = l;
          fees = f;
          front = b;
          limits_packed = e₁;
          fees_packed = e₂;
          front_packed = e₃;
        },
        cc r₃,
      )

  pub Parts-pack_user_operation :
      (op : UserOperation) (p : Parts op op.paymaster_data)
      → pack_user_operation g (some op) ≡ ok (packed_of op p.limits p.fees p.front)
  unfolding pack_user_operation
  Parts-pack_user_operation op p = rw (p.limits_packed, p.fees_packed, p.front_packed)

  pub packed_for_paymaster-Parts :
      (op : UserOperation) (data' : Bytes) {q : PackedUserOperation}
      → packed_for_paymaster g op data' ≡ ok q
      → (p : Parts op data') × (q
          ≡ packed_of (record op { signature = [] }) p.limits p.fees p.front)
  unfolding packed_for_paymaster
  packed_for_paymaster-Parts op data' {q} e =
      let (l, e₁, r₁) = >>=-eq-ok (pack_int g op.verification_gas_limit op.call_gas_limit) _ e in
      let (f, e₂, r₂) =
        >>=-eq-ok (pack_int g op.max_priority_fee_per_gas op.max_fee_per_gas) _ r₁ in
      let (b, e₃, r₃) =
        >>=-eq-ok
          (pack_paymaster_and_data g op.paymaster op.paymaster_verification_gas_limit
            op.paymaster_post_op_gas_limit data')
          _ r₂ in
      (
        record {
          limits = l;
          fees = f;
          front = b;
          limits_packed = e₁;
          fees_packed = e₂;
          front_packed = e₃;
        },
        cc r₃,
      )

  pub Parts-packed_for_paymaster :
      (op : UserOperation) (data' : Bytes) (p : Parts op data')
      → packed_for_paymaster g op data'
        ≡ ok (packed_of (record op { signature = [] }) p.limits p.fees p.front)
  unfolding packed_for_paymaster
  Parts-packed_for_paymaster op data' p = rw (p.limits_packed, p.fees_packed, p.front_packed)
