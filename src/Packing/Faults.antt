-- ===== src/Packing/Faults.antt =====
-- What PackInt, PackPaymasterAndData and PackUserOperation do on nil numbers and on numbers too large
-- for their fields.
use aa_sdk_go.Prelude.{
  ℕ, ◌-◌, ◌^◌, ◌<◌, ◌≤◌, ◌≡◌, ◌≢◌, refl, ap, ◌∙◌, ◌↔◌, ◌⊎◌, inl, inr, ◌++◌, Option, some, none,
  length, take, replicate, take-length-append, length-append, append-nil, arith,
}
use aa_sdk_go.Prelude.Int.{ℤ, pos}
use aa_sdk_go.Prelude.Outcome.{ok, panic, raised}
use aa_sdk_go.Digits.{length-digits, length-digits_gt}
use aa_sdk_go.Bytes.{Bytes, Address, Hash, big_bytes}
use aa_sdk_go.UserOperation.{UserOperation, PackedUserOperation}
use aa_sdk_go.Ethereum.{Ethereum, IsDocumented}
use aa_sdk_go.Packing.Parts.{Parts, pack_user_operation-Parts, Parts-pack_user_operation}
use aa_sdk_go.Packing.{packed_of, pack_int, pack_paymaster_and_data, pack_user_operation}

-- The gas numbers that PackUserOperation reads the bytes of.
pub record HasGas (op : UserOperation) : Type 0 where
  pub verification : op.verification_gas_limit ≢ none
  pub call : op.call_gas_limit ≢ none
  pub priority : op.max_priority_fee_per_gas ≢ none
  pub fee : op.max_fee_per_gas ≢ none
  pub paymaster_verification : op.paymaster_verification_gas_limit ≢ none
  pub paymaster_post_op : op.paymaster_post_op_gas_limit ≢ none

long_bytes :
    (a : ℕ)
    → 256 ^ 31 ≤ a
    → a < 256 ^ 32
    → (31 < length (big_bytes (pos a))) × (length (big_bytes (pos a)) ≤ 32)
unfolding big_bytes
long_bytes a lo hi =
    (length-digits_gt 256 31 a (omega arith) lo, length-digits 256 32 a (omega arith) hi)

module _ {Key Abi : Type 0} (g : Ethereum Key Abi) where
  -- PackInt panics with "nil data" exactly when at least one of its arguments is nil.
  pub pack_int-panic :
      (a b : Option ℤ) → (pack_int g a b ≡ panic (raised "nil data")) ↔ ((a ≡ none) ⊎ (b ≡ none))
  unfolding pack_int
  pack_int-panic none b = (λ _. inl refl, λ _. refl)
  pack_int-panic (some a) none = (λ _. inr refl, λ _. refl)
  pack_int-panic (some a) (some b) = (λ h. cc, λ h. ground arith)

  pack_int-some : (a b : Option ℤ) → a ≢ none → b ≢ none → (h : Hash) × (pack_int g a b ≡ ok h)
  unfolding pack_int
  pack_int-some none b ha hb = absurd (ha refl)
  pack_int-some (some a) none ha hb = absurd (hb refl)
  pack_int-some (some a) (some b) ha hb = (_, refl)

  pack_int-ok : (a b : Option ℤ) {h : Hash} → pack_int g a b ≡ ok h → (a ≢ none) × (b ≢ none)
  unfolding pack_int
  pack_int-ok none b e = cc
  pack_int-ok (some a) none e = cc
  pack_int-ok (some a) (some b) e = (λ x. cc, λ x. cc)

  pack_paymaster_and_data-some :
      (paymaster : Address) (v p : Option ℤ) (rest : Bytes)
      → v ≢ none
      → p ≢ none
      → (bs : Bytes) × (pack_paymaster_and_data g paymaster v p rest ≡ ok bs)
  unfolding pack_paymaster_and_data
  pack_paymaster_and_data-some paymaster none p rest hv hp = absurd (hv refl)
  pack_paymaster_and_data-some paymaster (some v) none rest hv hp = absurd (hp refl)
  pack_paymaster_and_data-some paymaster (some v) (some p) rest hv hp = (_, refl)

  pack_paymaster_and_data-ok :
      (paymaster : Address) (v p : Option ℤ) (rest : Bytes) {bs : Bytes}
      → pack_paymaster_and_data g paymaster v p rest ≡ ok bs
      → (v ≢ none) × (p ≢ none)
  unfolding pack_paymaster_and_data
  pack_paymaster_and_data-ok paymaster none p rest e = cc
  pack_paymaster_and_data-ok paymaster (some v) none rest e = cc
  pack_paymaster_and_data-ok paymaster (some v) (some p) rest e = (λ x. cc, λ x. cc)

  -- PackUserOperation returns a packed operation exactly when none of the six gas numbers that it
  -- packs is nil.
  pub pack_user_operation-HasGas :
      (op : UserOperation)
      → ((p : PackedUserOperation) × (pack_user_operation g (some op) ≡ ok p)) ↔ HasGas op
  pack_user_operation-HasGas op = (
    λ r.
        let (parts, _) = pack_user_operation-Parts g op r.1 in
        let (v, c) = pack_int-ok _ _ parts.limits_packed in
        let (m, f) = pack_int-ok _ _ parts.fees_packed in
        let (pv, pp) =
          pack_paymaster_and_data-ok op.paymaster _ _ op.paymaster_data parts.front_packed in
        record {
          verification = v;
          call = c;
          priority = m;
          fee = f;
          paymaster_verification = pv;
          paymaster_post_op = pp;
        },
    λ h.
        let (limits, e₁) = pack_int-some _ _ h.verification h.call in
        let (fees, e₂) = pack_int-some _ _ h.priority h.fee in
        let (front, e₃) =
          pack_paymaster_and_data-some op.paymaster _ _ op.paymaster_data h.paymaster_verification
            h.paymaster_post_op in
        let parts : Parts g op op.paymaster_data = record {
          limits = limits;
          fees = fees;
          front = front;
          limits_packed = e₁;
          fees_packed = e₂;
          front_packed = e₃;
        } in
        (packed_of op limits fees front, Parts-pack_user_operation g op parts),
  )

  -- A first number of 32 bytes fills the hash alone: PackInt drops its second number without an
  -- error.
  pub pack_int-overflow :
      IsDocumented g
      → (a : ℕ) (b : ℤ) → 256 ^ 31 ≤ a
      → a < 256 ^ 32
      → pack_int g (some (pos a)) (some b) ≡ ok (big_bytes (pos a))
  unfolding pack_int
  pack_int-overflow doc a b lo hi =
      rw (doc.left_pad_bytes_lem (big_bytes (pos a)) 16, no_padding)
        (ap ok (
          ap (λ n. take 32 both ++ replicate n 0) room
          ∙ append-nil (take 32 both)
          ∙ take-length-append 32 (big_bytes (pos a)) (g.left_pad_bytes (big_bytes b) 16) full))
    where
      full : length (big_bytes (pos a)) ≡ 32
      full = omega (arith, long_bytes a lo hi)

      no_padding : 16 - length (big_bytes (pos a)) ≡ 0
      no_padding = omega (arith, full)

      both : Bytes
      both = big_bytes (pos a) ++ g.left_pad_bytes (big_bytes b) 16

      room : 32 - length both ≡ 0
      room =
          omega (arith, length-append (big_bytes (pos a)) (g.left_pad_bytes (big_bytes b) 16), full)
