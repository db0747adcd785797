-- ===== src/Hashing/Paymaster.antt =====
-- GetPaymasterHash reads the first 52 bytes of paymasterAndData only, so that it is the same before
-- and after the paymaster's signature is put behind them.
use aa_sdk_go.Prelude.{
  ◌≡◌, ap, sym, ◌∙◌, ◌++◌, [], ◌∷◌, Option, some, length, take, drop, ltb, length-append,
  take-length-append, take-append_of_le, drop-append_of_le, length-drop, false, arith,
}
use aa_sdk_go.Prelude.Int.{ℤ}
use aa_sdk_go.Prelude.Outcome.{Result, ok, wrapping, ◌>>=◌}
use aa_sdk_go.Bytes.{Bytes, Hash, set_bytes}
use aa_sdk_go.UserOperation.{PackedUserOperation}
use aa_sdk_go.Ethereum.{Ethereum, address, integer, bytes32}
use aa_sdk_go.Packing.{paymaster_data_offset}
use aa_sdk_go.Hashing.{paymaster_types, get_paymaster_hash}

-- The two slices of paymasterAndData that the hash reads.
front_slices :
    (front x : Bytes)
    → length front ≡ 52
    → (take 20 (front ++ x) ≡ take 20 front) × (take 32 (drop 20 (front ++ x)) ≡ drop 20 front)
front_slices front x h = (
  take-append_of_le 20 front x (omega arith),
  ap (take 32) (drop-append_of_le 20 front x (omega arith))
      ∙ take-length-append 32 (drop 20 front) x (omega (arith, length-drop 20 front)),
)

long_enough : (front x : Bytes) → length front ≡ 52 → ltb (length (front ++ x)) 52 ≡ false
long_enough front x h = rw (length-append front x, h) (ground arith)

module _ {Key Abi : Type 0} (g : Ethereum Key Abi) where
  -- The hash over a front of 52 bytes.
  abbrev front_hash : PackedUserOperation → Bytes → Option ℤ → Option ℤ → Option ℤ → Result Hash
  front_hash op front chain_id valid_until valid_after = do
    packed ← wrapping "pack error in GetPaymasterHash" (
        g.pack paymaster_types (
          address op.sender
          ∷ integer op.nonce
          ∷ bytes32 (g.keccak256_hash op.init_code)
          ∷ bytes32 (g.keccak256_hash op.call_data)
          ∷ bytes32 op.account_gas_limits
          ∷ integer (some (set_bytes (drop 20 front)))
          ∷ integer op.pre_verification_gas
          ∷ bytes32 op.gas_fees
          ∷ integer chain_id
          ∷ address (g.bytes_to_address (take 20 front))
          ∷ integer valid_until
          ∷ integer valid_after
          ∷ []))
    ok (g.keccak256_hash packed)

  get_paymaster_hash-front_hash :
      (op : PackedUserOperation) (front x s : Bytes) (chain_id valid_until valid_after : Option ℤ)
      → length front ≡ paymaster_data_offset
      → get_paymaster_hash g
          (record op { paymaster_and_data = front ++ x; signature = s })
          chain_id
          valid_until
          valid_after
        ≡ front_hash op front chain_id valid_until valid_after
  unfolding get_paymaster_hash
  get_paymaster_hash-front_hash op front x s chain_id valid_until valid_after h =
      let (low, high) = front_slices front x h in rw (long_enough front x h, low, high)

  -- Whatever stands behind the first 52 bytes of paymasterAndData, and the operation's signature, do
  -- not change the paymaster's hash.
  pub get_paymaster_hash-prefix :
      (op : PackedUserOperation) (front x y s t : Bytes)
      (chain_id valid_until valid_after : Option ℤ)
      → length front ≡ paymaster_data_offset
      → get_paymaster_hash g
          (record op { paymaster_and_data = front ++ x; signature = s })
          chain_id
          valid_until
          valid_after
        ≡ get_paymaster_hash g
            (record op { paymaster_and_data = front ++ y; signature = t })
            chain_id
            valid_until
            valid_after
  get_paymaster_hash-prefix op front x y s t chain_id valid_until valid_after h =
      get_paymaster_hash-front_hash op front x s chain_id valid_until valid_after h
      ∙ sym (get_paymaster_hash-front_hash op front y t chain_id valid_until valid_after h)
