-- ===== src/Tests/Packing.antt =====
-- The properties of packing and hashing at concrete operations.
use aa_sdk_go.Prelude.{
  ℕ, ◌+◌, ◌^◌, ◌<◌, ◌≡◌, refl, inl, inr, ◌⊎◌, ◌↔◌, Option, none, some, [], ◌∷◌, ◌++◌, length, take,
  drop, replicate, All-replicate, length-replicate, arith,
}
use aa_sdk_go.Prelude.Int.{ℤ, pos}
use aa_sdk_go.Prelude.Outcome.{ok, panic, raised}
use aa_sdk_go.Bytes.{Bytes, Address, Hash, IsArray, big_bytes, set_bytes}
use aa_sdk_go.UserOperation.{UserOperation, PackedUserOperation, new_user_op_with_default}
use aa_sdk_go.Ethereum.{words}
use aa_sdk_go.Packing.{
  pack_int, pack_paymaster_and_data, pack_user_operation, paymaster_validation_gas_offset,
  paymaster_post_op_gas_offset, paymaster_data_offset,
}
use aa_sdk_go.Packing.Layout.{pack_int-halves, pack_paymaster_and_data-offsets}
use aa_sdk_go.Packing.Faults.{HasGas, pack_int-panic, pack_int-overflow, pack_user_operation-HasGas}
use aa_sdk_go.Hashing.{hashed_user_op, get_user_op_hash, get_paymaster_hash, Collision}
use aa_sdk_go.Hashing.Binding.{
  IsPacked, SameSigned, IsDomain, op_inputs, domain_values, hashed_user_op-binds,
  get_user_op_hash-binds,
}
use aa_sdk_go.Hashing.{paymaster_values}
use aa_sdk_go.Digits.{AllBelow}
use aa_sdk_go.Prelude.{All-append, length-append}
use aa_sdk_go.Hashing.Sponsor.{
  IsSponsored, IsWindow, SameSponsored, sponsor_inputs, get_paymaster_hash-binds,
}
use aa_sdk_go.Hashing.Preimage.{
  hash_preimage, sponsor_preimage, get_user_op_hash-preimage, get_paymaster_hash-preimage,
}
use aa_sdk_go.Hashing.Paymaster.{get_paymaster_hash-prefix}
use aa_sdk_go.Tests.Sample.{sample, sample-IsDocumented, packed}

filled-IsArray : (n a : ℕ) → a < 256 → IsArray n (replicate n a)
filled-IsArray n a h = (length-replicate {A = ℕ} n a, All-replicate (λ d. d < 256) n h)

packed-IsPacked : (sig : Bytes) → IsPacked (packed sig)
packed-IsPacked sig = record {
  sender = filled-IsArray 20 17 (omega arith);
  nonce = (omega arith, inr refl);
  account_gas_limits = filled-IsArray 32 1 (omega arith);
  pre_verification_gas = (omega arith, inr refl);
  gas_fees = filled-IsArray 32 2 (omega arith);
}

abbrev entrypoint : Address
entrypoint = replicate 20 9

abbrev one_chain : Option ℤ
one_chain = some (pos 1)

one_chain-IsDomain : IsDomain sample sample-IsDocumented entrypoint one_chain
one_chain-IsDomain = (filled-IsArray 20 9 (omega arith), (omega arith, inr refl))

abbrev signed : PackedUserOperation
signed = packed (7 ∷ [])

same_hash : hashed_user_op sample (packed []) ≡ hashed_user_op sample signed
unfolding hashed_user_op
same_hash = refl

hashed_user_op-binds_example :
    SameSigned (packed []) signed ⊎ Collision sample (op_inputs sample (packed []) signed)
hashed_user_op-binds_example =
    hashed_user_op-binds sample sample-IsDocumented (packed []) signed (packed-IsPacked [])
      (packed-IsPacked (7 ∷ [])) same_hash

same_domain_hash :
    get_user_op_hash sample (packed []) entrypoint one_chain
    ≡ get_user_op_hash sample signed entrypoint one_chain
unfolding get_user_op_hash hashed_user_op
same_domain_hash = refl

get_user_op_hash-binds_example :
    (SameSigned (packed []) signed × (entrypoint ≡ entrypoint) × (one_chain ≡ one_chain))
    ⊎ Collision sample (
        (
          words (domain_values sample (packed []) entrypoint one_chain),
          words (domain_values sample signed entrypoint one_chain),
        )
        ∷ op_inputs sample (packed []) signed)
get_user_op_hash-binds_example =
    get_user_op_hash-binds sample sample-IsDocumented (packed []) signed entrypoint entrypoint
      one_chain one_chain (packed-IsPacked []) (packed-IsPacked (7 ∷ [])) one_chain-IsDomain
      one_chain-IsDomain same_domain_hash

get_user_op_hash-preimage_example :
    get_user_op_hash sample signed entrypoint one_chain
    ≡ ok (sample.keccak256_hash (hash_preimage sample signed entrypoint one_chain))
get_user_op_hash-preimage_example =
    get_user_op_hash-preimage sample sample-IsDocumented signed entrypoint one_chain
      (packed-IsPacked (7 ∷ [])) one_chain-IsDomain

pack_int-halves_example :
    (h : Hash) × (pack_int sample (some (pos 200000)) (some (pos 2000000)) ≡ ok h)
    × IsArray 32 h
    × (set_bytes (take 16 h) ≡ pos 200000)
    × (set_bytes (drop 16 h) ≡ pos 2000000)
pack_int-halves_example =
    pack_int-halves sample sample-IsDocumented 200000 2000000 (omega arith) (omega arith)

pack_paymaster_and_data-offsets_example :
    (bs : Bytes) × (pack_paymaster_and_data sample
        (replicate 20 3)
        (some (pos 300000))
        (some (pos 100))
        (8 ∷ [])
      ≡ ok bs)
    × (take paymaster_validation_gas_offset bs ≡ replicate 20 3)
    × (set_bytes (take 16 (drop paymaster_validation_gas_offset bs)) ≡ pos 300000)
    × (set_bytes (take 16 (drop paymaster_post_op_gas_offset bs)) ≡ pos 100)
    × (drop paymaster_data_offset bs ≡ 8 ∷ [])
    × (length bs ≡ paymaster_data_offset + 1)
pack_paymaster_and_data-offsets_example =
    pack_paymaster_and_data-offsets sample sample-IsDocumented (replicate 20 3) 300000 100 (8 ∷ [])
      (length-replicate {A = ℕ} 20 3) (omega arith) (omega arith)

pack_int-panic_example :
    (pack_int sample none (some (pos 3)) ≡ panic (raised "nil data"))
    ↔ (◌≡◌ {A = Option ℤ} none none ⊎ (some (pos 3) ≡ none))
pack_int-panic_example = pack_int-panic sample none (some (pos 3))

pack_int-overflow_example :
    pack_int sample (some (pos (256 ^ 31))) (some (pos 3)) ≡ ok (big_bytes (pos (256 ^ 31)))
pack_int-overflow_example =
    pack_int-overflow sample sample-IsDocumented (256 ^ 31) (pos 3) (omega arith) (omega arith)

abbrev op : UserOperation
op = new_user_op_with_default (replicate 20 17) (1 ∷ 2 ∷ []) (some (pos 0))

pack_user_operation-HasGas_example :
    ((p : PackedUserOperation) × (pack_user_operation sample (some op) ≡ ok p)) ↔ HasGas op
pack_user_operation-HasGas_example = pack_user_operation-HasGas sample op

get_paymaster_hash-prefix_example :
    get_paymaster_hash sample
      (record signed { paymaster_and_data = replicate 52 3 ++ (1 ∷ []); signature = 4 ∷ [] })
      one_chain
      (some (pos 9))
      (some (pos 0))
    ≡ get_paymaster_hash sample
        (record signed { paymaster_and_data = replicate 52 3 ++ (2 ∷ []); signature = 5 ∷ [] })
        one_chain
        (some (pos 9))
        (some (pos 0))
get_paymaster_hash-prefix_example =
    get_paymaster_hash-prefix sample signed (replicate 52 3) (1 ∷ []) (2 ∷ []) (4 ∷ []) (5 ∷ [])
      one_chain (some (pos 9)) (some (pos 0)) (length-replicate {A = ℕ} 52 3)

-- The operation with 52 bytes of paymasterAndData and the paymaster's data behind them.
abbrev sponsored : Bytes → PackedUserOperation
sponsored data' = record signed { paymaster_and_data = replicate 52 3 ++ data' }

sponsored-IsSponsored : (data' : Bytes) → AllBelow 256 data' → IsSponsored (sponsored data')
sponsored-IsSponsored data' h = record {
  packed = record {
    sender = filled-IsArray 20 17 (omega arith);
    nonce = (omega arith, inr refl);
    account_gas_limits = filled-IsArray 32 1 (omega arith);
    pre_verification_gas = (omega arith, inr refl);
    gas_fees = filled-IsArray 32 2 (omega arith);
  };
  bytes =
      All-append (λ d. d < 256) (replicate 52 3) data'
        (All-replicate (λ d. d < 256) 52 (omega arith)) h;
  long = omega (arith, length-append (replicate 52 3) data', length-replicate {A = ℕ} 52 3);
}

abbrev an_hour : Option ℤ
an_hour = some (pos 3600)

window : IsWindow one_chain an_hour (some (pos 0))
window = ((omega arith, inr refl), (omega arith, inl refl), (omega arith, inl refl))

get_paymaster_hash-preimage_example :
    get_paymaster_hash sample (sponsored []) one_chain an_hour (some (pos 0))
    ≡ ok (
        sample.keccak256_hash
          (sponsor_preimage sample (sponsored []) one_chain an_hour (some (pos 0))))
get_paymaster_hash-preimage_example =
    get_paymaster_hash-preimage sample sample-IsDocumented (sponsored []) one_chain an_hour
      (some (pos 0)) (sponsored-IsSponsored [] tt) window

get_paymaster_hash-binds_example :
    (SameSponsored (sponsored []) (sponsored (9 ∷ []))
      × (one_chain ≡ one_chain)
      × (an_hour ≡ an_hour)
      × (◌≡◌ {A = Option ℤ} (some (pos 0)) (some (pos 0))))
    ⊎ Collision sample (
        sponsor_inputs sample
          (sponsored [])
          (sponsored (9 ∷ []))
          (words (paymaster_values sample (sponsored []) one_chain an_hour (some (pos 0))))
          (words (paymaster_values sample (sponsored (9 ∷ [])) one_chain an_hour (some (pos 0)))))
get_paymaster_hash-binds_example =
    get_paymaster_hash-binds sample sample-IsDocumented (sponsored []) (sponsored (9 ∷ []))
      one_chain one_chain an_hour an_hour (some (pos 0)) (some (pos 0))
      (sponsored-IsSponsored [] tt) (sponsored-IsSponsored (9 ∷ []) (omega arith, tt)) window window
      (get_paymaster_hash-prefix sample signed (replicate 52 3) [] (9 ∷ []) (7 ∷ []) (7 ∷ [])
        one_chain an_hour (some (pos 0)) (length-replicate {A = ℕ} 52 3))
