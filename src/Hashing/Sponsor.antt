-- ===== src/Hashing/Sponsor.antt =====
-- What the hash that a paymaster signs binds.
use aa_sdk_go.Prelude.{
  ℕ, zero, suc, ◌^◌, ◌≤◌, ◌≡◌, refl, sym, ap, ◌∙◌, ◌⊎◌, inl, inr, Option, List, [], ◌∷◌, length,
  take, drop, length-take, length-drop, ltb, false, arith,
}
use mathlib.Core.Path.{subst}
use aa_sdk_go.Prelude.Int.{ℤ}
use aa_sdk_go.Prelude.Outcome.{ok}
use aa_sdk_go.Digits.{value-lt, value_injective, AllBelow}
use aa_sdk_go.Bytes.{Bytes, Hash, IsArray, set_bytes}
use aa_sdk_go.UserOperation.{PackedUserOperation}
use aa_sdk_go.Ethereum.{Ethereum, IsDocumented, IsUint, AllHold, words}
use aa_sdk_go.Hashing.{paymaster_types, paymaster_values, get_paymaster_hash, Collision}
use aa_sdk_go.Hashing.Binding.{IsPacked, unless, found_later, preimages, words-binds}
use aa_sdk_go.Packing.{paymaster_data_offset}

-- A packed operation whose paymasterAndData has at least its 52 bytes.
pub record IsSponsored (op : PackedUserOperation) : Type 0 where
  pub packed : IsPacked op
  pub bytes : AllBelow 256 op.paymaster_and_data
  pub long : paymaster_data_offset ≤ length op.paymaster_and_data

-- The chain, and the window of the paymaster's signature.
abbrev pub IsWindow : Option ℤ → Option ℤ → Option ℤ → Type 0
IsWindow chain_id valid_until valid_after =
    IsUint 256 chain_id × IsUint 48 valid_until × IsUint 48 valid_after

-- All that the paymaster signs: not the paymaster's data and not the signature.
pub record SameSponsored (a b : PackedUserOperation) : Type 0 where
  pub sender : a.sender ≡ b.sender
  pub nonce : a.nonce ≡ b.nonce
  pub init_code : a.init_code ≡ b.init_code
  pub call_data : a.call_data ≡ b.call_data
  pub account_gas_limits : a.account_gas_limits ≡ b.account_gas_limits
  pub pre_verification_gas : a.pre_verification_gas ≡ b.pre_verification_gas
  pub gas_fees : a.gas_fees ≡ b.gas_fees
  pub paymaster : take 20 a.paymaster_and_data ≡ take 20 b.paymaster_and_data
  pub paymaster_gas :
      take 32 (drop 20 a.paymaster_and_data) ≡ take 32 (drop 20 b.paymaster_and_data)

All-take : (n : ℕ) (xs : Bytes) → AllBelow 256 xs → AllBelow 256 (take n xs)
All-take zero xs h = tt
All-take (suc n) [] h = tt
All-take (suc n) (x ∷ xs) h = (h.0, All-take n xs h.1)

All-drop : (n : ℕ) (xs : Bytes) → AllBelow 256 xs → AllBelow 256 (drop n xs)
All-drop zero xs h = h
All-drop (suc n) [] h = tt
All-drop (suc n) (x ∷ xs) h = All-drop n xs h.1

pub address_part :
    (op : PackedUserOperation) → IsSponsored op → IsArray 20 (take 20 op.paymaster_and_data)
address_part op s =
    (omega (arith, length-take 20 op.paymaster_and_data, s.long), All-take 20 _ s.bytes)

pub gas_part :
    (op : PackedUserOperation)
    → IsSponsored op
    → IsArray 32 (take 32 (drop 20 op.paymaster_and_data))
gas_part op s = (
  omega (
    arith,
    length-take 32 (drop 20 op.paymaster_and_data),
    length-drop 20 op.paymaster_and_data,
    s.long,
  ),
  All-take 32 _ (All-drop 20 _ s.bytes),
)

pub set_bytes-IsUint : (bs : Bytes) → IsArray 32 bs → IsUint 256 (Option.some (set_bytes bs))
unfolding set_bytes
set_bytes-IsUint bs h = (omega (arith, ap (λ n. 256 ^ n) h.0, value-lt 256 bs h.1), inr refl)

set_bytes_injective :
    (as' bs : Bytes) → IsArray 32 as' → IsArray 32 bs → set_bytes as' ≡ set_bytes bs → as' ≡ bs
unfolding set_bytes
set_bytes_injective as' bs ha hb e = value_injective 256 as' bs ha.1 hb.1 (ha.0 ∙ sym hb.0) (cc e)

module _ {Key Abi : Type 0} (g : Ethereum Key Abi) where
  -- What the hash is taken of for two operations, input by input.
  abbrev pub sponsor_inputs :
      PackedUserOperation → PackedUserOperation → Bytes → Bytes → List (Bytes × Bytes)
  sponsor_inputs a b packed_a packed_b =
      (packed_a, packed_b) ∷ (a.init_code, b.init_code) ∷ (a.call_data, b.call_data) ∷ []

module _ {Key Abi : Type 0} (g : Ethereum Key Abi) (doc : IsDocumented g) where
  pub address_argument :
      (op : PackedUserOperation)
      → IsSponsored op
      → g.bytes_to_address (take 20 op.paymaster_and_data) ≡ take 20 op.paymaster_and_data
  address_argument op s = doc.bytes_to_address_lem _ (address_part op s).0

  paymaster_values-AllHold :
      (op : PackedUserOperation) (chain_id valid_until valid_after : Option ℤ)
      → IsSponsored op
      → IsWindow chain_id valid_until valid_after
      → AllHold paymaster_types (paymaster_values g op chain_id valid_until valid_after)
  paymaster_values-AllHold op chain_id valid_until valid_after s (c, u, a) =
      let p = s.packed in
      (
        p.sender,
        (
          p.nonce,
          (
            (refl, doc.keccak256_hash-IsArray op.init_code),
            (
              (refl, doc.keccak256_hash-IsArray op.call_data),
              (
                (refl, p.account_gas_limits),
                (
                  set_bytes-IsUint _ (gas_part op s),
                  (
                    p.pre_verification_gas,
                    (
                      (refl, p.gas_fees),
                      (
                        c,
                        (
                          subst (IsArray 20) (sym (address_argument op s)) (address_part op s),
                          (u, (a, tt)),
                        ),
                      ),
                    ),
                  ),
                ),
              ),
            ),
          ),
        ),
      )

  pub get_paymaster_hash-words :
      (op : PackedUserOperation) (chain_id valid_until valid_after : Option ℤ)
      → IsSponsored op
      → IsWindow chain_id valid_until valid_after
      → get_paymaster_hash g op chain_id valid_until valid_after
        ≡ ok (g.keccak256_hash (words (paymaster_values g op chain_id valid_until valid_after)))
  unfolding get_paymaster_hash
  get_paymaster_hash-words op chain_id valid_until valid_after s w =
      let enough : ltb (length op.paymaster_and_data) paymaster_data_offset ≡ false =
        (let long = s.long in ground arith) in
      rw (
        enough,
        doc.pack_words paymaster_types (paymaster_values g op chain_id valid_until valid_after)
            (paymaster_values-AllHold op chain_id valid_until valid_after s w),
      )

  pub get_paymaster_hash-total :
      (op : PackedUserOperation) (chain_id valid_until valid_after : Option ℤ)
      → IsSponsored op
      → IsWindow chain_id valid_until valid_after
      → (h : Hash) × (get_paymaster_hash g op chain_id valid_until valid_after ≡ ok h)
        × IsArray 32 h
  get_paymaster_hash-total op chain_id valid_until valid_after s w = (
    _,
    get_paymaster_hash-words op chain_id valid_until valid_after s w,
    doc.keccak256_hash-IsArray _,
  )

  -- Two operations whose senders and words have their lengths, whose numbers are of 256 bits and whose
  -- paymasterAndData has at least 52 bytes, with one hash from GetPaymasterHash, under whatever chain
  -- ids of 256 bits and windows of 48-bit times, agree in every field but paymasterAndData and the
  -- signature, and in the first 52 bytes of paymasterAndData, and were hashed for one chain id and one
  -- window, unless Keccak-256 has one digest for two different inputs that it was given for them: their
  -- encodings, init codes or call data.
  pub get_paymaster_hash-binds :
      (a b : PackedUserOperation) (ca cb ua ub aa ab : Option ℤ)
      → IsSponsored a
      → IsSponsored b
      → IsWindow ca ua aa
      → IsWindow cb ub ab
      → get_paymaster_hash g a ca ua aa ≡ get_paymaster_hash g b cb ub ab
      → (SameSponsored a b × (ca ≡ cb) × (ua ≡ ub) × (aa ≡ ab))
        ⊎ Collision g (
            sponsor_inputs g a b
              (words (paymaster_values g a ca ua aa))
              (words (paymaster_values g b cb ub ab)))
  get_paymaster_hash-binds a b ca cb ua ub aa ab sa sb wa wb e =
      elim (words-binds g doc paymaster_types (paymaster_values g a ca ua aa)
        (paymaster_values g b cb ub ab) (paymaster_values-AllHold a ca ua aa sa wa)
        (paymaster_values-AllHold b cb ub ab sb wb)
        (cc
          (get_paymaster_hash-words a ca ua aa sa wa, get_paymaster_hash-words b cb ub ab sb wb))) [
            | inr c ↦ inr (inl c)
            | inl same ↦ found_later (by_fields same)
          ]
    where
      by_fields :
          paymaster_values g a ca ua aa ≡ paymaster_values g b cb ub ab
          → (SameSponsored a b × (ca ≡ cb) × (ua ≡ ub) × (aa ≡ ab))
            ⊎ Collision g ((a.init_code, b.init_code) ∷ (a.call_data, b.call_data) ∷ [])
      by_fields same =
          unless
            (preimages g doc ((a.init_code, b.init_code) ∷ (a.call_data, b.call_data) ∷ [])
              (cc, (cc, tt)))
            λ inputs. inl (
              record {
                sender = cc;
                nonce = cc;
                init_code = inputs.0;
                call_data = inputs.1.0;
                account_gas_limits = cc;
                pre_verification_gas = cc;
                gas_fees = cc;
                paymaster = cc (address_argument a sa, address_argument b sb);
                paymaster_gas = set_bytes_injective _ _ (gas_part a sa) (gas_part b sb) (cc);
              },
              cc,
              cc,
              cc,
            )
