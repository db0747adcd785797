-- ===== src/Client/Fill/Total.antt =====
-- That the two signing stages of FillAndSign succeed, on an operation whose fields are filled in.
use aa_sdk_go.Prelude.{
  ℕ, ◌^◌, ◌<◌, ◌≤◌, ◌≡◌, refl, inl, ap, ◌∙◌, ◌++◌, Option, some, [], ◌∷◌, length, get_elem?,
  get_elem?-some, set, ◌+◌, ◌%◌, length-append, All-append, All-replicate, arith,
}
use aa_sdk_go.Prelude.Int.{ℤ, pos}
use aa_sdk_go.Prelude.Outcome.{ok}
use aa_sdk_go.Digits.{AllBelow}
use aa_sdk_go.Bytes.{Bytes, Hash, IsArray}
use aa_sdk_go.UserOperation.{UserOperation}
use aa_sdk_go.Ethereum.{Ethereum, IsDocumented, integer, IsUint, words}
use aa_sdk_go.Ethereum.Words.{words-AllBelow}
use aa_sdk_go.Packing.{
  packed_of, pack_int, pack_paymaster_and_data, encode_paymaster_data, empty_signature,
  window_types,
}
use aa_sdk_go.Packing.Layout.{
  half_word, half_word-IsArray, pack_int-halves, pack_paymaster_and_data-half_word,
}
use aa_sdk_go.Packing.Parts.{Parts, Parts-pack_user_operation, Parts-packed_for_paymaster}
use aa_sdk_go.Hashing.Binding.{IsPacked, IsDomain, domain_values, get_user_op_hash-words}
use aa_sdk_go.Hashing.Sponsor.{get_paymaster_hash-total}
use aa_sdk_go.Signing.{prefixed_message, add_recovery_offset, sign_message, sign_user_op}
use aa_sdk_go.Client.{Client, Node}
use aa_sdk_go.Client.Fill.{Filling, valid_until, valid_after, fill_paymaster, fill_signature}
use aa_sdk_go.Client.Fill.Agreement.{PaymasterGas}

-- Two numbers that PackInt packs.
pub record IsHalves (x y : Option ℤ) : Type 0 where
  pub first : ℕ
  pub second : ℕ
  pub first_is : x ≡ some (pos first)
  pub second_is : y ≡ some (pos second)
  pub first_fits : first < 2 ^ 128
  pub second_fits : second < 2 ^ 128

-- The fields that are hashed have values of the contracts' types.
pub record IsFillable (op : UserOperation) : Type 0 where
  pub sender : IsArray 20 op.sender
  pub nonce : IsUint 256 op.nonce
  pub pre_verification_gas : IsUint 256 op.pre_verification_gas
  pub limits : IsHalves op.verification_gas_limit op.call_gas_limit
  pub fees : IsHalves op.max_priority_fee_per_gas op.max_fee_per_gas
  pub paymaster : PaymasterGas op

module _ {Key Abi : Type 0} (g : Ethereum Key Abi) (doc : IsDocumented g) where
  -- crypto.Sign with this key succeeds on a digest.
  abbrev pub CanSign : Key → Type 0
  CanSign key = (h : Hash) → (s : Bytes) × (g.sign h (some key) ≡ ok s)

  add_recovery_offset-some :
      (raw : Bytes) (v : ℕ)
      → get_elem? raw 64 ≡ some v
      → add_recovery_offset raw ≡ ok (set raw 64 ((v + 27) % 256))
  unfolding add_recovery_offset
  add_recovery_offset-some raw v e = ground arith

  add_recovery_offset-total :
      (raw : Bytes) → length raw ≡ 65 → (s : Bytes) × (add_recovery_offset raw ≡ ok s)
  add_recovery_offset-total raw l =
      let (v, last) = get_elem?-some raw 64 (omega (arith, l)) in
      (set raw 64 ((v + 27) % 256), add_recovery_offset-some raw v last)

  sign_message-total :
      (key : Key) (message : Bytes)
      → CanSign key
      → (s : Bytes) × (sign_message g (some key) message ≡ ok s)
  unfolding sign_message
  sign_message-total key message can =
      let (raw, signed) = can (g.keccak256_hash (prefixed_message message)) in
      let (s, moved) = add_recovery_offset-total raw (doc.sign_shape _ (some key) raw signed).0.0 in
      (s, rw (signed, moved))

  pack_int-total :
      (x y : Option ℤ) → IsHalves x y → (h : Hash) × (pack_int g x y ≡ ok h) × IsArray 32 h
  pack_int-total x y half =
      let (h, packed, array, _, _) =
        pack_int-halves g doc half.first half.second half.first_fits half.second_fits in
      (h, (λ i. pack_int g (half.first_is i) (half.second_is i)) ∙ packed, array)

  -- The two times, encoded.
  abbrev window_bytes : Bytes
  window_bytes = words (integer valid_until ∷ integer valid_after ∷ [])

  window_bytes-AllBelow : AllBelow 256 window_bytes
  window_bytes-AllBelow =
      words-AllBelow window_types (integer valid_until ∷ integer valid_after ∷ [])
        ((omega arith, inl refl), ((omega arith, inl refl), tt))

  encode_paymaster_data-window :
      (sig : Bytes) → encode_paymaster_data g valid_until valid_after sig ≡ ok (window_bytes ++ sig)
  unfolding encode_paymaster_data
  encode_paymaster_data-window sig = rw (
      doc.pack_words window_types (integer valid_until ∷ integer valid_after ∷ [])
        ((omega arith, inl refl), ((omega arith, inl refl), tt)))

  abbrev parts_of : (op : UserOperation) (d : Bytes) → IsFillable op → Parts g op d
  parts_of op d f =
      let (l, packed_l, _) = pack_int-total _ _ f.limits in
      let (p, packed_p, _) = pack_int-total _ _ f.fees in
      record {
        limits = l;
        fees = p;
        front =
            op.paymaster
            ++ (half_word f.paymaster.verification ++ (half_word f.paymaster.post_op ++ d));
        limits_packed = packed_l;
        fees_packed = packed_p;
        front_packed =
            (λ i.
              pack_paymaster_and_data g op.paymaster (f.paymaster.verification_is i)
                (f.paymaster.post_op_is i) d)
            ∙ pack_paymaster_and_data-half_word g doc op.paymaster f.paymaster.verification
                f.paymaster.post_op d;
      }

  packed_of-IsPacked :
      (op : UserOperation) (d : Bytes) (f : IsFillable op)
      → IsPacked
          (packed_of op (parts_of op d f).limits (parts_of op d f).fees (parts_of op d f).front)
  packed_of-IsPacked op d f = record {
    sender = f.sender;
    nonce = f.nonce;
    account_gas_limits = (pack_int-total _ _ f.limits).2;
    pre_verification_gas = f.pre_verification_gas;
    gas_fees = (pack_int-total _ _ f.fees).2;
  }

  front-IsSponsored :
      (op : UserOperation) (d : Bytes) (f : IsFillable op)
      → IsArray 20 op.paymaster
      → AllBelow 256 d
      → AllBelow 256 (parts_of op d f).front × (52 ≤ length (parts_of op d f).front)
  front-IsSponsored op d f array below =
      let v = f.paymaster.verification in
      let p = f.paymaster.post_op in
      let (lv, xv) = half_word-IsArray v f.paymaster.verification_fits in
      let (lp, xp) = half_word-IsArray p f.paymaster.post_op_fits in
      (
        All-append (λ b. b < 256) op.paymaster (half_word v ++ (half_word p ++ d)) array.1
            (All-append (λ b. b < 256) (half_word v) (half_word p ++ d) xv
              (All-append (λ b. b < 256) (half_word p) d xp below)),
        omega (
          arith,
          length-append op.paymaster (half_word v ++ (half_word p ++ d)),
          length-append (half_word v) (half_word p ++ d),
          length-append (half_word p) d,
          array.0,
          lv,
          lp,
        ),
      )

module _ {Key Abi Rotator Net : Type 0} (g : Ethereum Key Abi) (doc : IsDocumented g)
    (node : Node Net) (c : Client Key Abi Rotator) where
  -- Where the operation's fields, the paymaster's address and the chain id are of the contracts' types,
  -- the gas numbers below 2^128, and the verifying signer is a key that can sign, FillAndSign's filling
  -- in of the paymaster succeeds.
  pub fill_paymaster-total :
      (s : Filling Net) (key : Key)
      → IsFillable s.op
      → IsArray 20 c.config.paymaster_address
      → IsUint 256 c.chain_id
      → c.config.verifying_signer ≡ some key
      → CanSign g doc key
      → (t : Filling Net) × (fill_paymaster g node c s ≡ (ok tt, t))
  unfolding fill_paymaster
  fill_paymaster-total s key f array chain signer can =
      let op : UserOperation = record s.op { paymaster = c.config.paymaster_address } in
      let d : Bytes = window_bytes g doc ++ empty_signature in
      let fillable : IsFillable op = record {
        sender = f.sender;
        nonce = f.nonce;
        pre_verification_gas = f.pre_verification_gas;
        limits = f.limits;
        fees = f.fees;
        paymaster = record {
          verification = f.paymaster.verification;
          post_op = f.paymaster.post_op;
          verification_is = f.paymaster.verification_is;
          post_op_is = f.paymaster.post_op_is;
          verification_fits = f.paymaster.verification_fits;
          post_op_fits = f.paymaster.post_op_fits;
        };
      } in
      let p = parts_of g doc op d fillable in
      let (below, long) = front-IsSponsored g doc op d fillable array (
        All-append (λ b. b < 256) (window_bytes g doc) empty_signature (window_bytes-AllBelow g doc)
          (All-replicate (λ b. b < 256) 65 (omega arith))) in
      let q = packed_of (record op { signature = [] }) p.limits p.fees p.front in
      let packed : IsPacked q = record {
        sender = f.sender;
        nonce = f.nonce;
        account_gas_limits = (pack_int-total g doc _ _ f.limits).2;
        pre_verification_gas = f.pre_verification_gas;
        gas_fees = (pack_int-total g doc _ _ f.fees).2;
      } in
      let (hash, hashed, _) =
        get_paymaster_hash-total g doc q c.chain_id valid_until valid_after
          (record { packed = packed; bytes = below; long = long })
          (chain, (omega arith, inl refl), (omega arith, inl refl)) in
      let (sig, signed) = sign_message-total g doc key hash can in
      (
        record s { op = record op { paymaster_data = window_bytes g doc ++ sig } },
        rw (
          encode_paymaster_data-window g doc empty_signature,
          Parts-packed_for_paymaster g op d p,
          hashed,
          ap (λ k. sign_message g k hash) signer ∙ signed,
          encode_paymaster_data-window g doc sig,
        ),
      )

  -- Where the operation's fields, the entrypoint and the chain id are of the contracts' types, the gas
  -- numbers below 2^128, and the signer is a key that can sign, FillAndSign's last stage returns a hash.
  pub fill_signature-total :
      (s : Filling Net) (key : Key)
      → IsFillable s.op
      → IsDomain g doc c.config.entrypoint c.chain_id
      → CanSign g doc key
      → (t : Filling Net) × (hash : Hash) × (fill_signature g node c (some key) s ≡ (ok hash, t))
  unfolding fill_signature sign_user_op
  fill_signature-total s key f domain can =
      let p = parts_of g doc s.op s.op.paymaster_data f in
      let q = packed_of s.op p.limits p.fees p.front in
      let hash = g.keccak256_hash (words (domain_values g q c.config.entrypoint c.chain_id)) in
      let hashed =
        get_user_op_hash-words g doc q c.config.entrypoint c.chain_id
          (packed_of-IsPacked g doc s.op s.op.paymaster_data f) domain in
      let (sig, signed) = sign_message-total g doc key hash can in
      (
        record s { op = record s.op { signature = sig } },
        hash,
        rw (Parts-pack_user_operation g s.op p, hashed, signed),
      )
