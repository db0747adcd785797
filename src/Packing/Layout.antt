-- ===== src/Packing/Layout.antt =====
-- Where the fields of the packed gas words, of paymasterAndData and of the paymaster's data stand:
-- the offsets 20, 36 and 52 of paymaster.go, and the halves of PackInt's 32 bytes.
use aa_sdk_go.Prelude.{
  ℕ, zero, suc, ◌+◌, ◌^◌, ◌<◌, ◌≡◌, ap, ◌∙◌, ◌++◌, [], ◌∷◌, some, length, take, drop, length-append,
  take-length-append, drop-length-append, append_assoc, All-append, arith,
}
use aa_sdk_go.Prelude.Int.{pos}
use aa_sdk_go.Prelude.Outcome.{ok}
use aa_sdk_go.Bytes.{Bytes, Address, Hash, IsArray, big_bytes, set_bytes, pad_left}
use aa_sdk_go.Bytes.Padding.{big_bytes-IsArray, value-pad_left, copy_into_exact}
use aa_sdk_go.Ethereum.{Ethereum, IsDocumented}
use native.Mathlib.Nat.{suc-add}
use aa_sdk_go.Packing.{
  pack_int, pack_paymaster_and_data, paymaster_validation_gas_offset, paymaster_post_op_gas_offset,
  paymaster_data_offset,
}

-- A number in 16 bytes.
abbrev pub half_word : ℕ → Bytes
half_word n = pad_left 16 (big_bytes (pos n))

pub half_word-IsArray : (n : ℕ) → n < 2 ^ 128 → IsArray 16 (half_word n)
half_word-IsArray n h = big_bytes-IsArray 16 (pos n) h

set_bytes-half_word : (n : ℕ) → set_bytes (half_word n) ≡ pos n
unfolding set_bytes
set_bytes-half_word n = ap pos (value-pad_left 16 (pos n))

drop_second : (n m : ℕ) (xs ys : Bytes) → length xs ≡ n → drop (n + m) (xs ++ ys) ≡ drop m ys
drop_second n m [] ys h = ap (λ k. drop k ys) (omega arith)
drop_second zero m (x ∷ xs) ys h = absurd (omega arith)
drop_second (suc n) m (x ∷ xs) ys h = rw (suc-add n m) (drop_second n m xs ys (omega arith))

-- Four fields of 20, 16, 16 and any number of bytes, read back at their offsets.
module _ (a b c d : Bytes) (la : length a ≡ 20) (lb : length b ≡ 16) (lc : length c ≡ 16) where
  abbrev whole : Bytes
  whole = a ++ (b ++ (c ++ d))

  gas_words : length (b ++ c) ≡ 32
  gas_words = omega (arith, length-append b c)

  head : length (a ++ (b ++ c)) ≡ 52
  head = omega (arith, length-append a (b ++ c), gas_words)

  regroup : whole ≡ (a ++ (b ++ c)) ++ d
  regroup = simp append_assoc

  from_20 : drop 20 whole ≡ b ++ (c ++ d)
  from_20 = drop-length-append 20 a (b ++ (c ++ d)) la

  parts :
      (take 20 whole ≡ a)
      × (take 16 (drop 20 whole) ≡ b)
      × (take 16 (drop 36 whole) ≡ c)
      × (drop 52 whole ≡ d)
      × (length whole ≡ 52 + length d)
  parts = (
    take-length-append 20 a (b ++ (c ++ d)) la,
    ap (take 16) from_20 ∙ take-length-append 16 b (c ++ d) lb,
    ap (take 16) (drop_second 20 16 a (b ++ (c ++ d)) la ∙ drop-length-append 16 b (c ++ d) lb)
        ∙ take-length-append 16 c d lc,
    ap (drop 52) regroup ∙ drop-length-append 52 (a ++ (b ++ c)) d head,
    ap length regroup ∙ omega (arith, length-append (a ++ (b ++ c)) d, head),
  )

  take_head : take 52 whole ≡ a ++ (b ++ c)
  take_head = ap (take 52) regroup ∙ take-length-append 52 (a ++ (b ++ c)) d head

module _ {Key Abi : Type 0} (g : Ethereum Key Abi) (doc : IsDocumented g) where
  pack_int-half_word :
      (a b : ℕ)
      → a < 2 ^ 128
      → b < 2 ^ 128
      → pack_int g (some (pos a)) (some (pos b)) ≡ ok (half_word a ++ half_word b)
  unfolding pack_int
  pack_int-half_word a b ha hb =
      rw
        (
          doc.left_pad_bytes_lem (big_bytes (pos a)) 16,
          doc.left_pad_bytes_lem (big_bytes (pos b)) 16,
        )
        (ap ok (
          copy_into_exact 32 (half_word a ++ half_word b) (
            omega (
              arith,
              length-append (half_word a) (half_word b),
              (half_word-IsArray a ha).0,
              (half_word-IsArray b hb).0,
            ))))

  -- PackInt puts two numbers below 2^128 into the first and the last 16 bytes of a 32-byte hash,
  -- from which both are read back.
  pub pack_int-halves :
      (a b : ℕ)
      → a < 2 ^ 128
      → b < 2 ^ 128
      → (h : Hash) × (pack_int g (some (pos a)) (some (pos b)) ≡ ok h)
        × IsArray 32 h
        × (set_bytes (take 16 h) ≡ pos a)
        × (set_bytes (drop 16 h) ≡ pos b)
  pack_int-halves a b ha hb =
      let (la, xa) = half_word-IsArray a ha in
      let (lb, xb) = half_word-IsArray b hb in
      (
        half_word a ++ half_word b,
        pack_int-half_word a b ha hb,
        (
          omega (arith, length-append (half_word a) (half_word b), la, lb),
          All-append (λ d. d < 256) (half_word a) (half_word b) xa xb,
        ),
        ap set_bytes (take-length-append 16 (half_word a) (half_word b) la) ∙ set_bytes-half_word a,
        ap set_bytes (drop-length-append 16 (half_word a) (half_word b) la) ∙ set_bytes-half_word b,
      )

  pub pack_paymaster_and_data-half_word :
      (paymaster : Address) (v p : ℕ) (rest : Bytes)
      → pack_paymaster_and_data g paymaster (some (pos v)) (some (pos p)) rest
        ≡ ok (paymaster ++ (half_word v ++ (half_word p ++ rest)))
  unfolding pack_paymaster_and_data
  pack_paymaster_and_data-half_word paymaster v p rest =
      rw (
        doc.left_pad_bytes_lem (big_bytes (pos v)) 16,
        doc.left_pad_bytes_lem (big_bytes (pos p)) 16,
      )

  -- In paymasterAndData the paymaster stands before byte 20, the two gas limits, below 2^128, fill
  -- the bytes from 20 and from 36, and the paymaster's data begins at byte 52.
  pub pack_paymaster_and_data-offsets :
      (paymaster : Address) (v p : ℕ) (rest : Bytes)
      → length paymaster ≡ 20
      → v < 2 ^ 128
      → p < 2 ^ 128
      → (bs : Bytes) × (pack_paymaster_and_data g paymaster (some (pos v)) (some (pos p)) rest
          ≡ ok bs)
        × (take paymaster_validation_gas_offset bs ≡ paymaster)
        × (set_bytes (take 16 (drop paymaster_validation_gas_offset bs)) ≡ pos v)
        × (set_bytes (take 16 (drop paymaster_post_op_gas_offset bs)) ≡ pos p)
        × (drop paymaster_data_offset bs ≡ rest)
        × (length bs ≡ paymaster_data_offset + length rest)
  pack_paymaster_and_data-offsets paymaster v p rest lp hv hp =
      let (p₀, p₁, p₂, p₃, p₄) =
        parts paymaster (half_word v) (half_word p) rest lp (half_word-IsArray v hv).0
          (half_word-IsArray p hp).0 in
      (
        paymaster ++ (half_word v ++ (half_word p ++ rest)),
        pack_paymaster_and_data-half_word paymaster v p rest,
        p₀,
        ap set_bytes p₁ ∙ set_bytes-half_word v,
        ap set_bytes p₂ ∙ set_bytes-half_word p,
        p₃,
        p₄,
      )
