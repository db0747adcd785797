-- ===== src/Signing/Laws.antt =====
-- The form of a signature, and that a signed digest binds its message.
use aa_sdk_go.Prelude.{
  ℕ, zero, suc, ◌+◌, ◌%◌, ◌<◌, ◌≤◌, ◌≡◌, refl, sym, ap, ◌∙◌, ◌⊎◌, inl, inr, Option, some, ◌++◌,
  length, take, drop, get_elem?, get_elem?-some, get_elem?-set_self, length-set, take-set, set,
  drop-get_elem?, length-append, length-map, append-injective, arith, dec_lt, ◌==◌, Bool-cases,
  if◌then◌else◌,
}
use aa_sdk_go.Prelude.Outcome.{ok, >>=-eq-ok, wrapping, wrapping-eq-ok}
use aa_sdk_go.Digits.{digits, length-digits, value-lt, value-digits, digits-AllBelow, AllBelow}
use aa_sdk_go.Bytes.{Bytes, Address, Hash}
use aa_sdk_go.Ethereum.{Ethereum, IsDocumented}
use aa_sdk_go.Hashing.{get_user_op_hash}
use aa_sdk_go.Signing.{
  message_prefix, decimal, prefixed_message, add_recovery_offset, sign_message, sign_user_op,
}
use aa_sdk_go.Prelude.Int.{ℤ}
use aa_sdk_go.UserOperation.{PackedUserOperation}
use native.Mathlib.Nat.{lt_of_le_of_lt}

length-digits_mono : (b n m : ℕ) → 1 < b → n ≤ m → length (digits b n) ≤ length (digits b m)
length-digits_mono b n m hb h = length-digits b (length (digits b m)) n hb (
    lt_of_le_of_lt h
      (rw (value-digits b m hb) at (value-lt b (digits b m) (digits-AllBelow b m hb))))

length-decimal : (n : ℕ) → length (decimal n) ≡ (if n == 0 then 1 else length (digits 10 n))
unfolding decimal
length-decimal n = elim (Bool-cases (n == 0)) [
  | inl e ↦ rw e
  | inr e ↦ rw e (length-map (λ d. d + b'0') (digits 10 n))
]

one_digit : length (digits 10 1) ≡ 1
unfolding digits
one_digit = refl

length-decimal_mono : (n m : ℕ) → n ≤ m → length (decimal n) ≤ length (decimal m)
length-decimal_mono n m h = ground (
  arith,
  length-decimal n,
  length-decimal m,
  one_digit,
  length-digits_mono 10 1 m (omega arith),
  length-digits_mono 10 n m (omega arith),
)

-- The length of what follows the prefix tells the length of the message.
length-decimal_injective : (n m : ℕ) → length (decimal n) + n ≡ length (decimal m) + m → n ≡ m
length-decimal_injective n m h = elim (dec_lt n m) [
  | yes lt ↦ absurd (omega (arith, length-decimal_mono n m (omega arith)))
  | no ge ↦ omega (arith, length-decimal_mono m n (omega arith))
]

-- Two messages whose prefixed forms are the same bytes are equal, whatever digits they begin with.
pub prefixed_message_injective : (a b : Bytes) → prefixed_message a ≡ prefixed_message b → a ≡ b
unfolding prefixed_message
prefixed_message_injective a b e =
    let rest : decimal (length a) ++ a ≡ decimal (length b) ++ b =
      (append-injective message_prefix message_prefix refl e).1 in
    let same : length a ≡ length b = length-decimal_injective (length a) (length b) (
      sym (length-append (decimal (length a)) a)
      ∙ ap length rest
      ∙ length-append (decimal (length b)) b) in
    (append-injective (decimal (length a)) (decimal (length b)) (ap (λ n. length (decimal n)) same)
      rest).1

-- The last byte of a raw signature is moved up by 27, and nothing else changes.
add_recovery_offset_lem :
    (raw : Bytes) {signature : Bytes}
    → length raw ≡ 65
    → AllBelow 2 (drop 64 raw)
    → add_recovery_offset raw ≡ ok signature
    → (length signature ≡ 65)
      × (take 64 signature ≡ take 64 raw)
      × ((get_elem? signature 64 ≡ some 27) ⊎ (get_elem? signature 64 ≡ some 28))
unfolding add_recovery_offset
add_recovery_offset_lem raw {signature} l small e =
    let (v, at_64) = get_elem?-some raw 64 (omega arith) in
    let written : signature ≡ set raw 64 ((v + 27) % 256) = ground arith in
    let bit : v < 2 = (rw (drop-get_elem? raw 64 at_64) at small).0 in
    let read : get_elem? signature 64 ≡ some ((v + 27) % 256) =
      rw written (get_elem?-set_self raw 64 ((v + 27) % 256) (omega arith)) in
    (rw written (length-set raw 64 _ ∙ l), rw written (take-set raw 64 _), recovery v bit read)
  where
    recovery :
        (v : ℕ)
        → v < 2
        → get_elem? signature 64 ≡ some ((v + 27) % 256)
        → (get_elem? signature 64 ≡ some 27) ⊎ (get_elem? signature 64 ≡ some 28)
    recovery zero h r = inl r
    recovery (suc zero) h r = inr r
    recovery (suc (suc v)) h r = absurd (omega arith)

module _ {Key Abi : Type 0} (g : Ethereum Key Abi) (doc : IsDocumented g) where
  -- A signature from SignMessage is one from crypto.Sign over the digest of the prefixed message:
  -- 65 bytes, of which the first 64 are left alone and the last is 27 or 28 in place of 0 or 1.
  pub sign_message_shape :
      (key : Option Key) (message signature : Bytes)
      → sign_message g key message ≡ ok signature
      → (raw : Bytes) × (g.sign (g.keccak256_hash (prefixed_message message)) key ≡ ok raw)
        × (length signature ≡ 65)
        × (take 64 signature ≡ take 64 raw)
        × ((get_elem? signature 64 ≡ some 27) ⊎ (get_elem? signature 64 ≡ some 28))
  unfolding sign_message
  sign_message_shape key message signature e =
      let (raw, wrapped, done) =
        >>=-eq-ok
          (wrapping "failed to sign message"
            (g.sign (g.keccak256_hash (prefixed_message message)) key))
          add_recovery_offset e in
      let signed = wrapping-eq-ok "failed to sign message" _ wrapped in
      let (array, bit) = doc.sign_shape _ key raw signed in
      let (l, front, last) = add_recovery_offset_lem raw array.0 bit done in
      (raw, signed, l, front, last)

module _ {Key Abi : Type 0} (g : Ethereum Key Abi) where
  -- What SignUserOp returns is the operation's hash with a signature of it.
  pub sign_user_op-ok :
      (entrypoint : Address) (chain_id : Option ℤ) (packed : PackedUserOperation) (key : Option Key)
      {sig : Bytes} {hash : Hash}
      → sign_user_op g entrypoint chain_id packed key ≡ ok (sig, hash)
      → (get_user_op_hash g packed entrypoint chain_id ≡ ok hash)
        × (sign_message g key hash ≡ ok sig)
  unfolding sign_user_op
  sign_user_op-ok entrypoint chain_id packed key {sig} {hash} e =
      let (h, e₁, r₁) = >>=-eq-ok (get_user_op_hash g packed entrypoint chain_id) _ e in
      let (s, e₂, r₂) = >>=-eq-ok (sign_message g key h) _ r₁ in join h s e₁ e₂ (cc r₂) (cc r₂)
    where
      join :
          (h : Hash) (s : Bytes)
          → get_user_op_hash g packed entrypoint chain_id ≡ ok h
          → sign_message g key h ≡ ok s
          → h ≡ hash
          → s ≡ sig
          → (get_user_op_hash g packed entrypoint chain_id ≡ ok hash)
            × (sign_message g key hash ≡ ok sig)
      join h s e₁ e₂ p q = (e₁ ∙ ap ok p, ap (sign_message g key) (sym p) ∙ e₂ ∙ ap ok q)
