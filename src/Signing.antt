-- ===== src/Signing.antt =====
-- SignMessage of sign.go: the digest of a prefixed message, signed, with the recovery id that
-- Ethereum's contracts expect; and SignUserOp of client.go, which signs an operation's hash.
pub mod Laws
use aa_sdk_go.Prelude.{
  ℕ, ◌+◌, ◌%◌, Option, none, some, List, [], ◌∷◌, ◌++◌, map, length, get_elem?, set, ◌==◌,
  if◌then◌else◌,
}
use aa_sdk_go.Prelude.Outcome.{Result, ok, panic, index_out_of_range, ◌>>=◌, wrapping}
use aa_sdk_go.Digits.{digits}
use aa_sdk_go.Bytes.{Bytes, Address, Hash}
use aa_sdk_go.Prelude.Int.{ℤ}
use aa_sdk_go.UserOperation.{PackedUserOperation}
use aa_sdk_go.Hashing.{get_user_op_hash}
use aa_sdk_go.Ethereum.{Ethereum}

-- "\x19Ethereum Signed Message:\n"
abbrev pub message_prefix : Bytes
message_prefix =
    0x19 ∷ b'E' ∷ b't' ∷ b'h' ∷ b'e' ∷ b'r' ∷ b'e' ∷ b'u' ∷ b'm' ∷ 0x20 ∷ b'S' ∷ b'i' ∷ b'g' ∷ b'n'
    ∷ b'e' ∷ b'd' ∷ 0x20 ∷ b'M' ∷ b'e' ∷ b's' ∷ b's' ∷ b'a' ∷ b'g' ∷ b'e' ∷ b':' ∷ 0x0a ∷ []

-- fmt's "%d" of a length.
unfoldable pub decimal : ℕ → Bytes
decimal n = if n == 0 then b'0' ∷ [] else map (λ d. d + b'0') (digits 10 n)

-- The bytes that are hashed.
unfoldable pub prefixed_message : Bytes → Bytes
prefixed_message message = message_prefix ++ (decimal (length message) ++ message)

-- crypto.RecoveryIDOffset
abbrev recovery_id_offset : ℕ
recovery_id_offset = 64

-- `signature[crypto.RecoveryIDOffset] += 27` on a byte
unfoldable pub add_recovery_offset : Bytes → Result Bytes
add_recovery_offset signature = elim (get_elem? signature recovery_id_offset) [
  | none ↦ panic index_out_of_range
  | some v ↦ ok (set signature recovery_id_offset ((v + 27) % 256))
]

module _ {Key Abi : Type 0} (g : Ethereum Key Abi) where
  unfoldable pub sign_message : Option Key → Bytes → Result Bytes
  unfolding add_recovery_offset
  sign_message private_key message = do
    signature ←
        wrapping "failed to sign message"
          (g.sign (g.keccak256_hash (prefixed_message message)) private_key)
    add_recovery_offset signature

  -- SignUserOp of a client with this entrypoint and chain.
  unfoldable pub sign_user_op :
      Address → Option ℤ → PackedUserOperation → Option Key → Result (Bytes × Hash)
  sign_user_op entrypoint chain_id packed private_key = do
    hash ← get_user_op_hash g packed entrypoint chain_id
    sig ← sign_message private_key hash
    ok (sig, hash)
