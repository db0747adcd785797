-- ===== src/Tests/Rotator.antt =====
-- The properties of the signer rotator, of signing and of quantities at concrete inputs.
use aa_sdk_go.Prelude.{
  ℕ, ◌+◌, ◌%◌, ◌/◌, ◌≡◌, refl, ◌⊎◌, inl, none, some, map_option, [], ◌∷◌, length, take, get_elem?,
  ◌==◌, if◌then◌else◌, arith,
}
use aa_sdk_go.Prelude.Int.{pos}
use aa_sdk_go.Prelude.Outcome.{Result, ok}
use aa_sdk_go.Bytes.{Bytes, big_bytes}
use aa_sdk_go.Digits.{digits, value}
use aa_sdk_go.Hex.{text_16}
use aa_sdk_go.Quantity.{with_0x, hex_to_big_int, hex_to_big_int-text_16}
use aa_sdk_go.Rotator.{RoundRobin, IsValid}
use aa_sdk_go.Rotator.Cycle.{next_many, at, next_many-turn}
use aa_sdk_go.Signing.{prefixed_message, sign_message, decimal}
use aa_sdk_go.Signing.Laws.{prefixed_message_injective, sign_message_shape}
use aa_sdk_go.Tests.Sample.{sample, sample-IsDocumented, sample_sign, digest}

-- Three signers, with the second one next.
abbrev three : RoundRobin ℕ
three = record { signers = some 5 ∷ some 6 ∷ none ∷ []; index = 1 }

three-IsValid : IsValid three
three-IsValid = record { few = omega arith; within = inl (omega arith) }

next_many-turn_example :
    (get_elem? (next_many 5 three).0 4 ≡ map_option ok (get_elem? three.signers ((1 + 4) % 3)))
    × ((next_many 5 three).1 ≡ at three ((1 + 5) % 3))
next_many-turn_example = next_many-turn 5 three three-IsValid (omega arith) 4 (omega arith)

prefixed_message_injective_example : ◌≡◌ {A = Bytes} (b'1' ∷ []) (b'1' ∷ [])
prefixed_message_injective_example = prefixed_message_injective (b'1' ∷ []) (b'1' ∷ []) refl

-- A signature of one byte's message by the key 7.
abbrev one_byte : Bytes
one_byte = 1 ∷ []

unwrapped : Result Bytes → Bytes
unwrapped (ok bs) = bs
unwrapped _ = []

abbrev one_signature : Bytes
one_signature = unwrapped (sign_message sample (some 7) one_byte)

one_signed : sign_message sample (some 7) one_byte ≡ ok one_signature
unfolding sign_message sample_sign unwrapped digest big_bytes value prefixed_message decimal
one_signed = refl

sign_message_shape_example :
    (raw : Bytes) × (sample.sign (sample.keccak256_hash (prefixed_message one_byte)) (some 7)
      ≡ ok raw)
    × (length one_signature ≡ 65)
    × (take 64 one_signature ≡ take 64 raw)
    × ((get_elem? one_signature 64 ≡ some 27) ⊎ (get_elem? one_signature 64 ≡ some 28))
sign_message_shape_example =
    sign_message_shape sample sample-IsDocumented (some 7) one_byte one_signature one_signed

-- 0xabc, of three digits, is read as 0xab.
hex_to_big_int-text_16_example :
    hex_to_big_int sample (with_0x (text_16 (pos 2748)))
    ≡ (if length (digits 16 2748) % 2 == 0 then pos 2748 else pos (2748 / 16))
hex_to_big_int-text_16_example =
    hex_to_big_int-text_16 sample (λ s. refl) 2748 (λ e. absurd (omega arith))
