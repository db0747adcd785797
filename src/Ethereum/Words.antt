-- ===== src/Ethereum/Words.antt =====
-- The ABI's words are 32 bytes each, and values of one type are read back from them.
use aa_sdk_go.Prelude.{
  ℕ, ◌-◌, ◌^◌, ◌<◌, ◌≡◌, ◌⊎◌, inl, inr, refl, ap, sym, ◌∙◌, List, [], ◌∷◌, length, Option, some,
  none, append-injective, replicate, All-append, arith,
}
use aa_sdk_go.Prelude.Int.{ℤ, pos, negsuc}
use aa_sdk_go.Digits.{value, AllBelow}
use aa_sdk_go.Bytes.{Bytes, IsArray, pad_left, big_bytes}
use aa_sdk_go.Bytes.Padding.{pad_left-IsArray, big_bytes-IsArray, value-pad_left}
use aa_sdk_go.Ethereum.{
  AbiType, address_ty, uint_ty, fixed_bytes_ty, StaticValue, address, integer, bytes32, IsUint,
  Holds, AllHold, word, words,
}
use mathlib.Core.Path.{subst}
use native.Mathlib.Nat.{lt_of_lt_of_le}

pub fits_word : (bits n : ℕ) → n < 2 ^ bits → (bits ≡ 48) ⊎ (bits ≡ 256) → n < 256 ^ 32
fits_word bits n h (inl e) = lt_of_lt_of_le (subst (λ b. n < 2 ^ b) e h) (omega arith)
fits_word bits n h (inr e) = lt_of_lt_of_le (subst (λ b. n < 2 ^ b) e h) (omega arith)

word-IsArray : (t : AbiType) (v : StaticValue) → Holds t v → IsArray 32 (word v)
word-IsArray address_ty (address a) h = pad_left-IsArray 32 a (omega arith) h.1
word-IsArray (uint_ty bits) (integer (some (pos n))) h =
    big_bytes-IsArray 32 (pos n) (fits_word bits n h.0 h.1)
word-IsArray (fixed_bytes_ty size) (bytes32 b) h = h.1
word-IsArray address_ty (integer x) h = absurd h
word-IsArray address_ty (bytes32 b) h = absurd h
word-IsArray (uint_ty bits) (integer none) h = absurd h
word-IsArray (uint_ty bits) (integer (some (negsuc n))) h = absurd h
word-IsArray (uint_ty bits) (address a) h = absurd h
word-IsArray (uint_ty bits) (bytes32 b) h = absurd h
word-IsArray (fixed_bytes_ty size) (address a) h = absurd h
word-IsArray (fixed_bytes_ty size) (integer x) h = absurd h

pub words-AllBelow :
    (ts : List AbiType) (vs : List StaticValue) → AllHold ts vs → AllBelow 256 (words vs)
words-AllBelow [] [] h = tt
words-AllBelow [] (v ∷ vs) h = absurd h
words-AllBelow (t ∷ ts) [] h = absurd h
words-AllBelow (t ∷ ts) (v ∷ vs) h =
    All-append (λ d. d < 256) (word v) (words vs) (word-IsArray t v h.0).1
      (words-AllBelow ts vs h.1)

uint_injective :
    (x y : ℕ) → pad_left 32 (big_bytes (pos x)) ≡ pad_left 32 (big_bytes (pos y)) → x ≡ y
uint_injective x y e =
    sym (value-pad_left 32 (pos x)) ∙ ap (value 256) e ∙ value-pad_left 32 (pos y)

address_injective : (a b : Bytes) → length a ≡ length b → pad_left 32 a ≡ pad_left 32 b → a ≡ b
address_injective a b h e =
    (append-injective (replicate (32 - length a) 0) (replicate (32 - length b) 0)
      (ap (λ n. length (replicate {A = ℕ} (32 - n) 0)) h) e).1

integer_injective :
    (bits : ℕ) (x y : Option ℤ)
    → IsUint bits x
    → IsUint bits y
    → word (integer x) ≡ word (integer y)
    → x ≡ y
integer_injective bits (some (pos x)) (some (pos y)) hx hy e = cc (uint_injective x y e)
integer_injective bits none y hx hy e = absurd hx
integer_injective bits (some (negsuc x)) y hx hy e = absurd hx
integer_injective bits (some (pos x)) none hx hy e = absurd hy
integer_injective bits (some (pos x)) (some (negsuc y)) hx hy e = absurd hy

word_injective : (t : AbiType) (v w : StaticValue) → Holds t v → Holds t w → word v ≡ word w → v ≡ w
word_injective address_ty (address a) (address b) hv hw e =
    ap StaticValue.address (address_injective a b (hv.0 ∙ sym hw.0) e)
word_injective address_ty (address a) (integer y) hv hw e = absurd hw
word_injective address_ty (address a) (bytes32 b) hv hw e = absurd hw
word_injective address_ty (integer x) w hv hw e = absurd hv
word_injective address_ty (bytes32 a) w hv hw e = absurd hv
word_injective (uint_ty bits) (integer x) (integer y) hv hw e =
    ap integer (integer_injective bits x y hv hw e)
word_injective (uint_ty bits) (integer x) (address b) hv hw e = absurd hw
word_injective (uint_ty bits) (integer x) (bytes32 b) hv hw e = absurd hw
word_injective (uint_ty bits) (address a) w hv hw e = absurd hv
word_injective (uint_ty bits) (bytes32 a) w hv hw e = absurd hv
word_injective (fixed_bytes_ty size) (bytes32 a) (bytes32 b) hv hw e = ap bytes32 e
word_injective (fixed_bytes_ty size) (bytes32 a) (address b) hv hw e = absurd hw
word_injective (fixed_bytes_ty size) (bytes32 a) (integer y) hv hw e = absurd hw
word_injective (fixed_bytes_ty size) (address a) w hv hw e = absurd hv
word_injective (fixed_bytes_ty size) (integer x) w hv hw e = absurd hv

-- Values of the same types are equal when their encodings are.
pub words_injective :
    (ts : List AbiType) (vs ws : List StaticValue)
    → AllHold ts vs
    → AllHold ts ws
    → words vs ≡ words ws
    → vs ≡ ws
words_injective [] [] [] hv hw e = refl
words_injective [] [] (w ∷ ws) hv hw e = absurd hw
words_injective [] (v ∷ vs) ws hv hw e = absurd hv
words_injective (t ∷ ts) [] ws hv hw e = absurd hv
words_injective (t ∷ ts) (v ∷ vs) [] hv hw e = absurd hw
words_injective (t ∷ ts) (v ∷ vs) (w ∷ ws) hv hw e =
    let (head, rest) =
      append-injective (word v) (word w) ((word-IsArray t v hv.0).0 ∙ sym (word-IsArray t w hw.0).0)
        e in
    cc (word_injective t v w hv.0 hw.0 head, words_injective ts vs ws hv.1 hw.1 rest)
