-- ===== src/Onchain/Utf8/Encode.antt =====
-- UTF-8 encoding, as the independent description of what `bytes.decode("utf-8")` reads.
use atlasmirror.Prelude.{ℕ, zero, suc, ◌+◌, ◌/◌, ◌%◌, ◌<◌, ◌≤◌, ◌≡◌, refl, ◌⊎◌, inl, inr}
use atlasmirror.Prelude.{Text, some, List, [], ◌∷◌, ◌++◌, arith, length, All}
use atlasmirror.Prelude.{ltb, if◌then◌else◌, length-append, Bool-cases}
use atlasmirror.Outcome.{ok, ◌>>=◌}
use atlasmirror.Onchain.Utf8.{step, decode_loop, utf8_decode}

-- A Unicode scalar value: no surrogate, at most 0x10ffff.
abbrev pub IsScalar : ℕ → Type 0
IsScalar c = (c < 0x110000) × ((c < 0xd800) ⊎ (0xe000 ≤ c))

pub encode_char : ℕ → List ℕ
encode_char c =
    if ltb c 0x80
    then c ∷ []
    else if ltb c 0x800
    then (0xc0 + c / 64) ∷ (0x80 + c % 64) ∷ []
    else if ltb c 0x10000
    then (0xe0 + c / 4096) ∷ (0x80 + c / 64 % 64) ∷ (0x80 + c % 64) ∷ []
    else (0xf0 + c / 262144) ∷ (0x80 + c / 4096 % 64) ∷ (0x80 + c / 64 % 64) ∷ (0x80 + c % 64) ∷ []

unfoldable pub utf8_encode : Text → List ℕ
unfolding encode_char
utf8_encode [] = []
utf8_encode (c ∷ s) = encode_char c ++ utf8_encode s

module _ (c : ℕ) (rest : List ℕ) where
  step_one : c < 0x80 → step c rest ≡ some (c, rest)
  unfolding step
  step_one h = ground arith

  step_two : 0x80 ≤ c → c < 0x800 → step (0xc0 + c / 64) ((0x80 + c % 64) ∷ rest) ≡ some (c, rest)
  unfolding step
  step_two h k = ground arith

  step_three :
      0x800 ≤ c
      → c < 0x10000
      → (c < 0xd800) ⊎ (0xe000 ≤ c)
      → step (0xe0 + c / 4096) ((0x80 + c / 64 % 64) ∷ (0x80 + c % 64) ∷ rest) ≡ some (c, rest)
  unfolding step
  step_three h k s = ground arith

  step_four :
      0x10000 ≤ c
      → c < 0x110000
      → step
          (0xf0 + c / 262144)
          ((0x80 + c / 4096 % 64) ∷ (0x80 + c / 64 % 64) ∷ (0x80 + c % 64) ∷ rest)
        ≡ some (c, rest)
  unfolding step
  step_four h k = ground arith

decode_loop-step :
    (f b c : ℕ) (bs rest : List ℕ)
    → step b bs ≡ some (c, rest)
    → decode_loop (suc f) (b ∷ bs) ≡ (decode_loop f rest >>= λ s. ok (c ∷ s))
unfolding decode_loop
decode_loop-step f b c bs rest e = rw (e, decode_loop)

decode_loop-encode_char :
    (f c : ℕ) (rest : List ℕ)
    → IsScalar c
    → decode_loop (suc f) (encode_char c ++ rest) ≡ (decode_loop f rest >>= λ s. ok (c ∷ s))
unfolding encode_char
decode_loop-encode_char f c rest h = elim (Bool-cases (ltb c 0x80)) [
  | inl a ↦ rw a (decode_loop-step f _ c _ rest (step_one c rest (ground arith)))
  | inr a ↦ rw a (elim (Bool-cases (ltb c 0x800)) [
    | inl b ↦ rw b (decode_loop-step f _ c _ rest (step_two c rest (ground arith) (ground arith)))
    | inr b ↦ rw b (elim (Bool-cases (ltb c 0x10000)) [
      | inl d ↦
          rw d (decode_loop-step f _ c _ rest (step_three c rest (ground arith) (ground arith) h.1))
      | inr d ↦ rw d (decode_loop-step f _ c _ rest (step_four c rest (ground arith) h.0))
    ])
  ])
]

encode_char-length : (c : ℕ) → 1 ≤ length (encode_char c)
unfolding encode_char
encode_char-length c = ground arith

decode_loop-encode :
    (s : Text) (f : ℕ)
    → length (utf8_encode s) ≤ f
    → All IsScalar s
    → decode_loop f (utf8_encode s) ≡ ok s
unfolding decode_loop utf8_encode
decode_loop-encode [] f le h = refl
decode_loop-encode (c ∷ s) zero le h =
    absurd (omega (arith, encode_char-length c, length-append (encode_char c) (utf8_encode s)))
decode_loop-encode (c ∷ s) (suc f) le h = rw (decode_loop-encode_char f c (utf8_encode s) h.0) (
    rw (
      decode_loop-encode s f
        (omega (arith, encode_char-length c, length-append (encode_char c) (utf8_encode s))) h.1))

-- Decoding the UTF-8 bytes of a text of Unicode scalar values gives the text back.
pub utf8_decode-encode : (s : Text) → All IsScalar s → utf8_decode (utf8_encode s) ≡ ok s
unfolding utf8_decode
utf8_decode-encode s h = decode_loop-encode s (length (utf8_encode s)) (omega arith) h
