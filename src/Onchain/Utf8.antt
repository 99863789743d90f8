-- ===== src/Onchain/Utf8.antt =====
-- `bytes.decode("utf-8")`: strict, as in Python. Overlong forms, surrogates, values above 0x10ffff
-- and truncated sequences raise.
pub mod Encode
use atlasmirror.Prelude.{ℕ, zero, suc, ◌+◌, ◌-◌, ◌*◌, ◌/◌, ◌%◌, ◌<◌, ◌≤◌, ◌≡◌, refl, ◌⊎◌}
use atlasmirror.Prelude.{Text, Option, none, some, List, [], ◌∷◌, ◌++◌, arith, length, All}
use atlasmirror.Prelude.{Bool, true, false, not, ◌&&◌, ltb, leb, if◌then◌else◌, length-append}
use atlasmirror.Outcome.{Result, ok, err, unicode_error, ◌>>=◌}

abbrev is_cont : ℕ → Bool
is_cont c = leb 0x80 c && ltb c 0xc0

abbrev Step : Type 0
Step = Option (ℕ × List ℕ)

take_two : ℕ → List ℕ → Step
take_two b (c ∷ rest) = if is_cont c then some ((b - 0xc0) * 64 + (c - 0x80), rest) else none
take_two b [] = none

-- three bytes: no overlong form, no surrogate
abbrev fits_three : ℕ → Bool
fits_three v = leb 0x800 v && not (leb 0xd800 v && ltb v 0xe000)

take_three : ℕ → List ℕ → Step
take_three b (c ∷ d ∷ rest) =
    let v = (b - 0xe0) * 4096 + (c - 0x80) * 64 + (d - 0x80) in
    if is_cont c && is_cont d && fits_three v then some (v, rest) else none
take_three b _ = none

abbrev fits_four : ℕ → Bool
fits_four v = leb 0x10000 v && ltb v 0x110000

take_four : ℕ → List ℕ → Step
take_four b (c ∷ d ∷ e ∷ rest) =
    let v = (b - 0xf0) * 262144 + (c - 0x80) * 4096 + (d - 0x80) * 64 + (e - 0x80) in
    if is_cont c && is_cont d && is_cont e && fits_four v then some (v, rest) else none
take_four b _ = none

-- The first code point and the bytes behind it.
step : ℕ → List ℕ → Step
unfolding take_two take_three take_four
step b rest =
    if ltb b 0x80
    then some (b, rest)
    else if ltb b 0xc2
    then none
    else if ltb b 0xe0
    then take_two b rest
    else if ltb b 0xf0
    then take_three b rest
    else if ltb b 0xf5
    then take_four b rest
    else none

-- Each step takes a byte at least, so as many rounds as there are bytes are enough.
decode_loop : ℕ → List ℕ → Result Text
decode_loop fuel [] = ok []
decode_loop zero (b ∷ bs) = err unicode_error
decode_loop (suc fuel) (b ∷ bs) = elim (step b bs) [
  | none ↦ err unicode_error
  | some (c, rest) ↦ decode_loop fuel rest >>= λ s. ok (c ∷ s)
]

unfoldable pub utf8_decode : List ℕ → Result Text
unfolding decode_loop step
utf8_decode bs = decode_loop (length bs) bs
