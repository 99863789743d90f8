-- ===== src/Json.antt =====
-- `json.loads` on a text, and the lookups that the scripts make in what it returns. A number with a
-- fraction or an exponent is kept as its text: no script computes with one.
mod Tests
use atlasmirror.Prelude.{
  ℕ, zero, suc, ◌+◌, ◌-◌, ◌*◌, ◌/◌, ◌%◌, Text, codes, text_eq, Bool, true, false, not, ◌&&◌, ◌||◌,
  leb, ltb, ◌==◌, if◌then◌else◌,
}
use atlasmirror.Prelude.{Option, none, some, List, [], ◌∷◌, ◌++◌, length, drop, starts_with}
use atlasmirror.Strings.{is_digit}

mutual
  pub data Json : Type 0 where
    null : Json
    bool : Bool → Json
    nat : ℕ → Json
    minus : ℕ → Json
    float : Text → Json
    str : Text → Json
    arr : Items → Json
    obj : Fields → Json

  pub data Items : Type 0 where
    nil : Items
    cons : Json → Items → Items

  pub data Fields : Type 0 where
    end : Fields
    field : Text → Json → Fields → Fields

abbrev Parser : Type 0 → Type 0
Parser A = Text → Option (A × Text)

infixl 5 ◌>>=◌
abbrev ◌>>=◌ {ℓ κ} : {A : Type ℓ} {B : Type κ} → Option A → (A → Option B) → Option B
none >>= f = none
some a >>= f = f a

-- A later key takes the place of an earlier one.
unfoldable pub last_field : Text → Fields → Option Json → Option Json
last_field k end found = found
last_field k (field j v fs) found = last_field k fs (if text_eq j k then some v else found)

-- v[k] or v.get(k); `none` also where `v` is no object
unfoldable pub at : Text → Json → Option Json
at k (obj fs) = last_field k fs none
at k _ = none

skip_spaces : Text → Text
skip_spaces [] = []
skip_spaces (c ∷ s) =
    if c == 0x20 || c == 0x0a || c == 0x0d || c == 0x09 then skip_spaces s else c ∷ s

digits : Text → Text → Text × Text
digits [] ds = (ds, [])
digits (c ∷ s) ds = if is_digit c then digits s (ds ++ (c ∷ [])) else (ds, c ∷ s)

value_of : Text → ℕ → ℕ
value_of [] n = n
value_of (c ∷ s) n = value_of s (10 * n + (c - b'0'))

-- no leading zero
int_part : Text → Bool
int_part [] = false
int_part (c ∷ []) = true
int_part (c ∷ d ∷ s) = not (c == b'0')

fraction : Parser Text
fraction [] = some ([], [])
fraction (c ∷ s) =
    let (ds, rest) = digits s [] in
    if c == b'.' && leb 1 (length ds) then some (c ∷ ds, rest) else some ([], c ∷ s)

sign : Parser Text
sign [] = some ([], [])
sign (c ∷ s) = if c == b'+' || c == b'-' then some (c ∷ [], s) else some ([], c ∷ s)

exponent : Parser Text
exponent [] = some ([], [])
exponent (c ∷ s) =
    if c == b'e' || c == b'E'
    then (sign s >>= λ (sg, t).
        let (ds, rest) = digits t [] in
        if leb 1 (length ds) then some (c ∷ (sg ++ ds), rest) else some ([], c ∷ s))
    else some ([], c ∷ s)

number : Bool → Parser Json
number negative s =
    let (ds, r) = digits s [] in
    if not (int_part ds)
    then none
    else (fraction r >>= λ (fr, r). exponent r >>= λ (ex, r).
        if length fr == 0 && length ex == 0
        then some ((if negative then minus (value_of ds 0) else nat (value_of ds 0)), r)
        else some (float ((if negative then codes "-" else []) ++ (ds ++ (fr ++ ex))), r))

hex_digit : ℕ → Option ℕ
hex_digit c =
    if is_digit c
    then some (c - b'0')
    else if leb b'a' c && leb c b'f'
    then some (c - b'a' + 10)
    else if leb b'A' c && leb c b'F'
    then some (c - b'A' + 10)
    else none

hex4 : Parser ℕ
hex4 (a ∷ b ∷ c ∷ d ∷ s) = hex_digit a >>= λ a. hex_digit b >>= λ b.
    hex_digit c >>= λ c. hex_digit d >>= λ d. some (((a * 16 + b) * 16 + c) * 16 + d, s)
hex4 _ = none

-- the low half of a surrogate pair, if it is there
low_half : Text → Option (ℕ × Text)
low_half (a ∷ b ∷ s) =
    if a == b'\\' && b == b'u'
    then (hex4 s >>= λ (v, r). if leb 0xdc00 v && ltb v 0xe000 then some (v, r) else none)
    else none
low_half _ = none

unicode_escape : Parser ℕ
unicode_escape s = hex4 s >>= λ (v, r).
    if leb 0xd800 v && ltb v 0xdc00
    then elim (low_half r) [
      | none ↦ some (v, r)
      | some (w, q) ↦ some (0x10000 + (v - 0xd800) * 1024 + (w - 0xdc00), q)
    ]
    else some (v, r)

-- what stands behind a backslash
escape : Parser ℕ
escape [] = none
escape (c ∷ s) =
    if c == b'"' || c == b'\\' || c == b'/'
    then some (c, s)
    else if c == b'b'
    then some (0x08, s)
    else if c == b'f'
    then some (0x0c, s)
    else if c == b'n'
    then some (0x0a, s)
    else if c == b'r'
    then some (0x0d, s)
    else if c == b't'
    then some (0x09, s)
    else if c == b'u'
    then unicode_escape s
    else none

-- The rest of a string behind its opening quote.
string : ℕ → Text → Parser Text
string zero out s = none
string (suc fuel) out [] = none
string (suc fuel) out (c ∷ s) =
    let plain = string fuel (out ++ (c ∷ [])) s in
    let escaped = escape s >>= λ (d, r). string fuel (out ++ (d ∷ [])) r in
    if c == b'"'
    then some (out, s)
    else if c == b'\\'
    then escaped
    else if ltb c 0x20
    then none
    else plain

literal : Text → Json → Parser Json
literal word v s = if starts_with s word then some (v, drop (length word) s) else none

-- A value that is neither an object nor an array.
scalar : ℕ → Parser Json
scalar fuel [] = none
scalar fuel (c ∷ s) =
    if c == b'"'
    then (string fuel [] s >>= λ (t, r). some (str t, r))
    else if c == b'n'
    then literal (codes "null") null (c ∷ s)
    else if c == b't'
    then literal (codes "true") (bool true) (c ∷ s)
    else if c == b'f'
    then literal (codes "false") (bool false) (c ∷ s)
    else if c == b'N'
    then literal (codes "NaN") (float (codes "NaN")) (c ∷ s)
    else if c == b'I'
    then literal (codes "Infinity") (float (codes "Infinity")) (c ∷ s)
    else if c == b'-'
    then (if starts_with s (codes "Infinity")
        then literal (codes "-Infinity") (float (codes "-Infinity")) (c ∷ s)
        else number true s)
    else number false (c ∷ s)

expect : ℕ → Text → Option Text
expect c [] = none
expect c (d ∷ s) = if d == c then some s else none

-- Every call takes a code point of the text or goes one level down, so twice its length of
-- fuel is enough.
mutual
  value : ℕ → Parser Json
  value zero s = none
  value (suc fuel) [] = none
  value (suc fuel) (c ∷ s) =
      let object = members fuel true (skip_spaces s) >>= λ (fs, r). some (obj fs, r) in
      let array = elements fuel true (skip_spaces s) >>= λ (xs, r). some (arr xs, r) in
      if c == b'{' then object else if c == b'[' then array else scalar (length (c ∷ s)) (c ∷ s)

  -- what follows `[` or an element; `true` before the first
  elements : ℕ → Bool → Parser Items
  elements zero first s = none
  elements (suc fuel) first [] = none
  elements (suc fuel) first (c ∷ s) =
      let next : Parser Items = (λ t. value fuel t >>= λ (v, r).
      elements fuel false (skip_spaces r) >>= λ (vs, q). some (cons v vs, q)) in
      if c == b']'
      then some (nil, s)
      else if first
      then next (c ∷ s)
      else if c == b','
      then next (skip_spaces s)
      else none

  members : ℕ → Bool → Parser Fields
  members zero first s = none
  members (suc fuel) first [] = none
  members (suc fuel) first (c ∷ s) =
      let next : Parser Fields = (λ t. expect b'"' t >>= λ t.
      string (suc (length t)) [] t >>= λ (k, r). expect b':' (skip_spaces r) >>= λ r.
      value fuel (skip_spaces r) >>= λ (v, r).
      members fuel false (skip_spaces r) >>= λ (fs, q). some (field k v fs, q)) in
      if c == b'}'
      then some (end, s)
      else if first
      then next (c ∷ s)
      else if c == b','
      then next (skip_spaces s)
      else none

all_read : Json × Text → Option Json
all_read (v, []) = some v
all_read (v, c ∷ s) = none

-- json.loads(s); `none` is a JSONDecodeError
unfoldable pub loads : Text → Option Json
unfolding value skip_spaces scalar expect string all_read escape literal number unicode_escape hex4
    hex_digit low_half digits value_of int_part fraction sign exponent
loads s = value (2 * length s + 2) (skip_spaces s) >>= λ (v, r). all_read (v, skip_spaces r)
