-- ===== src/Strings.antt =====
-- Python's `str` methods that the scripts call, on lists of code points.
mod Tests
use atlasmirror.Prelude.{
  ℕ, zero, suc, ◌+◌, ◌-◌, ◌*◌, Text, Bool, true, false, not, ◌&&◌, ◌||◌, leb, ◌==◌, if◌then◌else◌,
}
use atlasmirror.Prelude.{Option, none, some, List, [], ◌∷◌, ◌++◌, length, drop, starts_with}

-- The code points that str.splitlines breaks at.
abbrev pub is_line_break : ℕ → Bool
is_line_break c =
    (leb 0x0a c && leb c 0x0d)
    || (leb 0x1c c && leb c 0x1e)
    || c == 0x85
    || c == 0x2028
    || c == 0x2029

-- str.isspace of one code point
abbrev pub is_space : ℕ → Bool
is_space c =
    (leb 0x09 c && leb c 0x0d)
    || (leb 0x1c c && leb c 0x20)
    || c == 0x85
    || c == 0xa0
    || c == 0x1680
    || (leb 0x2000 c && leb c 0x200a)
    || c == 0x2028
    || c == 0x2029
    || c == 0x202f
    || c == 0x205f
    || c == 0x3000

-- A line feed behind a carriage return belongs to the same line break. The last argument says
-- that a carriage return stands in front.
lines_loop : Text → Text → Bool → List Text
lines_loop [] [] cr = []
lines_loop [] (c ∷ line) cr = (c ∷ line) ∷ []
lines_loop (c ∷ s) line cr =
    let rest = lines_loop s [] (c == 0x0d) in
    let more = lines_loop s (line ++ (c ∷ [])) false in
    let skip = lines_loop s [] false in
    if cr && c == 0x0a then skip else if is_line_break c then line ∷ rest else more

-- s.splitlines()
unfoldable pub splitlines : Text → List Text
unfolding lines_loop
splitlines s = lines_loop s [] false

-- s.lstrip(), s.rstrip(), s.strip() over a class of code points
module _ (drops : ℕ → Bool) where
  unfoldable pub lstrip : Text → Text
  lstrip [] = []
  lstrip (c ∷ s) = if drops c then lstrip s else c ∷ s

  unfoldable pub rstrip : Text → Text
  rstrip [] = []
  rstrip (c ∷ s) = elim (rstrip s) [ [] ↦ if drops c then [] else c ∷ [] | d ∷ r ↦ c ∷ d ∷ r ]

  unfoldable pub strip_of : Text → Text
  unfolding lstrip rstrip
  strip_of s = rstrip (lstrip s)

unfoldable pub strip : Text → Text
unfolding strip_of
strip = strip_of is_space

-- t in s
unfoldable pub includes : Text → Text → Bool
unfolding starts_with
includes t [] = starts_with [] t
includes t (c ∷ s) = starts_with (c ∷ s) t || includes t s

-- s.split(sep) from the point where `skip` code points of a separator are still to be passed over
split_loop : Text → Text → Text → ℕ → List Text
split_loop sep [] part skip = part ∷ []
split_loop sep (c ∷ s) part (suc skip) = split_loop sep s part skip
split_loop sep (c ∷ s) part zero =
    let rest = split_loop sep s [] (length sep - 1) in
    let more = split_loop sep s (part ++ (c ∷ [])) 0 in
    if starts_with (c ∷ s) sep then part ∷ rest else more

-- s.split(sep), for a separator that is not empty
unfoldable pub split : Text → Text → List Text
unfolding split_loop starts_with
split sep s = split_loop sep s [] 0

-- s.split(sep)[1]
unfoldable pub after : Text → Text → Option Text
after sep s = elim (split sep s) [
  | [] ↦ none
  | p ∷ rest ↦ elim rest [ [] ↦ none | q ∷ qs ↦ some q ]
]

-- s.split("=", 1) of a text that holds the separator code point
unfoldable pub partition : ℕ → Text → Option (Text × Text)
partition sep [] = none
partition sep (c ∷ s) = elim (c == sep) [
  | true ↦ some ([], s)
  | false ↦ elim (partition sep s) [ none ↦ none | some (k, v) ↦ some (c ∷ k, v) ]
]

-- s.split(), the parts between runs of white space
words_loop : Text → Text → List Text
words_loop [] [] = []
words_loop [] (c ∷ w) = (c ∷ w) ∷ []
words_loop (c ∷ s) w =
    let rest = words_loop s [] in
    let more = words_loop s (w ++ (c ∷ [])) in
    if is_space c then elim w [ [] ↦ rest | d ∷ v ↦ (d ∷ v) ∷ rest ] else more

unfoldable pub words : Text → List Text
unfolding words_loop
words s = words_loop s []

unfoldable pub first_word : Text → Option Text
first_word s = elim (words s) [ [] ↦ none | w ∷ ws ↦ some w ]

abbrev pub is_digit : ℕ → Bool
is_digit c = leb b'0' c && leb c b'9'

digits_loop : Text → ℕ → Option ℕ
digits_loop [] n = some n
digits_loop (c ∷ s) n = if is_digit c then digits_loop s (10 * n + (c - b'0')) else none

parse_digits : Text → Option ℕ
parse_digits [] = none
parse_digits (c ∷ s) = digits_loop (c ∷ s) 0

-- int(s) of decimal digits between white space, which is all that the programs print whose
-- output is read; `none` is a ValueError
unfoldable pub parse_int : Text → Option ℕ
unfolding parse_digits digits_loop strip
parse_int s = parse_digits (strip s)

-- s.replace(t, "") for a text t that is not empty
remove_loop : Text → Text → ℕ → Text
remove_loop t [] skip = []
remove_loop t (c ∷ s) (suc skip) = remove_loop t s skip
remove_loop t (c ∷ s) zero =
    let rest = remove_loop t s (length t - 1) in
    let more = remove_loop t s 0 in if starts_with (c ∷ s) t then rest else c ∷ more

unfoldable pub remove_all : Text → Text → Text
unfolding remove_loop starts_with
remove_all t s = remove_loop t s 0
