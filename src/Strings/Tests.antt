-- ===== src/Strings/Tests.antt =====
-- Runs of the text operations on inputs that Python evaluates alike.
use atlasmirror.Prelude.{◌≡◌, refl, codes, some, true, [], ◌∷◌}
use atlasmirror.Strings.{splitlines, split, after, words, parse_int, remove_all, includes}

lines_run : splitlines (codes "a\r\nb\n\nc") ≡ codes "a" ∷ codes "b" ∷ [] ∷ codes "c" ∷ []
unfolding splitlines codes
lines_run = refl

split_run : split (codes ", ") (codes "a, b,c, ") ≡ codes "a" ∷ codes "b,c" ∷ [] ∷ []
unfolding split codes
split_run = refl

after_run : after (codes "Hash:") (codes "Transaction submitted! Hash: ab") ≡ some (codes " ab")
unfolding after split codes
after_run = refl

words_run :
    words (codes "  in block  17 x ") ≡ codes "in" ∷ codes "block" ∷ codes "17" ∷ codes "x" ∷ []
unfolding words codes
words_run = refl

int_run : parse_int (codes " 1789905600\n") ≡ some 1789905600
unfolding parse_int codes
int_run = refl

remove_run : remove_all (codes "ab") (codes "xababyab") ≡ codes "xy"
unfolding remove_all codes
remove_run = refl

includes_run : includes (codes "b, c") (codes "a, b, c") ≡ true
unfolding includes codes
includes_run = refl
