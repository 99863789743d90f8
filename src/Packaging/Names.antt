-- ===== src/Packaging/Names.antt =====
-- The names of a bundle's members: scripts/package_app_lgx.py and scripts/package_sdk_lgx.py.
use atlasmirror.Prelude.{
  Text, codes, text_eq, text_eq_sound, Bool, true, ◌||◌, ◌≡◌, refl, arith, Bool-cases, inl, inr,
  List, [], ◌∷◌, ◌++◌, any, starts_with, subst,
}
use atlasmirror.Strings.{includes}
use atlasmirror.Packaging.{dir_names, put_name}

pub any-append :
    {A : Type 0} (test : A → Bool) (xs ys : List A)
    → any test (xs ++ ys) ≡ (any test xs || any test ys)
any-append test [] ys = refl
any-append test (x ∷ xs) ys = ground (arith, any-append test xs ys)

pub includes-starts_with : (t s : Text) → starts_with s t ≡ true → includes t s ≡ true
unfolding includes
includes-starts_with t [] e = e
includes-starts_with t (c ∷ s) e = ground (arith, e)

pub includes-append : (t r s : Text) → includes t s ≡ true → includes t (r ++ s) ≡ true
unfolding includes
includes-append t [] s e = e
includes-append t (c ∷ r) s e = ground (arith, includes-append t r s e)

-- A test that holds of a name holds of one of the names with which it stands.
pub any-text_eq :
    (test : Text → Bool) (name : Text) (names : List Text)
    → test name ≡ true
    → any (text_eq name) names ≡ true
    → any test names ≡ true
any-text_eq test name [] e f = cc
any-text_eq test name (m ∷ names) e f = elim (Bool-cases (text_eq name m)) [
  | inl same ↦
      let here = subst (λ n. test n ≡ true) (text_eq_sound name m same) e in ground (arith, here)
  | inr other ↦ ground (arith, other, f, any-text_eq test name names e)
]

pub any-put_name :
    (test : Text → Bool) (name : Text) (names : List Text)
    → test name ≡ true
    → any test (put_name name names) ≡ true
unfolding put_name
any-put_name test name names e = elim (Bool-cases (any (text_eq name) names)) [
  | inl there ↦ rw there (any-text_eq test name names e there)
  | inr new ↦ rw new (ground (arith, e))
]

pub any-dir_names :
    (t path : Text) (names : List Text)
    → any (includes t) names ≡ true
    → any (includes t) (dir_names path names) ≡ true
unfolding dir_names
any-dir_names t path [] e = cc
any-dir_names t path (name ∷ names) e = elim (Bool-cases (includes t name)) [
  | inl here ↦
      let deep = includes-append t path _ (includes-append t (codes "/") name here) in
      ground (arith, deep)
  | inr other ↦ ground (arith, other, e, any-dir_names t path names)
]

pub any_weaken :
    (test other : Text → Bool) (xs : List Text)
    → ((x : Text) → test x ≡ true → other x ≡ true)
    → any test xs ≡ true
    → any other xs ≡ true
any_weaken test other [] w e = e
any_weaken test other (x ∷ xs) w e = ground (arith, w x, any_weaken test other xs w, e)
