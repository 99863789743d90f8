-- ===== src/Wallet/Sound.antt =====
-- scripts/deploy_and_register.py: which accounts are found and chosen.
use atlasmirror.Prelude.{
  ℕ, zero, suc, ◌≤◌, Text, codes, text_eq, Bool, true, not, leb, ◌&&◌, ◌==◌, ◌≡◌, refl, arith,
  Bool-cases, inl, inr, Option, none, some, List, [], ◌∷◌, ◌++◌, length, drop, any, starts_with,
  subst, Option-cases,
}
use atlasmirror.Wallet.{
  Accounts, is_base58, run_of, account_at, matches_from, find_accounts, add_account, without_payer,
  five_of, choose,
}

unfoldable pub all {ℓ} : {A : Type ℓ} → (A → Bool) → List A → Bool
all test [] = true
all test (x ∷ xs) = test x && all test xs

-- An account's identifier: Public/ and 32 to 44 digits in base 58.
unfoldable pub is_account : Text → Bool
is_account m =
    starts_with m (codes "Public/")
    && leb 32 (length (drop 7 m))
    && leb (length (drop 7 m)) 44
    && all is_base58 (drop 7 m)

-- such an identifier that is not the payer's
unfoldable pub fits : Text → Text → Bool
fits payer m = is_account m && not (text_eq m payer)

all-run_of : (n : ℕ) (s : Text) → all is_base58 (run_of n s) ≡ true
unfolding all run_of
all-run_of zero s = refl
all-run_of (suc n) [] = refl
all-run_of (suc n) (c ∷ s) = elim (Bool-cases (is_base58 c)) [
  | inl y ↦ rw y (rw y (all-run_of n s))
  | inr k ↦ rw k refl
]

length-run_of : (n : ℕ) (s : Text) → length (run_of n s) ≤ n
unfolding run_of
length-run_of zero s = omega arith
length-run_of (suc n) [] = omega arith
length-run_of (suc n) (c ∷ s) = ground (arith, length-run_of n s)

account_is_account :
    (id : Text)
    → leb 32 (length id) ≡ true
    → length id ≤ 44
    → all is_base58 id ≡ true
    → is_account (codes "Public/" ++ id) ≡ true
unfolding is_account codes starts_with
account_is_account id low high digits = ground (arith, low, high, digits)

account_at-is_account : (s m : Text) → account_at s ≡ some m → is_account m ≡ true
unfolding account_at
account_at-is_account s m e =
    let id = run_of 44 (drop 7 s) in
    elim (Bool-cases (starts_with s (codes "Public/") && leb 32 (length id))) [
      | inl y ↦
          let same : codes "Public/" ++ id ≡ m = ground (arith, e, y) in
          subst (λ t. is_account t ≡ true) same
            (account_is_account id (ground (arith, y)) (length-run_of 44 _) (all-run_of 44 _))
      | inr k ↦ absurd (ground (arith, e, k))
    ]

-- The two ways on from a point of the search.
all-found :
    (found : Option Text) (s : Text)
    → ((m : Text) → found ≡ some m → is_account m ≡ true)
    → ((n : ℕ) → all is_account (matches_from n s) ≡ true)
    → all is_account
        (elim found [ none ↦ matches_from 0 s | some m ↦ m ∷ matches_from (length (drop 1 m)) s ])
      ≡ true
unfolding all
all-found none s good rest = rest 0
all-found (some m) s good rest = ground (arith, good m refl, rest (length (drop 1 m)))

all-matches_from : (n : ℕ) (s : Text) → all is_account (matches_from n s) ≡ true
unfolding all matches_from
all-matches_from n [] = refl
all-matches_from (suc n) (c ∷ s) = all-matches_from n s
all-matches_from zero (c ∷ s) =
    all-found (account_at (c ∷ s)) s (account_at-is_account (c ∷ s)) (λ n. all-matches_from n s)

pub all-find_accounts : (s : Text) → all is_account (find_accounts s) ≡ true
unfolding find_accounts
all-find_accounts s = all-matches_from 0 s

module _ (payer : Text) where
  all-snoc :
      (xs : List Text) (m : Text)
      → all (fits payer) xs ≡ true
      → fits payer m ≡ true
      → all (fits payer) (xs ++ (m ∷ [])) ≡ true
  unfolding all
  all-snoc [] m a f = ground (arith, f)
  all-snoc (x ∷ xs) m a f = ground (arith, a, f, all-snoc xs m)

  pub all-add_account :
      (accounts found : List Text)
      → all (fits payer) accounts ≡ true
      → all is_account found ≡ true
      → all (fits payer) (add_account payer accounts found) ≡ true
  unfolding all add_account fits
  all-add_account accounts [] a f = a
  all-add_account accounts (m ∷ found) a f =
      elim (Bool-cases (not (any (text_eq m) accounts) && not (text_eq m payer))) [
        | inl y ↦ rw y (all-snoc accounts m a (ground (arith, y, f)))
        | inr k ↦ rw k (all-add_account accounts found a (ground (arith, f)))
      ]

  pub all-without_payer :
      (found : List Text)
      → all is_account found ≡ true
      → all (fits payer) (without_payer payer found) ≡ true
  unfolding all without_payer fits
  all-without_payer [] f = refl
  all-without_payer (m ∷ found) f = ground (arith, f, all-without_payer found)

  -- The header and four segments, each an account that is not the payer's.
  unfoldable pub is_sound : Text → List Text → Bool
  is_sound header segments = fits payer header && all (fits payer) segments && length segments == 4

  five_of-is_sound :
      (xs : List Text) (chosen : Accounts)
      → all (fits payer) xs ≡ true
      → five_of xs ≡ some chosen
      → is_sound chosen.header chosen.segments ≡ true
  unfolding five_of is_sound all
  five_of-is_sound (h ∷ a ∷ b ∷ c ∷ d ∷ more) chosen f e = ground (arith, f, e)
  five_of-is_sound [] chosen f e = cc
  five_of-is_sound (h ∷ []) chosen f e = cc
  five_of-is_sound (h ∷ a ∷ []) chosen f e = cc
  five_of-is_sound (h ∷ a ∷ b ∷ []) chosen f e = cc
  five_of-is_sound (h ∷ a ∷ b ∷ c ∷ []) chosen f e = cc

  pub choose-is_sound :
      (list_matches accounts : List Text) (chosen : Accounts)
      → all (fits payer) list_matches ≡ true
      → all (fits payer) accounts ≡ true
      → choose list_matches accounts ≡ some chosen
      → is_sound chosen.header chosen.segments ≡ true
  unfolding choose
  choose-is_sound list_matches accounts chosen l a e = elim (Option-cases (five_of list_matches)) [
    | inl none_there ↦ five_of-is_sound accounts chosen a (ground (arith, e, none_there))
    | inr (first, there) ↦ five_of-is_sound list_matches chosen l (ground (arith, e, there))
  ]
