-- ===== src/Wallet/Distinct.antt =====
-- scripts/deploy_and_register.py: the accounts that were created are different ones.
use atlasmirror.Prelude.{
  ℕ, zero, suc, Text, text_eq, text_eq_refl, text_eq_sound, Bool, true, false, not, ◌&&◌, ◌≡◌, refl,
  arith, Bool-cases, inl, inr, Option, none, some, List, [], ◌∷◌, ◌++◌, any, subst,
}
use atlasmirror.Outcome.{Error, Result, ok, err}
use atlasmirror.Host.{
  Host, History, Completed, pure, raise, on_option, perform, wsl, new_account, list_accounts,
}
use atlasmirror.Host.Triples.{
  Triple, After, Triple-bind, Triple-const, Triple-pure, Triple-raise, Triple-given, Triple-from,
  Triple-answer,
}
use atlasmirror.Wallet.{
  Environment, Accounts, payer_of, password_of, find_accounts, add_account, without_payer, five_of,
  choose, create_accounts, choose_accounts,
}

-- No account comes twice.
unfoldable pub are_distinct : List Text → Bool
are_distinct [] = true
are_distinct (m ∷ ms) = not (any (text_eq m) ms) && are_distinct ms

are_distinct-nil : are_distinct [] ≡ true
unfolding are_distinct
are_distinct-nil = refl

text_eq_comm : (s t : Text) → text_eq s t ≡ false → text_eq t s ≡ false
text_eq_comm s t e = elim (Bool-cases (text_eq t s)) [
  | inl y ↦
      let same = subst (λ u. text_eq u t ≡ true) (text_eq_sound t s y) (text_eq_refl t) in
      absurd (ground (arith, e, same))
  | inr k ↦ k
]

any-snoc :
    (test : Text → Bool) (ms : List Text) (m : Text)
    → any test ms ≡ false
    → test m ≡ false
    → any test (ms ++ (m ∷ [])) ≡ false
any-snoc test [] m e f = ground (arith, f)
any-snoc test (x ∷ ms) m e f = ground (arith, e, any-snoc test ms m, f)

are_distinct-snoc :
    (ms : List Text) (m : Text)
    → are_distinct ms ≡ true
    → any (text_eq m) ms ≡ false
    → are_distinct (ms ++ (m ∷ [])) ≡ true
unfolding are_distinct
are_distinct-snoc [] m d e = refl
are_distinct-snoc (x ∷ ms) m d e =
    let apart : text_eq x m ≡ false = text_eq_comm m x (ground (arith, e)) in
    let first = any-snoc (text_eq x) ms m (ground (arith, d)) apart in
    ground (arith, first, are_distinct-snoc ms m, d, e)

are_distinct-add_account :
    (payer : Text) (accounts found : List Text)
    → are_distinct accounts ≡ true
    → are_distinct (add_account payer accounts found) ≡ true
unfolding add_account
are_distinct-add_account payer accounts [] d = d
are_distinct-add_account payer accounts (m ∷ found) d =
    elim (Bool-cases (not (any (text_eq m) accounts) && not (text_eq m payer))) [
      | inl y ↦ rw y (are_distinct-snoc accounts m d (ground (arith, y)))
      | inr k ↦ rw k (are_distinct-add_account payer accounts found d)
    ]

are_distinct-five_of :
    (xs : List Text) (chosen : Accounts)
    → are_distinct xs ≡ true
    → five_of xs ≡ some chosen
    → are_distinct (chosen.header ∷ chosen.segments) ≡ true
unfolding five_of are_distinct
are_distinct-five_of (h ∷ a ∷ b ∷ c ∷ d ∷ more) chosen f e = ground (arith, f, e)
are_distinct-five_of [] chosen f e = cc
are_distinct-five_of (h ∷ []) chosen f e = cc
are_distinct-five_of (h ∷ a ∷ []) chosen f e = cc
are_distinct-five_of (h ∷ a ∷ b ∷ []) chosen f e = cc
are_distinct-five_of (h ∷ a ∷ b ∷ c ∷ []) chosen f e = cc

abbrev Always : History → Type 0
Always h = Unit

module _ (host : Host) (env : Environment) where
  -- the matches in an answer to the listing
  abbrev pub listed : Completed → List Text
  listed r = without_payer (payer_of env) (find_accounts r.stdout)

  create_accounts-Distinct :
      (n : ℕ) (accounts : List Text)
      → are_distinct accounts ≡ true
      → Triple Always (create_accounts host env n accounts) (λ ms h. are_distinct ms ≡ true) Always
  unfolding create_accounts
  create_accounts-Distinct zero accounts d = Triple-pure accounts (λ h u. d)
  create_accounts-Distinct (suc n) accounts d =
      Triple-bind (Triple-const {C = Unit} (perform host (wsl (new_account (password_of env)))))
        λ r. create_accounts-Distinct n _ (are_distinct-add_account (payer_of env) accounts _ d)

  on_option-Distinct :
      (xs accounts : List Text)
      → five_of xs ≡ none
      → are_distinct accounts ≡ true
      → (found : Option Accounts) → choose xs accounts ≡ found
      → Triple Always
          (on_option found (raise (Error.exit 1)) pure)
          (λ chosen h. are_distinct (chosen.header ∷ chosen.segments) ≡ true)
          Always
  unfolding on_option choose
  on_option-Distinct xs accounts s d none e = Triple-raise _ (λ h u. tt)
  on_option-Distinct xs accounts s d (some chosen) e =
      Triple-pure chosen (λ h u. are_distinct-five_of accounts chosen d (ground (arith, e, s)))

  choose_accounts-Distinct :
      ((h : History) → five_of (listed (host.answer (wsl list_accounts) h)) ≡ none)
      → Triple Always
          (choose_accounts host env)
          (λ chosen h. are_distinct (chosen.header ∷ chosen.segments) ≡ true)
          Always
  unfolding choose_accounts
  choose_accounts-Distinct short =
      Triple-bind (create_accounts-Distinct 5 [] are_distinct-nil) λ accounts.
        Triple-from (λ h d. (d, tt))
          (Triple-given λ d.
            Triple-bind
              (Triple-answer host (wsl list_accounts)
                {Q = λ r h. (five_of (listed r) ≡ none) × Always h} (λ h u. (short h, tt)))
              λ r. Triple-given λ s. on_option-Distinct (listed r) accounts s d _ refl)

returned :
    {A : Type 0} (r : Result A) (h : History) (a : A) (Q : A → Type 0)
    → After (λ a h. Q a) (λ h. Unit) (r, h)
    → r ≡ ok a
    → Q a
returned (ok b) h a Q q e = subst Q (ground (arith, e)) q
returned (err b) h a Q q e = cc

-- Where no listing shows five accounts other than the payer's, the header and the segments that
-- choose_accounts returns are different accounts.
pub choose_accounts-are_distinct :
    (host : Host) (env : Environment) (h : History) (chosen : Accounts)
    → ((h : History) → five_of (listed host env (host.answer (wsl list_accounts) h)) ≡ none)
    → (choose_accounts host env h).0 ≡ ok chosen
    → are_distinct (chosen.header ∷ chosen.segments) ≡ true
choose_accounts-are_distinct host env h chosen short e =
    let (r, h') = choose_accounts host env h in
    returned r h' chosen (λ c. are_distinct (c.header ∷ c.segments) ≡ true)
      ((choose_accounts-Distinct host env short).at h tt) e
