-- ===== src/Wallet/Deployed.antt =====
-- scripts/deploy_and_register.py: which deployments it asks for.
use atlasmirror.Prelude.{
  ℕ, zero, suc, Text, codes, text_eq, text_eq_refl, Bool, true, ◌&&◌, ◌≡◌, refl, arith, Option,
  none, some, List, [],
}
use atlasmirror.Outcome.{Error}
use atlasmirror.Host.{
  Host, Request, Event, History, pure, raise, on_option, perform, ask, wsl, deploy_elf, new_account,
  list_accounts, file_test, initialize, register_pakistan, get_account, write_evidence,
}
use atlasmirror.Host.Keeps.{Keeps, Keeps-bind, Keeps-pure, Keeps-when, ◌▸◌}
use atlasmirror.Host.Triples.{
  Triple, Triple-bind, Triple-Keeps, Triple-pure, Triple-raise, Triple-given, Triple-from, ends,
}
use atlasmirror.Wallet.{
  Environment, Accounts, payer_of, password_of, log_of, choose, open_wallet, create_accounts,
  choose_accounts, deploy_registry, register_region, query_registry, deploy_and_register,
}
use atlasmirror.Wallet.Sound.{
  all, fits, is_sound, all-find_accounts, all-add_account, all-without_payer, choose-is_sound,
}

-- A deployment is paid by the payer and has sound accounts.
abbrev pub is_allowed : Text → Request → Bool
is_allowed payer (wsl (deploy_elf pass header segments p)) =
    is_sound payer header segments && text_eq p payer
is_allowed payer _ = true

-- so are all that a history has
abbrev pub Deploys : Text → History → Type 0
Deploys payer h = all (λ (e : Event). is_allowed payer e.0) h ≡ true

module _ (host : Host) (env : Environment) where
  abbrev Sound : History → Type 0
  Sound = Deploys (payer_of env)

  perform-Sound : (r : Request) → is_allowed (payer_of env) r ≡ true → Keeps Sound (perform host r)
  unfolding perform all
  perform-Sound r e = record { at = λ h p. ground (arith, e, p) }

  ask-Sound : (r : Request) → is_allowed (payer_of env) r ≡ true → Keeps Sound (ask host r)
  unfolding ask
  ask-Sound r e = Keeps-bind _ _ (perform-Sound r e) (λ a. Keeps-pure tt)

  open_wallet-Sound : Keeps Sound (open_wallet host env)
  unfolding open_wallet
  open_wallet-Sound =
      ask-Sound _ refl
      ▸ ask-Sound _ refl
      ▸ ask-Sound _ refl
      ▸ ask-Sound _ refl
      ▸ Keeps-when _ _ (ask-Sound _ refl)

  -- the accounts in hand, and the history
  abbrev InHand : List Text → History → Type 0
  InHand accounts h = (all (fits (payer_of env)) accounts ≡ true) × Sound h

  create_accounts-Triple :
      (n : ℕ) (accounts : List Text)
      → Triple (InHand accounts) (create_accounts host env n accounts) InHand Sound
  unfolding create_accounts
  create_accounts-Triple zero accounts = Triple-pure accounts (λ h p. p)
  create_accounts-Triple (suc n) accounts = Triple-given λ held.
      Triple-bind
        (Triple-Keeps (perform-Sound (wsl (new_account (password_of env))) refl) (λ h p. p))
        λ r.
          Triple-from
            (λ h p.
              (all-add_account (payer_of env) accounts _ held (all-find_accounts r.stdout), p))
            (create_accounts-Triple n _)

  abbrev Chosen : Accounts → History → Type 0
  Chosen chosen h = (is_sound (payer_of env) chosen.header chosen.segments ≡ true) × Sound h

  on_option-Chosen :
      (list_matches accounts : List Text)
      → all (fits (payer_of env)) list_matches ≡ true
      → all (fits (payer_of env)) accounts ≡ true
      → (found : Option Accounts) → choose list_matches accounts ≡ found
      → Triple Sound (on_option found (raise (Error.exit 1)) pure) Chosen Sound
  unfolding on_option
  on_option-Chosen list_matches accounts l a none e = Triple-raise _ (λ h p. p)
  on_option-Chosen list_matches accounts l a (some chosen) e =
      Triple-pure chosen
        (λ h p. (choose-is_sound (payer_of env) list_matches accounts chosen l a e, p))

  choose_accounts-Triple : Triple Sound (choose_accounts host env) Chosen Sound
  unfolding choose_accounts all
  choose_accounts-Triple =
      Triple-bind (Triple-from (λ h p. (refl, p)) (create_accounts-Triple 5 [])) λ accounts.
        Triple-given λ held.
          Triple-bind (Triple-Keeps (perform-Sound (wsl list_accounts) refl) (λ h p. p)) λ r.
            on_option-Chosen _ accounts
              (all-without_payer (payer_of env) _ (all-find_accounts r.stdout)) held _ refl

  deploy_registry-Sound :
      (chosen : Accounts)
      → is_sound (payer_of env) chosen.header chosen.segments ≡ true
      → Keeps Sound (deploy_registry host env chosen)
  unfolding deploy_registry
  deploy_registry-Sound chosen e =
      Keeps-bind _ _
        (perform-Sound
          (wsl (deploy_elf (password_of env) chosen.header chosen.segments (payer_of env)))
          (ground (arith, e, text_eq_refl (payer_of env))))
        (λ r. ask-Sound (write_evidence (codes "registry-deploy.log") (log_of r)) refl)

  register_region-Sound : (id : Text) → Keeps Sound (register_region host env id)
  unfolding register_region
  register_region-Sound id =
      Keeps-bind _ _
        (perform-Sound (wsl (file_test (codes "/root/target/debug/run_osm_registry"))) refl)
        λ test. Keeps-bind _ _ (perform-Sound (wsl (initialize _ id)) refl) λ init.
          Keeps-bind _ _ (perform-Sound (wsl (register_pakistan _ id)) refl)
            λ reg. ask-Sound (write_evidence (codes "registry-register.log") _) refl ▸ Keeps-pure _

  query_registry-Sound : (header id : Text) → Keeps Sound (query_registry host env header id)
  unfolding query_registry
  query_registry-Sound header id =
      Keeps-bind _ _ (perform-Sound (wsl (get_account (password_of env) header id)) refl) λ r.
        ask-Sound (write_evidence (codes "registry-query.log") (log_of r)) refl
        ▸ Keeps-pure (log_of r)

  deploy_and_register-Triple : Triple Sound (deploy_and_register host env) (λ seen. Sound) Sound
  unfolding deploy_and_register
  deploy_and_register-Triple = Triple-bind (Triple-Keeps open_wallet-Sound (λ h p. p)) λ u.
      Triple-bind choose_accounts-Triple λ chosen. Triple-given λ e.
        Triple-Keeps
          (deploy_registry-Sound chosen e
            ▸ Keeps-bind _ _ (register_region-Sound _)
                (λ log. Keeps-bind _ _ (query_registry-Sound _ _) (λ query. Keeps-pure _)))
          (λ h p. p)

-- Each deployment that a run of deploy_and_register asks for is paid by the payer, and has a header
-- and four segments that are account identifiers other than the payer's, whatever the world answers
-- and however the run ends.
pub deploy_and_register-Deploys :
    (host : Host) (env : Environment) → Deploys (payer_of env) (deploy_and_register host env []).1
unfolding all
deploy_and_register-Deploys host env =
    ends (deploy_and_register-Triple host env) (λ seen h p. p) [] refl
