-- ===== src/Wallet/Bound.antt =====
-- scripts/deploy_and_register.py: how many requests a run makes.
use atlasmirror.Prelude.{ℕ, zero, suc, ◌+◌, ◌≤◌, arith, Text, length, codes, List, []}
use atlasmirror.Host.{
  Host, History, wsl, deploy_elf, new_account, list_accounts, file_test, initialize,
  register_pakistan, get_account,
}
use atlasmirror.Host.Costs.{
  Costs, Costs-perform, Costs-pure, Costs-raise, Costs-le, Costs-on_option, Costs-bind, ◌⊕◌,
  Costs-ask, Costs-when,
}
use atlasmirror.Wallet.{
  Environment, Accounts, payer_of, password_of, open_wallet, create_accounts, choose_accounts,
  deploy_registry, register_region, query_registry, deploy_and_register,
}

module _ (host : Host) (env : Environment) where
  open_wallet-Costs : Costs 5 (open_wallet host env)
  unfolding open_wallet
  open_wallet-Costs =
      Costs-ask host _
      ⊕ Costs-ask host _
      ⊕ Costs-ask host _
      ⊕ Costs-ask host _
      ⊕ Costs-when _ (Costs-ask host _)

  create_accounts-Costs :
      (n : ℕ) (accounts : List Text) → Costs n (create_accounts host env n accounts)
  unfolding create_accounts
  create_accounts-Costs zero accounts = Costs-pure accounts
  create_accounts-Costs (suc n) accounts = Costs-le (omega arith) (
      Costs-bind (Costs-perform host (wsl (new_account (password_of env))))
        λ r. create_accounts-Costs n _)

  choose_accounts-Costs : Costs 6 (choose_accounts host env)
  unfolding choose_accounts
  choose_accounts-Costs = Costs-bind (create_accounts-Costs 5 []) λ accounts.
      Costs-bind (Costs-perform host (wsl list_accounts))
        λ r. Costs-on_option _ (Costs-raise _) (λ chosen. Costs-pure chosen)

  deploy_registry-Costs : (chosen : Accounts) → Costs 2 (deploy_registry host env chosen)
  unfolding deploy_registry
  deploy_registry-Costs chosen =
      Costs-bind
        (Costs-perform host
          (wsl (deploy_elf (password_of env) chosen.header chosen.segments (payer_of env))))
        λ r. Costs-ask host _

  register_region-Costs : (id : Text) → Costs 4 (register_region host env id)
  unfolding register_region
  register_region-Costs id =
      Costs-bind
        (Costs-perform host (wsl (file_test (codes "/root/target/debug/run_osm_registry"))))
        λ test. Costs-bind (Costs-perform host (wsl (initialize _ id))) λ init.
          Costs-bind (Costs-perform host (wsl (register_pakistan _ id)))
            λ reg. Costs-ask host _ ⊕ Costs-pure _

  query_registry-Costs : (header id : Text) → Costs 2 (query_registry host env header id)
  unfolding query_registry
  query_registry-Costs header id =
      Costs-bind (Costs-perform host (wsl (get_account (password_of env) header id)))
        λ r. Costs-ask host _ ⊕ Costs-pure _

  deploy_and_register-Costs : Costs 19 (deploy_and_register host env)
  unfolding deploy_and_register
  deploy_and_register-Costs =
      open_wallet-Costs
      ⊕ Costs-bind choose_accounts-Costs λ chosen.
        deploy_registry-Costs chosen
        ⊕ Costs-bind (register_region-Costs _)
            λ log. Costs-bind (query_registry-Costs _ _) λ query. Costs-pure _

-- A run of deploy_and_register makes at most 19 requests, whatever the world answers.
pub requests-deploy_and_register :
    (host : Host) (env : Environment) (h : History)
    → length (deploy_and_register host env h).1 ≤ length h + 19
requests-deploy_and_register host env h = (deploy_and_register-Costs host env).at h
