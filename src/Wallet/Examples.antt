-- ===== src/Wallet/Examples.antt =====
-- Runs of scripts/deploy_and_register.py in the small world.
use atlasmirror.Prelude.{
  ℕ, Text, codes, text_eq, ◌+◌, ◌≤◌, true, none, [], ◌∷◌, ◌++◌, length, ◌≡◌, refl, starts_with,
}
use atlasmirror.Host.{
  Host, Request, Answer, History, wsl, new_account, perform, pure, on_option, ◌>>=◌,
}
use atlasmirror.Host.World.{host_with, out}
use atlasmirror.Wallet.{
  Environment, Accounts, payer_of, is_base58, run_of, account_at, matches_from, find_accounts,
  add_account, without_payer, five_of, choose, create_accounts, choose_accounts,
  deploy_and_register,
}
use atlasmirror.Wallet.Deployed.{Deploys, deploy_and_register-Deploys}
use atlasmirror.Wallet.Distinct.{are_distinct, choose_accounts-are_distinct}
use atlasmirror.Wallet.Bound.{requests-deploy_and_register}

abbrev unset : Environment
unset = record { wallet_password = none; funded_payer = none; funded_key_hex = none }

-- 31 digits are too few, and the 45th digit is left out
find_two :
    find_accounts (
      codes
        "Public/1111111111111111111111111111111 Public/Public/222222222222222222222222222222222222222222223x")
    ≡ codes "Public/22222222222222222222222222222222222222222222" ∷ []
unfolding find_accounts matches_from account_at run_of is_base58 starts_with text_eq codes
find_two = refl

deploy_and_register-Deploys_example :
    Deploys (payer_of unset) (deploy_and_register (host_with []) unset []).1
deploy_and_register-Deploys_example = deploy_and_register-Deploys (host_with []) unset

requests-deploy_and_register_example : length (deploy_and_register (host_with []) unset []).1 ≤ 19
requests-deploy_and_register_example = requests-deploy_and_register (host_with []) unset []

-- The wallet makes a new account each time, and its listing is empty.
abbrev fresh_answer : (r : Request) → (h : History) → Answer r
fresh_answer (wsl (new_account pass)) h =
    out (codes "Public/1111111111111111111111111111111" ++ ((b'2' + length h) ∷ []))
fresh_answer (wsl c) h = out []
fresh_answer r h = (host_with []).answer r h

abbrev fresh_host : Host
fresh_host = record {
  answer = fresh_answer;
  md5 = (host_with []).md5;
  sha256 = (host_with []).sha256;
  http_date = (host_with []).http_date;
  utc_date = (host_with []).utc_date;
}

abbrev fresh : ℕ → Text
fresh d = codes "Public/1111111111111111111111111111111" ++ (d ∷ [])

abbrev fresh_accounts : Accounts
fresh_accounts = record {
  header = fresh b'2';
  segments = fresh b'3' ∷ fresh b'4' ∷ fresh b'5' ∷ fresh b'6' ∷ [];
}

choose_accounts-are_distinct_example :
    are_distinct (fresh_accounts.header ∷ fresh_accounts.segments) ≡ true
unfolding choose_accounts create_accounts perform pure on_option ◌>>=◌ find_accounts matches_from
    account_at run_of is_base58 add_account without_payer choose five_of starts_with text_eq codes
choose_accounts-are_distinct_example =
    choose_accounts-are_distinct fresh_host unset [] fresh_accounts (λ h. refl) refl
