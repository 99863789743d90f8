-- ===== src/Wallet.antt =====
-- scripts/deploy_and_register.py: the wallet's accounts, the deployment and one registration.
mod Sound
mod Deployed
mod Distinct
mod Bound
mod Examples
use atlasmirror.Prelude.{
  ℕ, zero, suc, ◌+◌, Text, codes, text_eq, Bool, true, false, not, leb, ◌&&◌, ◌||◌, ◌==◌,
  if◌then◌else◌, Option, none, some, List, [], ◌∷◌, ◌++◌, length, drop, any, starts_with,
}
use atlasmirror.Outcome.{Error}
use atlasmirror.Strings.{includes, remove_all}
use atlasmirror.Host.{
  Host, Completed, Wsl, wsl, write_evidence, reset_wallet, write_wallet_config, check_health,
  list_accounts, open_storage, new_account, import_key, deploy_elf, file_test, initialize,
  register_pakistan, get_account, Io, pure, raise, on_option, when, ask, perform, ◌>>=◌, ◌>>◌,
}

-- The variables of the environment that the script reads.
pub record Environment : Type 0 where
  pub wallet_password : Option Text
  pub funded_payer : Option Text
  pub funded_key_hex : Option Text

pub record Accounts : Type 0 where
  pub header : Text
  pub segments : List Text

abbrev pub pakistan_cid : Text
pakistan_cid = codes "zDvZRwzm4i6cSYFNEAUzyEGTJBroH2EJjc3FJNmbhoKRwagSZ1ny"

-- os.environ.get(name, default)
abbrev pub get : Option Text → Text → Text
get none default = default
get (some t) default = t

abbrev pub payer_of : Environment → Text
payer_of env = get env.funded_payer (codes "Public/6iArKUXxhUJqS7kCaPNhwMWt3ro71PDyBj7jwAyE2VQV")

abbrev pub password_of : Environment → Text
password_of env = get env.wallet_password []

-- [1-9A-HJ-NP-Za-km-z]
unfoldable pub is_base58 : ℕ → Bool
is_base58 c =
    (leb b'1' c && leb c b'9')
    || (leb b'A' c && leb c b'H')
    || (leb b'J' c && leb c b'N')
    || (leb b'P' c && leb c b'Z')
    || (leb b'a' c && leb c b'k')
    || (leb b'm' c && leb c b'z')

-- the longest run of that class at the start, up to a number of code points
unfoldable pub run_of : ℕ → Text → Text
run_of zero s = []
run_of (suc n) [] = []
run_of (suc n) (c ∷ s) = let rest = run_of n s in if is_base58 c then c ∷ rest else []

-- The match of Public/[1-9A-HJ-NP-Za-km-z]{32,44} at the start.
unfoldable pub account_at : Text → Option Text
account_at s =
    let id = run_of 44 (drop 7 s) in
    if starts_with s (codes "Public/") && leb 32 (length id)
    then some (codes "Public/" ++ id)
    else none

-- from the point where so many code points of a match are still to be passed over
unfoldable pub matches_from : ℕ → Text → List Text
matches_from n [] = []
matches_from (suc n) (c ∷ s) = matches_from n s
matches_from zero (c ∷ s) = elim (account_at (c ∷ s)) [
  | none ↦ matches_from 0 s
  | some m ↦ m ∷ matches_from (length (drop 1 m)) s
]

-- re.findall
unfoldable pub find_accounts : Text → List Text
find_accounts s = matches_from 0 s

-- the first match that is new, at the end of the accounts
unfoldable pub add_account : Text → List Text → List Text → List Text
add_account payer accounts [] = accounts
add_account payer accounts (m ∷ found) =
    let rest = add_account payer accounts found in
    if not (any (text_eq m) accounts) && not (text_eq m payer) then accounts ++ (m ∷ []) else rest

-- list_matches
unfoldable pub without_payer : Text → List Text → List Text
without_payer payer [] = []
without_payer payer (m ∷ found) =
    let rest = without_payer payer found in if not (text_eq m payer) then m ∷ rest else rest

-- the first five of a list
unfoldable pub five_of : List Text → Option Accounts
five_of (h ∷ a ∷ b ∷ c ∷ d ∷ more) = some (record { header = h; segments = a ∷ b ∷ c ∷ d ∷ [] })
five_of _ = none

unfoldable pub choose : List Text → List Text → Option Accounts
choose list_matches accounts = elim (five_of list_matches) [
  | some chosen ↦ some chosen
  | none ↦ five_of accounts
]

unfoldable pub raw_id : Text → Text
raw_id header = remove_all (codes "Public/") header

unfoldable pub log_of : Completed → Text
log_of r = r.stdout ++ (codes "\n" ++ r.stderr)

module _ (host : Host) (env : Environment) where
  -- steps 1 to 3, and the import of the payer's key
  unfoldable pub open_wallet : Io (Unit {0})
  open_wallet = do
    ask host (wsl reset_wallet)
    ask host (wsl write_wallet_config)
    ask host (wsl (open_storage (password_of env)))
    ask host (wsl check_health)
    let key = get env.funded_key_hex []
    when (not (text_eq key [])) (ask host (wsl (import_key (password_of env) key)))

  unfoldable pub create_accounts : ℕ → List Text → Io (List Text)
  create_accounts zero accounts = pure accounts
  create_accounts (suc n) accounts = do
    r ← perform host (wsl (new_account (password_of env)))
    create_accounts n (add_account (payer_of env) accounts (find_accounts r.stdout))

  -- the header and the segments
  unfoldable pub choose_accounts : Io Accounts
  choose_accounts = do
    accounts ← create_accounts 5 []
    r ← perform host (wsl list_accounts)
    let list_matches = without_payer (payer_of env) (find_accounts r.stdout)
    on_option (choose list_matches accounts) (raise (Error.exit 1)) pure

  -- step 5
  unfoldable pub deploy_registry : Accounts → Io (Unit {0})
  deploy_registry chosen = do
    r ←
        perform host
          (wsl (deploy_elf (password_of env) chosen.header chosen.segments (payer_of env)))
    ask host (write_evidence (codes "registry-deploy.log") (log_of r))

  -- step 6
  unfoldable pub register_region : Text → Io Text
  register_region raw_header_id = do
    test ← perform host (wsl (file_test (codes "/root/target/debug/run_osm_registry")))
    let runner =
        if test.returncode == 0
        then codes "/root/target/debug/run_osm_registry"
        else codes "/tmp/lez/target/debug/run_osm_registry"
    init ← perform host (wsl (initialize runner raw_header_id))
    reg ← perform host (wsl (register_pakistan runner raw_header_id))
    let register_log =
        codes "INIT:\n" ++ (log_of init ++ (codes "\nREGISTER:\n" ++ (log_of reg ++ codes "\n")))
    ask host (write_evidence (codes "registry-register.log") register_log)
    pure register_log

  -- step 7
  unfoldable pub query_registry : Text → Text → Io Text
  query_registry header raw_header_id = do
    r ← perform host (wsl (get_account (password_of env) header raw_header_id))
    ask host (write_evidence (codes "registry-query.log") (log_of r))
    pure (log_of r)

  -- main(); the result is whether it prints SUCCESS
  unfoldable pub deploy_and_register : Io Bool
  deploy_and_register = do
    open_wallet
    chosen ← choose_accounts
    deploy_registry chosen
    register_log ← register_region (raw_id chosen.header)
    query_log ← query_registry chosen.header (raw_id chosen.header)
    pure (includes pakistan_cid query_log || includes pakistan_cid register_log)
