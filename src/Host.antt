-- ===== src/Host.antt =====
-- What the scripts ask of the world outside: ssh and local commands, files, the clock, the web.
-- A command line is a constructor named for its template, over the values that the script puts
-- into it. The world answers as it likes, given all that was asked and answered before: it is the
-- field `answer`. An action extends this history and returns, raises or exits.
pub mod Keeps
pub mod Triples
pub mod Costs
pub mod Since
pub mod World
use atlasmirror.Prelude.{ℕ, zero, suc, Text, Bool, true, false, Option, none, some, List, [], ◌∷◌}
use atlasmirror.Outcome.{Error, Result, ok, err}
use atlasmirror.Hashing.{Hashlib}
use atlasmirror.Hashing.{Hashes}
use atlasmirror.Json.{Json}
use atlasmirror.Manifest.{Entry, ManifestFile}

-- `{RUNNER_BIN} … register {region} {cid} {md5} {url} {version} {timestamp}`
pub record Registration : Type 0 where
  pub region : Text
  pub cid : Text
  pub md5 : Text
  pub url : Text
  pub version : Text
  pub timestamp : ℕ

-- Commands on the VPS. `restart n` is `systemctl restart logos-storage`, with `&& sleep n` if 0 < n.
pub data Remote : Type 0 where
  manifests spr disk_free block_count : Remote
  restart : ℕ → Remote
  extract_closure logoscore_version write_node kill_node start_node node_status load_node : Remote
  init_node activate_node node_peer public_spr node_network node_debug watch_uploads : Remote
  upload_henan upload_events : Remote
  published_md5 head staging_md5 md5sum file_size staged_size upload remove : Text → Remote
  download : Text → Text → Remote

-- Commands of scripts/verify_reboot_survival.py on the VPS; the unit is logos-storage.service.
pub data Vps : Type 0 where
  auth_check write_init make_executable write_unit stop_unit kill_logos clear_state : Vps
  daemon_reload enable_unit restart_unit unit_status peer_id node_spr held_manifests : Vps
  reboot uptime is_active listening : Vps

-- Local commands: the registry runner, the client's logoscore daemon, git. The directories in them
-- are each script's own.
pub data Local : Type 0 where
  query kill_all remove_client start_daemon load_module init_module start_module : Local
  stop_module stop_daemon git_add : Local
  destroy_module daemon_status local_manifests upload_url reset_client wrap_elf deploy_program :
      Local
  register : Registration → Local
  download_manifest download_to : Text → Local
  git_commit : ℕ → Text → Local

-- `client_config` is cfg/client/config.json, `daemon_config` data/config.json.
pub data FilePath : Type 0 where
  client_dir client_config daemon_config manifest_event download_event retrieved : FilePath
  manifest_file adoption_file local_pbf upload_event closure_tar : FilePath
  work_file : Text → FilePath

-- What docs/adoption.md shows: the two tables' entries, the totals, and whether A1 is complete.
pub record Adoption : Type 0 where
  pub counting : List Entry
  pub extra : List Entry
  pub countries : ℕ
  pub is_complete : Bool

-- What scripts/run_a1_coverage.py writes as the manifest.
pub record CoverageFile : Type 0 where
  pub total_verified_entries : ℕ
  pub represented_countries : ℕ
  pub is_verified : Bool
  pub entries : List Entry

-- What the evidence logs of scripts/verify_henan_e2e.py, scripts/verify_reboot_survival.py and
-- scripts/deploy_vps_storage.py show.
pub data Log : Type 0 where
  geofabrik_log : Text → Hashes → Log
  upload_log : Hashes → Text → Text → Log
  download_log : Text → Hashes → Hashes → Log
  register_log : Registration → Option Text → Option Text → Log
  query_log : Text → Log
  summary_log : Hashes → Text → Option Text → Option Text → Log
  reboot_log : Json → Json → Bool → Hashes → Log
  public_log : Json → Json → Text → Text → Hashes → Log

-- Commands under wsl: of scripts/deploy_and_register.py, where the wallet's password comes first, and
-- `compute_id` of scripts/scan_candidates.py over the name of a cached file.
pub data Wsl : Type 0 where
  reset_wallet write_wallet_config check_health list_accounts : Wsl
  open_storage new_account : Text → Wsl
  import_key : Text → Text → Wsl
  deploy_elf : Text → Text → List Text → Text → Wsl
  file_test : Text → Wsl
  initialize register_pakistan : Text → Text → Wsl
  get_account : Text → Text → Text → Wsl
  compute_id : Text → Wsl

pub data Request : Type 0 where
  wsl : Wsl → Request
  write_evidence : Text → Text → Request
  store : FilePath → List ℕ → Request
  ssh : Remote → Request
  shell : Local → Request
  scp : FilePath → Text → Request
  watch : FilePath → Request
  kill_watch : FilePath → Request
  sleep_ms : ℕ → Request
  clock_ms : Request
  exists stat_size read_text read_bytes touch unlink make_dirs : FilePath → Request
  write_config : Text → Request
  vps : Vps → Request
  write_node_config : Option Json → Request
  write_storage_config : Request
  write_log : Log → Request
  read_manifest : Request
  write_manifest : ManifestFile → Request
  write_adoption : Adoption → Request
  write_coverage : CoverageFile → Request
  write_summary : List Entry → Request
  http_get http_head : Text → Request
  http_retrieve : Text → FilePath → Request

-- subprocess.CompletedProcess
pub record Completed : Type 0 where
  pub returncode : ℕ
  pub stdout : Text
  pub stderr : Text

pub record Head : Type 0 where
  pub final_url : Text
  pub last_modified : Option Text

-- `none` and `false` stand for an exception of the call.
abbrev pub Answer : Request → Type 0
Answer (wsl c) = Completed
Answer (write_evidence name content) = Unit
Answer (store p bytes) = Bool
Answer (ssh c) = Completed
Answer (shell c) = Completed
Answer (scp src dst) = Completed
Answer (watch p) = Unit
Answer (kill_watch p) = Unit
Answer (sleep_ms n) = Unit
Answer clock_ms = ℕ
Answer (exists p) = Bool
Answer (stat_size p) = Option ℕ
Answer (read_text p) = Option Text
Answer (read_bytes p) = Option (List ℕ)
Answer (touch p) = Unit
Answer (unlink p) = Unit
Answer (make_dirs p) = Unit
Answer (write_config node) = Unit
Answer (vps c) = Option Completed
Answer (write_node_config bootstrap) = Unit
Answer write_storage_config = Unit
Answer (write_log log) = Unit
Answer read_manifest = Option (List Entry)
Answer (write_manifest m) = Unit
Answer (write_adoption a) = Unit
Answer (write_coverage m) = Unit
Answer (write_summary es) = Unit
Answer (http_get url) = Option (List ℕ)
Answer (http_head url) = Option Head
Answer (http_retrieve url p) = Bool

abbrev pub Event : Type 0
Event = (r : Request) × Answer r

-- the latest event first
abbrev pub History : Type 0
History = List Event

-- `utc_date` is `time.strftime("%Y-%m-%d", time.gmtime(t))` and `http_date` is `email.utils.parsedate_to_datetime(s).strftime("%Y-%m-%d")`.
pub record Host : Type 1 where
  pub answer : (r : Request) → History → Answer r
  pub md5 : Hashlib
  pub sha256 : Hashlib
  pub http_date : Text → Option Text
  pub utc_date : ℕ → Text

abbrev pub Io : Type 0 → Type 0
Io A = History → Result A × History

module _ {A : Type 0} where
  unfoldable pub pure : A → Io A
  pure a h = (ok a, h)

  unfoldable pub raise : Error → Io A
  raise e h = (err e, h)

  -- a value, or the exception of a call that failed
  unfoldable pub or_raise : Error → Option A → Io A
  or_raise e none h = (err e, h)
  or_raise e (some a) h = (ok a, h)

  -- try: m; except Exception: other. An exit of the process is not caught.
  rescue : Io A → Result A → History → Result A × History
  rescue other (ok a) h = (ok a, h)
  rescue other (err (Error.exit n)) h = (err (Error.exit n), h)
  rescue other (err e) h = other h

  unfoldable pub except : Io A → Io A → Io A
  unfolding rescue
  except m other h = let (r, h') = m h in rescue other r h'

-- a choice between an action for None and one for a value
unfoldable pub on_option : {A B : Type 0} → Option B → Io A → (B → Io A) → Io A
on_option none m f = m
on_option (some b) m f = f b

-- the result of a pure function that may raise
unfoldable pub lift : {A : Type 0} → Result A → Io A
lift r h = (r, h)

-- assert b
unfoldable pub assert : Bool → Io (Unit {0})
assert true h = (ok tt, h)
assert false h = (err Error.assertion_error, h)

module _ {A B : Type 0} where
  abbrev pub continue : Result A → (A → Io B) → Io B
  continue (ok a) f h = f a h
  continue (err e) f h = (err e, h)

  infixl 10 ◌>>=◌ ◌>>◌
  unfoldable pub ◌>>=◌ : Io A → (A → Io B) → Io B
  ◌>>=◌ m f h = let (r, h') = m h in continue r f h'

  abbrev pub ◌>>◌ : Io A → Io B → Io B
  m >> n = m >>= λ _. n

unfoldable pub perform : Host → (r : Request) → Io (Answer r)
perform host r h = let a = host.answer r h in (ok a, (r, a) ∷ h)

-- if b: m
unfoldable pub when : Bool → Io (Unit {0}) → Io (Unit {0})
when true m = m
when false m = pure tt

-- a call whose answer is dropped
unfoldable pub ask : Host → Request → Io (Unit {0})
ask host r = do perform host r; pure tt
