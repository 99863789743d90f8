-- ===== src/Coverage/Remote.antt =====
-- scripts/run_a1_coverage.py: the calls that try again.
use atlasmirror.Prelude.{
  ℕ, zero, suc, ◌+◌, ◌*◌, ◌/◌, min, Text, lower, text_eq, Bool, true, false, not, ◌&&◌, ◌||◌,
  Option, none, some, List, [], ◌∷◌, ◌==◌, if◌then◌else◌,
}
use atlasmirror.Outcome.{Error, ok, err, runtime_error}
use atlasmirror.Strings.{splitlines, strip, first_word}
use atlasmirror.Onchain.Utf8.{utf8_decode}
use atlasmirror.Json.{Json}
use atlasmirror.Storage.{parse_manifests, is_spr_line, spr_of}
use atlasmirror.Host.{
  Host, Remote, manifests, spr, restart, ssh, scp, FilePath, sleep_ms, clock_ms, http_get,
  http_head, http_retrieve, Completed, Head, Io, pure, raise, on_option, ask, perform, ◌>>=◌, ◌>>◌,
}
use atlasmirror.Region.{find_date}

-- the first line of a test's kind that can be read
unfoldable pub first_spr : List Text → Option Text
first_spr [] = none
first_spr (line ∷ lines) =
    if is_spr_line line
    then elim (spr_of line) [ ok s ↦ some s | err e ↦ first_spr lines ]
    else first_spr lines

-- req.read().decode("utf-8").strip().split()[0].lower(); `none` is an exception
pub published_of : List ℕ → Option Text
published_of bytes = elim (utf8_decode bytes) [
  | err e ↦ none
  | ok t ↦ elim (first_word (strip t)) [ none ↦ none | some w ↦ some (lower w) ]
]

module _ (host : Host) where
  -- the loop over `range(20)`, from an attempt on, with the last result
  unfoldable pub try_again : ℕ → ℕ → Bool → Io Completed → Completed → Io Completed
  try_again zero attempt check send res =
      if check && not (res.returncode == 0) then raise (Error.exit res.returncode) else pure res
  try_again (suc n) attempt check send res = do
    r ← send
    if r.returncode == 0 || not check then pure r else do
      ask host (sleep_ms (1000 * min (5 + attempt * 2) 20))
      try_again n (attempt + 1) check send r

  -- `res` before the first attempt
  abbrev pub not_run : Completed
  not_run = record { returncode = 0; stdout = []; stderr = [] }

  unfoldable pub run_ssh : Bool → Remote → Io Completed
  run_ssh check c = try_again 20 0 check (perform host (ssh c)) not_run

  unfoldable pub run_scp : FilePath → Text → Io Completed
  run_scp src dst = try_again 20 0 true (perform host (scp src dst)) not_run

  unfoldable pub spr_attempts : ℕ → Io Text
  spr_attempts zero = raise runtime_error
  spr_attempts (suc n) = do
    r ← run_ssh false spr
    on_option (first_spr (splitlines (strip r.stdout)))
        (do run_ssh false (restart 3); spr_attempts n) pure

  unfoldable pub get_vps_spr : Io Text
  get_vps_spr = spr_attempts 3

  unfoldable pub manifests_attempts : ℕ → Io Json
  manifests_attempts zero = raise runtime_error
  manifests_attempts (suc n) = do
    r ← run_ssh false manifests
    on_option (parse_manifests r.stdout) (do run_ssh false (restart 3); manifests_attempts n) pure

  unfoldable pub get_vps_manifests : Io Json
  get_vps_manifests = manifests_attempts 3

  unfoldable pub fetch_md5 : ℕ → Text → Io Text
  fetch_md5 zero url = raise runtime_error
  fetch_md5 (suc n) url = do
    found ← perform host (http_get url)
    on_option (elim found [ none ↦ none | some bytes ↦ published_of bytes ])
        (do ask host (sleep_ms 3000); fetch_md5 n url) pure

  -- What one HEAD request gives: an exception, no version, or one.
  version_from : Head → Option (Option Text)
  version_from answer = elim (find_date answer.final_url) [
    | some d ↦ some (some d)
    | none ↦ elim answer.last_modified [
      | none ↦ some none
      | some t ↦
          if text_eq t []
          then some none
          else elim (host.http_date t) [ none ↦ none | some d ↦ some (some d) ]
    ]
  ]

  pub head_version : Option Head → Option (Option Text)
  head_version none = none
  head_version (some answer) = version_from answer

  unfoldable pub fetch_version : ℕ → Text → Io Text
  fetch_version zero url = do now ← perform host clock_ms; pure (host.utc_date (now / 1000))
  fetch_version (suc n) url = do
    answer ← perform host (http_head url)
    on_option (head_version answer) (do ask host (sleep_ms 3000); fetch_version n url)
        (λ found. on_option found (fetch_version n url) pure)

  unfoldable pub fetch_geofabrik_metadata : Text → Text → Io (Text × Text)
  fetch_geofabrik_metadata pbf_url md5_url = do
    md5 ← fetch_md5 5 md5_url
    version ← fetch_version 5 pbf_url
    pure (md5, version)

  unfoldable pub download_file_with_retry : ℕ → Text → FilePath → Io (Unit {0})
  download_file_with_retry zero url path = raise runtime_error
  download_file_with_retry (suc n) url path = do
    done ← perform host (http_retrieve url path)
    if done then pure tt else do ask host (sleep_ms 3000); download_file_with_retry n url path
