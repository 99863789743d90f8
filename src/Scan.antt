-- ===== src/Scan.antt =====
-- scripts/scan_candidates.py: the search for a release whose three programs have the known image IDs.
-- The directory of the cache is left out of a file's name.
mod Matched
mod Bound
mod Examples
use atlasmirror.Prelude.{
  ℕ, Text, codes, text_eq, Bool, true, false, not, ◌&&◌, ◌==◌, if◌then◌else◌, Option, none, some,
  List, [], ◌∷◌, ◌++◌, starts_with,
}
use atlasmirror.Outcome.{Error, json_error}
use atlasmirror.Strings.{strip}
use atlasmirror.Json.{Json, Items, nat, arr, nil, cons, loads}
use atlasmirror.Packaging.{ends_with}
use atlasmirror.Host.{
  Host, FilePath, work_file, wsl, compute_id, exists, store, http_get, Io, pure, raise, or_raise,
  on_option, perform, ◌>>=◌, ◌>>◌,
}

pub record Program : Type 0 where
  pub name : Text
  pub target : List ℕ

abbrev pub authenticated_transfer : Program
authenticated_transfer = record {
  name = codes "authenticated_transfer";
  target =
      583309054 ∷ 2344528779 ∷ 3806558405 ∷ 2890696795 ∷ 2257354672 ∷ 3978764116 ∷ 2273929063
      ∷ 1518858078 ∷ [];
}

abbrev pub token : Program
token = record {
  name = codes "token";
  target =
      1047643340 ∷ 4291649067 ∷ 2093396023 ∷ 4016657193 ∷ 3904308476 ∷ 481382041 ∷ 2987082047
      ∷ 2603530278 ∷ [];
}

abbrev pub pinata : Program
pinata = record {
  name = codes "pinata";
  target =
      2062635772 ∷ 3904239712 ∷ 2833328350 ∷ 20714435 ∷ 436307236 ∷ 2247732790 ∷ 2681611470
      ∷ 2354246644 ∷ [];
}

-- TARGETS, in the order of the loop
abbrev pub programs : List Program
programs = authenticated_transfer ∷ token ∷ pinata ∷ []

abbrev pub candidates : List Text
candidates =
    codes "v0.2.0-rc6"
    ∷ codes "v0.2.0"
    ∷ codes "v0.2.1"
    ∷ codes "v0.2.2-rc1"
    ∷ codes "v0.2.2"
    ∷ codes "v0.2.3"
    ∷ codes "v0.2.4"
    ∷ codes "c9a7ede209"
    ∷ codes "765de8de03"
    ∷ codes "449e9e366c"
    ∷ codes "483821967d"
    ∷ codes "cb24da6e4d"
    ∷ codes "096312547b"
    ∷ codes "dad565945e"
    ∷ codes "7b06525f97"
    ∷ codes "d7a143d26c"
    ∷ codes "39b3018058"
    ∷ codes "96c8577db8"
    ∷ codes "72782beb34"
    ∷ codes "2ba1ecd609"
    ∷ codes "d52c76e2b5"
    ∷ codes "7b6b439eb2"
    ∷ codes "2a7a586a59"
    ∷ codes "a6aa5ff358"
    ∷ codes "be81184028"
    ∷ codes "17b49f5a94"
    ∷ []

-- ref_name.replace('/', '_')
unfoldable pub flat : Text → Text
flat [] = []
flat (c ∷ s) = (if c == b'/' then b'_' else c) ∷ flat s

unfoldable pub cached_name : Text → Text → Text
cached_name ref prog = flat ref ++ (codes "_" ++ (prog ++ codes ".bin"))

unfoldable pub artifact_url : Text → Text → Text
artifact_url ref prog =
    codes "https://raw.githubusercontent.com/logos-blockchain/logos-execution-zone/"
    ++ (ref ++ (codes "/artifacts/lez/programs/" ++ (prog ++ codes ".bin")))

-- img_id == TARGETS[prog]; that a number with a fraction equals a whole one is left out
unfoldable pub is_items : Items → List ℕ → Bool
is_items nil [] = true
is_items (cons (nat n) vs) (t ∷ ts) = n == t && is_items vs ts
is_items _ _ = false

unfoldable pub is_target : Option Json → List ℕ → Bool
is_target (some (arr vs)) ts = is_items vs ts
is_target _ ts = false

-- the output is in brackets
unfoldable pub is_bracketed : Text → Bool
is_bracketed out = starts_with out (codes "[") && ends_with out (codes "]")

module _ (host : Host) where
  unfoldable pub get_image_id : Text → Io (Option Json)
  get_image_id file = do
    r ← perform host (wsl (compute_id file))
    if is_bracketed (strip r.stdout)
        then (do id ← or_raise json_error (loads (strip r.stdout)); pure (some id))
        else pure none

  -- the `try` of the loop's body; an exception gives false
  unfoldable pub download : Text → Text → Io Bool
  download ref prog = do
    data_read ← perform host (http_get (artifact_url ref prog))
    on_option data_read (pure false)
        (λ bytes. perform host (store (work_file (cached_name ref prog)) bytes))

  unfoldable pub in_cache : Text → Text → Io Bool
  in_cache ref prog = do
    there ← perform host (exists (work_file (cached_name ref prog)))
    if there then pure true else download ref prog

  -- the loop's body; the result is whether `matched_all` stays as it was
  unfoldable pub check_program : Text → Program → Io Bool
  check_program ref p = do
    ready ← in_cache ref p.name
    if ready
        then (do img_id ← get_image_id (cached_name ref p.name); pure (is_target img_id p.target))
        else pure false

  unfoldable pub check_programs : Text → List Program → Bool → Io Bool
  check_programs ref [] matched_all = pure matched_all
  check_programs ref (p ∷ ps) matched_all = do
    matched ← check_program ref p
    check_programs ref ps (matched_all && matched)

  unfoldable pub check_ref : Text → Io Bool
  check_ref ref = check_programs ref programs true

  -- the loop over the candidates
  unfoldable pub scan : List Text → Io (Unit {0})
  scan [] = pure tt
  scan (cand ∷ cands) = do
    found ← check_ref cand
    if found then raise (Error.exit 0) else scan cands
