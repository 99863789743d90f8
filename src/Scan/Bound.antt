-- ===== src/Scan/Bound.antt =====
-- scripts/scan_candidates.py: how many requests a scan makes.
use atlasmirror.Prelude.{◌+◌, ◌*◌, ◌≤◌, arith, Text, Bool, true, length, List, [], ◌∷◌}
use atlasmirror.Host.{Host, History, work_file, wsl, compute_id, exists, store, http_get}
use atlasmirror.Host.Costs.{
  Costs, Costs-perform, Costs-pure, Costs-raise, Costs-or_raise, Costs-if, Costs-le,
  Costs-on_option, Costs-bind,
}
use atlasmirror.Scan.{
  Program, programs, candidates, cached_name, artifact_url, get_image_id, download, in_cache,
  check_program, check_programs, check_ref, scan,
}

module _ (host : Host) where
  get_image_id-Costs : (file : Text) → Costs 1 (get_image_id host file)
  unfolding get_image_id
  get_image_id-Costs file =
      Costs-bind (Costs-perform host (wsl (compute_id file)))
        λ r. Costs-if _ (Costs-bind (Costs-or_raise _ _) (λ id. Costs-pure _)) (Costs-pure _)

  in_cache-Costs : (ref prog : Text) → Costs 3 (in_cache host ref prog)
  unfolding in_cache download
  in_cache-Costs ref prog =
      Costs-bind (Costs-perform host (exists (work_file (cached_name ref prog)))) λ there.
        Costs-if there (Costs-pure _) (
          Costs-bind (Costs-perform host (http_get (artifact_url ref prog))) λ got.
            Costs-on_option got (Costs-pure _)
              (λ bytes. Costs-perform host (store (work_file (cached_name ref prog)) bytes)))

  check_program-Costs : (ref : Text) (p : Program) → Costs 4 (check_program host ref p)
  unfolding check_program
  check_program-Costs ref p = Costs-bind (in_cache-Costs ref p.name) λ ready.
      Costs-if ready (Costs-bind (get_image_id-Costs _) (λ id. Costs-pure _)) (Costs-pure _)

  check_programs-Costs :
      (ref : Text) (ps : List Program) (matched_all : Bool)
      → Costs (length ps * 4) (check_programs host ref ps matched_all)
  unfolding check_programs
  check_programs-Costs ref [] matched_all = Costs-pure matched_all
  check_programs-Costs ref (p ∷ ps) matched_all =
      Costs-le (omega arith)
        (Costs-bind (check_program-Costs ref p) (λ matched. check_programs-Costs ref ps _))

  scan-Costs : (cands : List Text) → Costs (length cands * 12) (scan host cands)
  unfolding scan check_ref
  scan-Costs [] = Costs-pure tt
  scan-Costs (cand ∷ cands) = Costs-le (omega arith) (
      Costs-bind (check_programs-Costs cand programs true)
        (λ found. Costs-if found (Costs-raise _) (scan-Costs cands)))

-- A scan of the candidates makes at most 312 requests, whatever the world answers.
pub requests-scan : (host : Host) (h : History) → length (scan host candidates h).1 ≤ length h + 312
requests-scan host h = (scan-Costs host candidates).at h
