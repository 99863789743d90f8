-- ===== src/Scan/Examples.antt =====
-- scripts/scan_candidates.py in a small world.
use atlasmirror.Prelude.{codes, ◌≤◌, [], length, refl, if◌then◌else◌, starts_with, text_eq}
use atlasmirror.Strings.{includes, strip, strip_of, lstrip, rstrip}
use atlasmirror.Json.{loads}
use atlasmirror.Packaging.{ends_with}
use atlasmirror.Host.{
  Host, Request, Answer, History, wsl, compute_id, perform, pure, on_option, or_raise, ◌>>=◌,
}
use atlasmirror.Host.World.{host_with, out}
use atlasmirror.Scan.{
  check_programs, check_program, in_cache, get_image_id, is_bracketed, cached_name, flat, is_items,
  is_target, authenticated_transfer, token, pinata, candidates, check_ref, scan,
}
use atlasmirror.Scan.Matched.{Computed, check_ref-Computed}
use atlasmirror.Scan.Bound.{requests-scan}

-- The image IDs are the known ones.
abbrev release_answer : (r : Request) → (h : History) → Answer r
release_answer (wsl (compute_id file)) h = out (
    if includes (codes "token") file
    then codes
        "[1047643340, 4291649067, 2093396023, 4016657193, 3904308476, 481382041, 2987082047, 2603530278]"
    else if includes (codes "pinata") file
    then codes
        "[2062635772, 3904239712, 2833328350, 20714435, 436307236, 2247732790, 2681611470, 2354246644]"
    else codes
        "[583309054, 2344528779, 3806558405, 2890696795, 2257354672, 3978764116, 2273929063, 1518858078]")
release_answer r h = (host_with []).answer r h

abbrev release_host : Host
release_host = record {
  answer = release_answer;
  md5 = (host_with []).md5;
  sha256 = (host_with []).sha256;
  http_date = (host_with []).http_date;
  utc_date = (host_with []).utc_date;
}

abbrev end : History
end = (check_ref release_host (codes "v0.2.1") []).1

check_ref-Computed_example :
    Computed (codes "v0.2.1") authenticated_transfer end
    × Computed (codes "v0.2.1") token end
    × Computed (codes "v0.2.1") pinata end
unfolding check_ref check_programs check_program in_cache get_image_id is_bracketed cached_name flat
    is_items is_target perform pure on_option or_raise ◌>>=◌ starts_with text_eq codes includes
    strip strip_of lstrip rstrip ends_with loads
check_ref-Computed_example = check_ref-Computed release_host (codes "v0.2.1") [] refl

requests-scan_example : length (scan release_host candidates []).1 ≤ 312
requests-scan_example = requests-scan release_host []
