-- ===== src/Coverage/Retries.antt =====
-- scripts/run_a1_coverage.py: how `run_ssh` ends.
use atlasmirror.Prelude.{
  ℕ, zero, suc, ◌+◌, ◌*◌, ◌≤◌, ◌≡◌, ◌≢◌, arith, true, ◌==◌, length, Bool-cases, inl, inr,
}
use atlasmirror.Outcome.{Error, Result, ok, err}
use atlasmirror.Host.{Host, Remote, Completed, History, ssh, perform, ask, pure, raise, ◌>>=◌}
use atlasmirror.Coverage.Remote.{try_again, run_ssh}

-- A success, or an exit with a status that is not 0.
pub data IsFinished : Result Completed → Type 0 where
  success : (r : Completed) → r.returncode ≡ 0 → IsFinished (ok r)
  failure : (n : ℕ) → n ≢ 0 → IsFinished (err (Error.exit n))

module _ (host : Host) (c : Remote) where
  try_again_ends :
      (n attempt : ℕ) (res : Completed) (h : History)
      → IsFinished (try_again host n attempt true (perform host (ssh c)) res h).0
        × (length (try_again host n attempt true (perform host (ssh c)) res h).1 ≤ length h + 2 * n)
  unfolding try_again perform ask pure raise ◌>>=◌
  try_again_ends zero attempt res h = elim (Bool-cases (res.returncode == 0)) [
    | inl y ↦ rw y (IsFinished.success res (ground (arith, y)), omega arith)
    | inr n ↦ rw n (IsFinished.failure res.returncode (ground (arith, n)), omega arith)
  ]
  try_again_ends (suc n) attempt res h =
      let r = host.answer (ssh c) h in
      elim (Bool-cases (r.returncode == 0)) [
        | inl y ↦ rw y (IsFinished.success r (ground (arith, y)), omega arith)
        | inr k ↦
            rw k (
              let (ends, bound) = try_again_ends n (attempt + 1) r _ in
              (ends, omega (arith, bound)))
      ]

-- A checked call ends with a result whose return code is 0, or exits with a status that is not 0,
-- whatever the world answers, and makes at most 40 requests, its sleeps included.
pub run_ssh_ends :
    (host : Host) (c : Remote) (h : History)
    → IsFinished (run_ssh host true c h).0 × (length (run_ssh host true c h).1 ≤ length h + 40)
unfolding run_ssh
run_ssh_ends host c h = try_again_ends host c 20 0 _ h
