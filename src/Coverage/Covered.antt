-- ===== src/Coverage/Covered.antt =====
-- scripts/run_a1_coverage.py: what a run that ends has shown.
use atlasmirror.Prelude.{◌≡◌, List}
use atlasmirror.Outcome.{ok}
use atlasmirror.Manifest.{Entry}
use atlasmirror.Host.{Host, History}
use atlasmirror.Host.Triples.{
  Triple, Triple-bind, Triple-const, Triple-lift, Triple-assert, Triple-pure,
}
use atlasmirror.Coverage.Plan.{PlanItem}
use atlasmirror.Coverage.Assertions.{IsCovered, final_assertions-IsCovered}
use atlasmirror.Coverage.Run.{run_coverage}

run_coverage-Triple :
    (host : Host) (plan : List PlanItem)
    → Triple (λ h. Unit) (run_coverage host plan) (λ final h. IsCovered final) (λ h. Unit)
unfolding run_coverage
run_coverage-Triple host plan = Triple-bind (Triple-const _) λ u.
    Triple-bind (Triple-const _) λ node. Triple-bind (Triple-const _) λ entries.
      Triple-bind (Triple-const _) λ u. Triple-bind (Triple-const _) λ final.
        Triple-bind (Triple-lift _ (λ h p. p)) λ retrievable.
          Triple-bind (Triple-lift _ (λ h p. tt)) λ matching.
            Triple-bind (Triple-assert _ (λ h p. tt)) λ u. Triple-bind (Triple-const _) λ u.
              Triple-pure final (λ h (checked, (matched, (counted, p))).
                final_assertions-IsCovered final retrievable matching counted matched checked)

-- A run that ends without an error, whatever the world answers and whatever the plan, ends with at
-- least 25 entries of at least 15 countries, and each has a retrieval recorded as an exact match
-- whose MD5 is the entry's.
pub run_coverage-IsCovered :
    (host : Host) (plan : List PlanItem) (h h' : History) (final : List Entry)
    → run_coverage host plan h ≡ (ok final, h')
    → IsCovered final
run_coverage-IsCovered host plan h h' final e = rw e at ((run_coverage-Triple host plan).at h tt)
