-- ===== src/Steps/Laws.antt =====
-- The shared steps: the invariants they keep and the requests they make.
use atlasmirror.Prelude.{Text, false, ◌≡◌}
use atlasmirror.Host.{Host, History, Local, shell, FilePath, stat_size, read_text, read_bytes}
use atlasmirror.Host.Keeps.{
  Keeps, IsQuietFor, disturbs, keeps_rules, Keeps-bind, Keeps-perform, Keeps-if, Keeps-pure,
  Keeps-raise,
}
use atlasmirror.Host.Costs.{
  Costs, Costs-perform, Costs-pure, Costs-raise, Costs-or_raise, Costs-if, Costs-bind,
}
use atlasmirror.Steps.{run_local, size_of, event_in, hash_file}

module _ (host : Host) {P : History → Type 0} (q : IsQuietFor disturbs P) where
  pub run_local-Keeps : (c : Local) → disturbs (shell c) ≡ false → Keeps P (run_local host c)
  unfolding run_local
  run_local-Keeps c e =
      Keeps-bind _ _ (Keeps-perform host (shell c) q e)
        λ r. Keeps-if _ _ _ (Keeps-pure r) (Keeps-raise _)

  pub size_of-Keeps : (p : FilePath) → Keeps P (size_of host p)
  unfolding size_of
  size_of-Keeps p = search keeps_rules

  pub event_in-Keeps : (p : FilePath) (word : Text) → Keeps P (event_in host p word)
  unfolding event_in
  event_in-Keeps p word = search (keeps_rules, size_of-Keeps) depth 8

  pub hash_file-Keeps : (p : FilePath) → Keeps P (hash_file host p)
  unfolding hash_file
  hash_file-Keeps p = search keeps_rules

module _ (host : Host) where
  pub run_local-Costs : (c : Local) → Costs 1 (run_local host c)
  unfolding run_local
  run_local-Costs c =
      Costs-bind (Costs-perform host (shell c)) (λ r. Costs-if _ (Costs-pure r) (Costs-raise _))

  pub size_of-Costs : (p : FilePath) → Costs 1 (size_of host p)
  unfolding size_of
  size_of-Costs p = Costs-bind (Costs-perform host (stat_size p)) (λ s. Costs-or_raise _ s)

  pub event_in-Costs : (p : FilePath) (word : Text) → Costs 2 (event_in host p word)
  unfolding event_in
  event_in-Costs p word = Costs-bind (size_of-Costs p) λ size.
      Costs-if _
        (Costs-bind (Costs-perform host (read_text p))
          λ found. Costs-bind (Costs-or_raise _ found) λ text. Costs-pure _)
        (Costs-pure _)

  pub hash_file-Costs : (p : FilePath) → Costs 1 (hash_file host p)
  unfolding hash_file
  hash_file-Costs p =
      Costs-bind (Costs-perform host (read_bytes p))
        λ found. Costs-bind (Costs-or_raise _ found) λ bytes. Costs-pure _
