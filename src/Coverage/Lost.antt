-- ===== src/Coverage/Lost.antt =====
-- scripts/run_a1_coverage.py and scripts/process_one_region.py: entries of the one in the other's save.
use atlasmirror.Prelude.{ℕ, ◌≡◌, Text, List, ◌∷◌, ◌++◌, keep-append, refl}
use atlasmirror.Hashing.{Hashes}
use atlasmirror.Manifest.{Entry, flag, opt_text_eq, is_counting, is_extra, save_manifest}
use atlasmirror.Host.{Registration}
use atlasmirror.Coverage.Plan.{PlanItem}
use atlasmirror.Coverage.Register.{entry_of}

-- An entry that run_a1_coverage.py makes is lost by a save of process_one_region.py, wherever it stands
-- in the manifest: the file is the one that is written without it.
pub save_manifest-entry_of :
    (now : ℕ) (xs ys : List Entry) (item : PlanItem) (reg : Registration) (tx : Text)
    (block f_size : ℕ) (hashes : Hashes)
    → save_manifest now (xs ++ (entry_of item reg tx block f_size hashes ∷ ys))
      ≡ save_manifest now (xs ++ ys)
unfolding save_manifest is_counting is_extra flag opt_text_eq entry_of
save_manifest-entry_of now xs ys item reg tx block f_size hashes =
    simp (keep-append is_counting xs, keep-append is_extra xs) refl
