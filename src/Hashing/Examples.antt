-- ===== src/Hashing/Examples.antt =====
-- The digests of a few bytes, with the concatenation of the updates for a hash.
use atlasmirror.Prelude.{ℕ, ◌≡◌, List, [], ◌∷◌, ◌++◌, append-nil, append_assoc}
use atlasmirror.Hashing.{
  Hashlib, IsHashlib, digest, compute_hashes, file_md5, compute_hashes_whole, file_md5_whole,
}

abbrev plain : Hashlib
plain = record { State = List ℕ; new = []; update = λ s b. s ++ b; hexdigest = λ s. s }

plain-IsHashlib : IsHashlib plain
plain-IsHashlib = record {
  update-update = λ s a b. append_assoc s a b;
  update-nil = λ s. append-nil s;
}

compute_hashes_whole_example :
    compute_hashes plain plain (7 ∷ 8 ∷ [])
    ≡ record { size = 2; md5 = 7 ∷ 8 ∷ []; sha256 = 7 ∷ 8 ∷ [] }
compute_hashes_whole_example =
    compute_hashes_whole plain plain plain-IsHashlib plain-IsHashlib (7 ∷ 8 ∷ [])

file_md5_whole_example : file_md5 plain (7 ∷ 8 ∷ []) ≡ digest plain (7 ∷ 8 ∷ [])
file_md5_whole_example = file_md5_whole plain plain-IsHashlib (7 ∷ 8 ∷ [])
