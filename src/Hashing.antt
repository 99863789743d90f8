-- ===== src/Hashing.antt =====
-- `compute_hashes` of scripts/run_a1_coverage.py: a file hashed chunk by chunk.
-- `hashlib` is a parameter. Its documentation says that successive updates are one update with
-- the concatenation of their arguments, which is the law of `IsHashlib`.
mod Examples
use atlasmirror.Prelude.{
  ℕ, zero, suc, ◌+◌, ◌*◌, ◌<◌, ◌≤◌, ◌-◌, ◌≡◌, refl, ◌∙◌, sym, ap, Text, List, [], ◌∷◌, ◌++◌, arith,
  length, take, drop, append_assoc,
}
use atlasmirror.Prelude.{length-append}

pub record Hashlib : Type 1 where
  pub State : Type 0
  pub new : State
  pub update : State → List ℕ → State
  pub hexdigest : State → Text

pub record IsHashlib (H : Hashlib) : Type 0 where
  pub update-update : (s : H.State) (a b : List ℕ) → H.update (H.update s a) b ≡ H.update s (a ++ b)
  pub update-nil : (s : H.State) → H.update s [] ≡ s

-- The digest of all bytes at once.
abbrev pub digest : (H : Hashlib) → List ℕ → Text
digest H bytes = H.hexdigest (H.update H.new bytes)

pub record Hashes : Type 0 where
  pub size : ℕ
  pub md5 : Text
  pub sha256 : Text

abbrev pub chunk_size : ℕ
chunk_size = 1024 * 1024

module _ (M S : Hashlib) where
  -- while chunk := f.read(n): a read of n bytes takes the first n of what is left. Each round
  -- with n > 0 takes a byte at least, so as many rounds as there are bytes are enough.
  hash_loop : ℕ → ℕ → List ℕ → M.State → S.State → ℕ → Hashes
  hash_loop fuel n [] m s size = record { size = size; md5 = M.hexdigest m; sha256 = S.hexdigest s }
  hash_loop zero n (b ∷ bs) m s size = record {
    size = size;
    md5 = M.hexdigest m;
    sha256 = S.hexdigest s;
  }
  hash_loop (suc fuel) n (b ∷ bs) m s size =
      let chunk = take n (b ∷ bs) in
      hash_loop fuel n (drop n (b ∷ bs)) (M.update m chunk) (S.update s chunk) (size + length chunk)

  unfoldable pub compute_hashes : List ℕ → Hashes
  unfolding hash_loop
  compute_hashes bytes = hash_loop (length bytes) chunk_size bytes M.new S.new 0

-- The loop of scripts/verify_a1_audit.py, with one hash.
module _ (M : Hashlib) where
  unfoldable pub md5_loop : ℕ → ℕ → List ℕ → M.State → Text
  md5_loop fuel n [] m = M.hexdigest m
  md5_loop zero n (b ∷ bs) m = M.hexdigest m
  md5_loop (suc fuel) n (b ∷ bs) m =
      md5_loop fuel n (drop n (b ∷ bs)) (M.update m (take n (b ∷ bs)))

  unfoldable pub file_md5 : List ℕ → Text
  unfolding md5_loop
  file_md5 bytes = md5_loop (length bytes) chunk_size bytes M.new

take-drop : {A : Type 0} (n : ℕ) (xs : List A) → take n xs ++ drop n xs ≡ xs
take-drop zero xs = refl
take-drop (suc n) [] = refl
take-drop (suc n) (x ∷ xs) = ap (λ l. x ∷ l) (take-drop n xs)

length-drop : (n : ℕ) (xs : List ℕ) → length (drop n xs) ≤ length xs
length-drop zero xs = omega arith
length-drop (suc n) [] = omega arith
length-drop (suc n) (x ∷ xs) = omega (arith, length-drop n xs)

length-take-drop : (n : ℕ) (xs : List ℕ) → length (take n xs) + length (drop n xs) ≡ length xs
length-take-drop n xs = sym (length-append (take n xs) (drop n xs)) ∙ ap length (take-drop n xs)

module _ (M S : Hashlib) (m_lib : IsHashlib M) (s_lib : IsHashlib S) where
  hash_loop_whole :
      (fuel k : ℕ) (bytes : List ℕ) (m : M.State) (s : S.State) (size : ℕ)
      → length bytes ≤ fuel
      → hash_loop M S fuel (suc k) bytes m s size ≡ record {
        size = size + length bytes;
        md5 = M.hexdigest (M.update m bytes);
        sha256 = S.hexdigest (S.update s bytes);
      }
  unfolding hash_loop
  hash_loop_whole fuel k [] m s size h = ground (arith, m_lib.update-nil m, s_lib.update-nil s)
  hash_loop_whole zero k (b ∷ bs) m s size h = absurd (omega arith)
  hash_loop_whole (suc fuel) k (b ∷ bs) m s size h =
      rw (hash_loop_whole fuel k (drop k bs) _ _ _ (omega (arith, length-drop k bs))) (
        rw (m_lib.update-update, s_lib.update-update)
          (rw (take-drop k bs) (ground (arith, length-take-drop k bs))))

  -- Hashing a file chunk by chunk gives its number of bytes and the digests of all its bytes at
  -- once, where successive updates of either hash are one update with the concatenation.
  pub compute_hashes_whole :
      (bytes : List ℕ)
      → compute_hashes M S bytes
        ≡ record { size = length bytes; md5 = digest M bytes; sha256 = digest S bytes }
  unfolding compute_hashes
  compute_hashes_whole bytes =
      rw (hash_loop_whole (length bytes) 1048575 bytes M.new S.new 0 (omega arith)) (ground arith)

module _ (M : Hashlib) (m_lib : IsHashlib M) where
  md5_loop_whole :
      (fuel k : ℕ) (bytes : List ℕ) (m : M.State)
      → length bytes ≤ fuel
      → md5_loop M fuel (suc k) bytes m ≡ M.hexdigest (M.update m bytes)
  unfolding md5_loop
  md5_loop_whole fuel k [] m h = rw m_lib.update-nil
  md5_loop_whole zero k (b ∷ bs) m h = absurd (omega arith)
  md5_loop_whole (suc fuel) k (b ∷ bs) m h =
      rw (md5_loop_whole fuel k (drop k bs) _ (omega (arith, length-drop k bs)))
        (rw m_lib.update-update (rw (take-drop k bs)))

  -- Hashing a file chunk by chunk gives the digest of all its bytes at once, where successive
  -- updates of the hash are one update with the concatenation.
  pub file_md5_whole : (bytes : List ℕ) → file_md5 M bytes ≡ digest M bytes
  unfolding file_md5
  file_md5_whole bytes = md5_loop_whole (length bytes) 1048575 bytes M.new (omega arith)
