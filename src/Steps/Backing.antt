-- ===== src/Steps/Backing.antt =====
-- Histories in which what is published rests on what happened before, and the shared steps in them.
use atlasmirror.Prelude.{
  ℕ, ◌==◌, ◌≡◌, refl, false, some, List, [], ◌∷◌, length, arith, Bool-cases, inl, inr,
}
use atlasmirror.Outcome.{io_error}
use atlasmirror.Hashing.{Hashes, IsHashlib, digest, compute_hashes_whole}
use atlasmirror.Host.{
  Host, Request, Answer, Event, History, Local, FilePath, Io, shell, read_bytes, perform, ask, ◌>>◌,
}
use atlasmirror.Host.Keeps.{publishes, IsQuiet, Keeps, Keeps-bind, Keeps-pure}
use atlasmirror.Host.Since.{Since}
use atlasmirror.Host.Triples.{
  Triple, Triple-bind, Triple-Keeps, Triple-perform, Triple-or_raise, Triple-pure, Triple-raise,
}
use atlasmirror.Steps.{run_local, hash_file}

-- `B r h` is what the request `r` rests on, in the history before it.
pub data Honest (B : Request → History → Type 0) : History → Type 0 where
  start : Honest B []
  step : (r : Request) (a : Answer r) (h : History) → B r h → Honest B h → Honest B ((r, a) ∷ h)

-- A request that publishes nothing rests on nothing.
pub record IsCalm (B : Request → History → Type 0) : Type 0 where
  pub at : (r : Request) (h : History) → publishes r ≡ false → B r h

-- The file's size and digests are those of the bytes.
abbrev pub HasHashes : Host → List ℕ → Hashes → Type 0
HasHashes host bytes file =
    file
    ≡ record { size = length bytes; md5 = digest host.md5 bytes; sha256 = digest host.sha256 bytes }

-- A condition on the past, in such a history.
unfoldable pub Holds : (Request → History → Type 0) → (History → Type 0) → History → Type 0
Holds B C h = C h × Honest B h

module _ (B : Request → History → Type 0) ⦃calm : IsCalm B⦄ {C : History → Type 0}
    (later : (e : Event) (h : History) → C h → C (e ∷ h)) where
  pub Holds-IsQuiet : IsQuiet (Holds B C)
  unfolding Holds
  Holds-IsQuiet = record {
    at = λ r a h e (c, g). (later (r, a) h c, Honest.step r a h (calm.at r h e) g);
  }

  pub honest : (h : History) → Holds B C h → Honest B h
  unfolding Holds
  honest h p = p.1

  infixr 5 ◌▹◌
  pub ◌▹◌ :
      {A A' : Type 0} {m : Io A} {n : Io A'} {Q : A' → History → Type 0}
      → Keeps (Holds B C) m
      → Triple (Holds B C) n Q (Honest B)
      → Triple (Holds B C) (m >> n) Q (Honest B)
  k ▹ t = Triple-bind (Triple-Keeps k honest) (λ a. t)

  module _ (host : Host) where
    Backed-perform :
        (r : Request) → ((h : History) → C h → B r h) → Keeps (Holds B C) (perform host r)
    unfolding perform Holds
    Backed-perform r b = record {
      at = λ h (c, g). (later _ h c, Honest.step r (host.answer r h) h (b h c) g);
    }

    pub Backed-ask : (r : Request) → ((h : History) → C h → B r h) → Keeps (Holds B C) (ask host r)
    unfolding ask
    Backed-ask r b = Keeps-bind _ _ (Backed-perform r b) (λ a. Keeps-pure tt)

    pub run-Triple :
        (c : Local)
        → ((h : History) → C h → B (shell c) h)
        → Triple
            (Holds B C)
            (run_local host c)
            (λ r. Holds B (λ h. (r.returncode ≡ 0) × Since (shell c, r) C h))
            (Honest B)
    unfolding run_local Holds
    run-Triple c b =
        Triple-bind
          (Triple-perform host (shell c) {Q = λ r h. Since (shell c, r) C h × Honest B h}
            (λ a h (p, g). (Since.now h p, Honest.step _ a h (b h p) g)))
          λ r. elim (Bool-cases (r.returncode == 0)) [
            | inl y ↦ rw y (Triple-pure r (λ h (p, g). ((ground (arith, y), p), g)))
            | inr n ↦ rw n (Triple-raise _ (λ h (p, g). g))
          ]

    module _ (m_lib : IsHashlib host.md5) (s_lib : IsHashlib host.sha256) where
      pub hash_file-Triple :
          (p : FilePath)
          → Triple
              (Holds B C)
              (hash_file host p)
              (λ file. Holds B (λ h.
                (bytes : List ℕ) × HasHashes host bytes file
                × Since (read_bytes p, some bytes) C h))
              (Honest B)
      unfolding hash_file Holds
      hash_file-Triple p =
          Triple-bind
            (Triple-perform host (read_bytes p)
              {Q = λ found h. Since (read_bytes p, found) C h × Honest B h}
              (λ a h (c, g). (Since.now h c, Honest.step _ a h (calm.at _ h refl) g)))
            λ found. Triple-bind (Triple-or_raise io_error found (λ h p. p.1)) λ bytes.
              Triple-pure _ λ h (there, (s, g)). (
                (bytes, compute_hashes_whole host.md5 host.sha256 m_lib s_lib bytes, rw there at s),
                g,
              )
