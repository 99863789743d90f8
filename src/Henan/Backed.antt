-- ===== src/Henan/Backed.antt =====
-- scripts/verify_henan_e2e.py: what the registration and the evidence logs rest on.
use atlasmirror.Prelude.{ℕ, Text, true, false, ◌≡◌, Option, some, List, ◌∷◌}
use atlasmirror.Outcome.{Result, ok, err, Error}
use atlasmirror.Strings.{includes}
use atlasmirror.Hashing.{Hashes}
use atlasmirror.Host.{
  Host, Request, Event, History, Completed, http_get, read_bytes, local_pbf, retrieved, shell,
  register, query, write_log, geofabrik_log, upload_log, download_log, register_log, query_log,
  summary_log,
}
use atlasmirror.Host.Keeps.{publishes}
use atlasmirror.Host.Since.{Since}
use atlasmirror.Steps.Backing.{HasHashes, Honest, IsCalm}
use atlasmirror.Henan.Upload.{md5_url, published_md5}
use atlasmirror.Henan.Verify.{registration}

-- Geofabrik's answer publishes this MD5.
unfoldable pub Published : Text → History → Type 0
Published md5 h =
    (line : List ℕ) × (published_md5 line ≡ ok md5)
    × Since (http_get md5_url, some line) (λ h. Unit) h

module _ (host : Host) where
  -- The local file was read after that, and its bytes have the published MD5.
  unfoldable pub Downloaded : Hashes → History → Type 0
  Downloaded file h =
      (bytes : List ℕ) × HasHashes host bytes file
      × Since (read_bytes local_pbf, some bytes) (Published file.md5) h

  -- The retrieved file was read after that, and its bytes have the same size and digests.
  unfoldable pub Copied : Hashes → History → Type 0
  Copied file h =
      (copy : List ℕ) × HasHashes host copy file
      × Since (read_bytes retrieved, some copy) (Downloaded file) h

  -- The registration with this CID and the file's MD5 was sent after that, and succeeded.
  unfoldable pub Registered : Text → Hashes → History → Type 0
  Registered cid file h =
      (r : Completed) × (r.returncode ≡ 0)
      × Since (shell (register (registration cid file)), r) (Copied file) h

  -- A query after that shows the CID and the MD5.
  unfoldable pub Queried : Text → Hashes → History → Type 0
  Queried cid file h =
      (r : Completed) × (includes cid r.stdout ≡ true)
      × (includes file.md5 r.stdout ≡ true)
      × Since (shell query, r) (Registered cid file) h

  -- What a request that publishes rests on.
  pub data Backed : Request → History → Type 0 where
    quiet : (r : Request) (h : History) → publishes r ≡ false → Backed r h
    geofabrik :
        (file : Hashes) (h : History)
        → Downloaded file h
        → Backed (write_log (geofabrik_log file.md5 file)) h
    upload :
        (file : Hashes) (cid out : Text) (h : History)
        → Downloaded file h
        → Backed (write_log (upload_log file cid out)) h
    download :
        (file : Hashes) (cid : Text) (h : History)
        → Copied file h
        → Backed (write_log (download_log cid file file)) h
    registers :
        (file : Hashes) (cid : Text) (h : History)
        → Copied file h
        → Backed (shell (register (registration cid file))) h
    registered :
        (file : Hashes) (cid : Text) (tx block : Option Text) (h : History)
        → Registered cid file h
        → Backed (write_log (register_log (registration cid file) tx block)) h
    queried :
        (file : Hashes) (cid : Text) (r : Completed) (h : History)
        → includes cid r.stdout ≡ true
        → includes file.md5 r.stdout ≡ true
        → Since (shell query, r) (Registered cid file) h
        → Backed (write_log (query_log r.stdout)) h
    summary :
        (file : Hashes) (cid : Text) (tx block : Option Text) (h : History)
        → Queried cid file h
        → Backed (write_log (summary_log file cid tx block)) h

  -- How a run may end.
  pub data Ends : Result (Unit {0}) × History → Type 0 where
    success :
        (file : Hashes) (cid : Text) (tx block : Option Text) (h : History)
        → Since (write_log (summary_log file cid tx block), tt) (Queried cid file) h
        → Honest Backed h
        → Ends (ok tt, h)
    failure : (e : Error) (h : History) → Honest Backed h → Ends (err e, h)

instance abbrev pub henan_calm : {host : Host} → IsCalm (Backed host)
henan_calm = record { at = λ r h e. Backed.quiet r h e }

pub Published-later :
    (md5 : Text) (e : Event) (h : History) → Published md5 h → Published md5 (e ∷ h)
unfolding Published
Published-later md5 e h (line, p, s) = (line, p, Since.later e h s)

module _ (host : Host) where
  pub Downloaded-later :
      (file : Hashes) (e : Event) (h : History)
      → Downloaded host file h
      → Downloaded host file (e ∷ h)
  unfolding Downloaded
  Downloaded-later file e h (bytes, p, s) = (bytes, p, Since.later e h s)

  pub Copied-later :
      (file : Hashes) (e : Event) (h : History) → Copied host file h → Copied host file (e ∷ h)
  unfolding Copied
  Copied-later file e h (copy, p, s) = (copy, p, Since.later e h s)

  pub Registered-later :
      (cid : Text) (file : Hashes) (e : Event) (h : History)
      → Registered host cid file h
      → Registered host cid file (e ∷ h)
  unfolding Registered
  Registered-later cid file e h (r, p, s) = (r, p, Since.later e h s)

  pub Queried-later :
      (cid : Text) (file : Hashes) (e : Event) (h : History)
      → Queried host cid file h
      → Queried host cid file (e ∷ h)
  unfolding Queried
  Queried-later cid file e h (r, p, q, s) = (r, p, q, Since.later e h s)
