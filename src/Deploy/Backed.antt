-- ===== src/Deploy/Backed.antt =====
-- scripts/deploy_vps_storage.py: what the evidence log rests on.
use atlasmirror.Prelude.{ℕ, Text, true, false, ◌≡◌, some, List, ◌∷◌}
use atlasmirror.Outcome.{Result, ok, err, Error}
use atlasmirror.Json.{Json}
use atlasmirror.Hashing.{Hashes}
use atlasmirror.Host.{
  Host, Request, Event, History, Completed, ssh, upload_events, read_bytes, retrieved, write_log,
  public_log,
}
use atlasmirror.Host.Keeps.{publishes}
use atlasmirror.Host.Since.{Since}
use atlasmirror.Steps.Backing.{HasHashes, Honest, IsCalm}
use atlasmirror.Reboot.Story.{IsExpected}
use atlasmirror.Deploy.Node.{uploaded_in, is_expected}

-- The node's event file showed an upload with the expected CID.
unfoldable pub Uploaded : History → Type 0
Uploaded h =
    (r : Completed) × (is_expected (uploaded_in r.stdout) ≡ true)
    × Since (ssh upload_events, r) (λ h. Unit) h

pub Uploaded-later : (e : Event) (h : History) → Uploaded h → Uploaded (e ∷ h)
unfolding Uploaded
Uploaded-later e h (r, p, s) = (r, p, Since.later e h s)

module _ (host : Host) where
  -- The retrieved file was read after that, with the expected size and digests.
  unfoldable pub Served : Hashes → History → Type 0
  Served file h =
      (bytes : List ℕ) × HasHashes host bytes file
      × IsExpected file
      × Since (read_bytes retrieved, some bytes) Uploaded h

  pub Served-later : (file : Hashes) (e : Event) (h : History) → Served file h → Served file (e ∷ h)
  unfolding Served
  Served-later file e h (bytes, p, x, s) = (bytes, p, x, Since.later e h s)

  -- What a request that publishes rests on.
  pub data Backed : Request → History → Type 0 where
    quiet : (r : Request) (h : History) → publishes r ≡ false → Backed r h
    evidence :
        (peer spr : Json) (manifest download : Text) (file : Hashes) (h : History)
        → Served file h
        → Backed (write_log (public_log peer spr manifest download file)) h

  -- How a run may end.
  pub data Ends : Result (Unit {0}) × History → Type 0 where
    success :
        (peer spr : Json) (manifest download : Text) (file : Hashes) (h : History)
        → Since (write_log (public_log peer spr manifest download file), tt) (Served file) h
        → Honest Backed h
        → Ends (ok tt, h)
    failure : (e : Error) (h : History) → Honest Backed h → Ends (err e, h)

instance abbrev pub deploy_calm : {host : Host} → IsCalm (Backed host)
deploy_calm = record { at = λ r h e. Backed.quiet r h e }
