-- ===== src/Region/Gate.antt =====
-- scripts/process_one_region.py: the histories of a run, and conditions on them.
use atlasmirror.Prelude.{ℕ, Text, false, ◌≡◌, ◌≢◌, none, some, List, [], ◌∷◌, ◌++◌}
use atlasmirror.Hashing.{digest}
use atlasmirror.Manifest.{Entry, ManifestFile}
use atlasmirror.Manifest.Save.{IsSaved}
use atlasmirror.Runner.{Receipt, scan_receipt}
use atlasmirror.Host.{
  Host, Registration, Request, Answer, Event, History, shell, register, read_bytes, read_manifest,
  write_manifest, retrieved,
}
use atlasmirror.Host.Keeps.{publishes, IsQuiet}

-- The event is in the history.
pub data Past (e : Event) : History → Type 0 where
  now : (h : History) → Past e (e ∷ h)
  before : (d : Event) (h : History) → Past e h → Past e (d ∷ h)

-- The retrieved file was read, and its bytes have this MD5.
abbrev pub WasRetrieved : Host → Text → History → Type 0
WasRetrieved host md5 h =
    (bytes : List ℕ) × (digest host.md5 bytes ≡ md5) × Past (read_bytes retrieved, some bytes) h

-- What a scan of answers to a registration shows, in their order: nothing where none was sent.
pub data IsScanned (reg : Registration) : Receipt → History → Type 0 where
  unsent : (h : History) → IsScanned reg (record { tx_hash = none; block_num = none }) h
  answered :
      (receipt : Receipt) (a : Answer (shell (register reg))) (h : History)
      → IsScanned reg receipt h
      → IsScanned reg (scan_receipt a.stdout receipt) ((shell (register reg), a) ∷ h)
  aside :
      (receipt : Receipt) (d : Event) (h : History)
      → IsScanned reg receipt h
      → IsScanned reg receipt (d ∷ h)

-- The entries that were read, and one more: the region, CID and MD5 of a registration, with the
-- transaction's hash and the block's number that its answers show, which are not empty.
abbrev pub WasPrepared : List Entry → History → Type 0
WasPrepared es h =
    (entries : List Entry) × (e : Entry) × (reg : Registration) × (receipt : Receipt) × (block : ℕ)
    × (es ≡ entries ++ (e ∷ []))
    × (receipt.tx_hash ≡ some e.registry_tx)
    × (e.registry_tx ≢ [])
    × (receipt.block_num ≡ some block)
    × (e.block ≡ some block)
    × (block ≢ 0)
    × (e.region ≡ reg.region)
    × (e.cid ≡ reg.cid)
    × (e.geofabrik_md5 ≡ reg.md5)
    × Past (read_manifest, some entries) h
    × IsScanned reg receipt h

-- The manifest holds such entries.
abbrev pub WasRegistered : ManifestFile → History → Type 0
WasRegistered m h = (es : List Entry) × IsSaved es m × WasPrepared es h

-- The histories that a run may leave.
pub data Gate (host : Host) : History → Type 0 where
  start : Gate host []
  quiet :
      (r : Request) (a : Answer r) (h : History)
      → publishes r ≡ false
      → Gate host h
      → Gate host ((r, a) ∷ h)
  registration :
      (reg : Registration) (a : Answer (shell (register reg))) (h : History)
      → WasRetrieved host reg.md5 h
      → Gate host h
      → Gate host ((shell (register reg), a) ∷ h)
  save :
      (m : ManifestFile) (a : Answer (write_manifest m)) (h : History)
      → WasRegistered m h
      → Gate host h
      → Gate host ((write_manifest m, a) ∷ h)

module _ (host : Host) where
  pub Gate-IsQuiet : IsQuiet (Gate host)
  Gate-IsQuiet = record { at = λ r a h e g. Gate.quiet r a h e g }

  -- A condition on the past is kept beside the gate.
  unfoldable pub Holds : (History → Type 0) → History → Type 0
  Holds C h = C h × Gate host h

  pub Holds-IsQuiet :
      {C : History → Type 0} → ((e : Event) (h : History) → C h → C (e ∷ h)) → IsQuiet (Holds C)
  unfolding Holds
  Holds-IsQuiet later = record { at = λ r a h e p. (later (r, a) h p.0, Gate.quiet r a h e p.1) }

  -- The condition with which the retrieval ends.
  unfoldable pub Retrieved : (History → Type 0) → Text → History → Type 0
  Retrieved C md5 = Holds (λ h. WasRetrieved host md5 h × C h)

  -- The condition with which the registration ends.
  unfoldable pub Registered : (History → Type 0) → Registration → Receipt → History → Type 0
  Registered C reg receipt =
      Holds (λ h. IsScanned reg receipt h × WasRetrieved host reg.md5 h × C h)

  module _ {C : History → Type 0} (later : (e : Event) (h : History) → C h → C (e ∷ h)) where
    pub Retrieved-IsQuiet : (md5 : Text) → IsQuiet (Retrieved C md5)
    unfolding Retrieved
    Retrieved-IsQuiet md5 =
        Holds-IsQuiet λ e h ((bytes, b, p), c). ((bytes, b, Past.before e h p), later e h c)

    pub Registered-IsQuiet :
        (reg : Registration) (receipt : Receipt) → IsQuiet (Registered C reg receipt)
    unfolding Registered
    Registered-IsQuiet reg receipt = Holds-IsQuiet λ e h (s, (bytes, b, p), c).
        (IsScanned.aside receipt e h s, (bytes, b, Past.before e h p), later e h c)
