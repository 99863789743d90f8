-- ===== src/Reboot/Story.antt =====
-- scripts/verify_reboot_survival.py: what a history tells of the VPS and of the retrieved file.
use atlasmirror.Prelude.{
  ℕ, Text, codes, text_eq, Bool, true, false, ◌&&◌, ◌||◌, ◌==◌, ◌≡◌, Option, none, some, List, [],
  ◌∷◌, length, arith,
}
use atlasmirror.Outcome.{Result, ok, err, Error}
use atlasmirror.Strings.{includes, strip}
use atlasmirror.Json.{Json}
use atlasmirror.Hashing.{Hashes, digest}
use atlasmirror.Host.{
  Host, Request, Answer, History, Completed, vps, enable_unit, restart_unit, held_manifests, reboot,
  uptime, is_active, listening, read_bytes, retrieved, write_log, reboot_log,
}
use atlasmirror.Host.Keeps.{manages, is_remote, disturbs, is_log, IsQuietFor}
use atlasmirror.Reboot.Node.{expected_cid}
use atlasmirror.Reboot.Client.{expected_size, expected_md5, expected_sha256}

pub data Milestone : Type 0 where
  unit_enabled unit_started cid_held rebooted came_back unit_active port_open copied logged :
      Milestone

-- The command succeeded, and its output passes the test.
abbrev pub succeeds : (Text → Bool) → Option Completed → Bool
succeeds test none = false
succeeds test (some r) = r.returncode == 0 && test r.stdout

abbrev is_some : {A : Type 0} → Option A → Bool
is_some none = false
is_some (some a) = true

-- The file has the size and both digests that are expected.
abbrev pub is_exact : Host → Option (List ℕ) → Bool
is_exact host none = false
is_exact host (some bytes) =
    length bytes == expected_size
    && text_eq (digest host.md5 bytes) expected_md5
    && text_eq (digest host.sha256 bytes) expected_sha256

-- Does the request with its answer reach the milestone?
abbrev pub reached : Host → Milestone → (r : Request) → Answer r → Bool
reached host unit_enabled (vps enable_unit) a = succeeds (λ out. true) a
reached host unit_started (vps restart_unit) a = succeeds (λ out. true) a
reached host cid_held (vps held_manifests) a = succeeds (includes expected_cid) a
reached host rebooted (vps reboot) a = is_some a
reached host came_back (vps uptime) a = succeeds (λ out. true) a
reached host unit_active (vps is_active) a =
    succeeds (λ out. includes (codes "active") (strip out)) a
reached host port_open (vps listening) a = succeeds (includes (codes "8070")) a
reached host copied (read_bytes retrieved) a = is_exact host a
reached host logged (write_log (reboot_log peer spr ambient file)) a = true
reached host m r a = false

abbrev pub has_rebooted : List Milestone → Bool
has_rebooted [] = false
has_rebooted (rebooted ∷ ms) = true
has_rebooted (m ∷ ms) = has_rebooted ms

-- A command that sets up, starts or stops the VPS's service, or any other command or copy to the VPS
-- than this script's own.
abbrev pub services : Request → Bool
services r = manages r || is_remote r

-- The milestones were reached in this order, the latest first, and no such command came after the
-- reboot.
pub data Story (host : Host) : List Milestone → History → Type 0 where
  start : (h : History) → Story host [] h
  reach :
      (m : Milestone) (ms : List Milestone) (r : Request) (a : Answer r) (h : History)
      → reached host m r a ≡ true
      → Story host ms h
      → Story host (m ∷ ms) ((r, a) ∷ h)
  other :
      (ms : List Milestone) (r : Request) (a : Answer r) (h : History)
      → (has_rebooted ms && services r) ≡ false
      → Story host ms h
      → Story host ms ((r, a) ∷ h)

-- before the reboot
abbrev pub prepared : List Milestone
prepared = cid_held ∷ unit_started ∷ unit_enabled ∷ []

-- up to the retrieved file
abbrev pub survival : List Milestone
survival = copied ∷ cid_held ∷ port_open ∷ unit_active ∷ came_back ∷ rebooted ∷ prepared

pub record IsExpected (file : Hashes) : Type 0 where
  pub size : file.size ≡ expected_size
  pub md5 : file.md5 ≡ expected_md5
  pub sha256 : file.sha256 ≡ expected_sha256

-- The histories in which each evidence log comes after such a story and shows what is expected.
pub data Proven (host : Host) : History → Type 0 where
  start : Proven host []
  other :
      (r : Request) (a : Answer r) (h : History)
      → is_log r ≡ false
      → Proven host h
      → Proven host ((r, a) ∷ h)
  evidence :
      (peer spr : Json) (ambient : Bool) (file : Hashes)
      (a : Answer (write_log (reboot_log peer spr ambient file))) (h : History)
      → IsExpected file
      → Story host survival h
      → Proven host h
      → Proven host ((write_log (reboot_log peer spr ambient file), a) ∷ h)

-- How a run may end.
pub data Ends (host : Host) : Result (Unit {0}) × History → Type 0 where
  success : (h : History) → Story host (logged ∷ survival) h → Proven host h → Ends host (ok tt, h)
  failure : (e : Error) (h : History) → Proven host h → Ends host (err e, h)

abbrev pub At : Host → List Milestone → History → Type 0
At host ms h = Story host ms h × Proven host h

quiet_services : (r : Request) → disturbs r ≡ false → services r ≡ false
quiet_services r e = ground (arith, e)

quiet_log : (r : Request) → disturbs r ≡ false → is_log r ≡ false
quiet_log r e = ground (arith, e)

pub and_false : (b : Bool) → (b && false) ≡ false
and_false b = ground arith

quiet_other :
    (ms : List Milestone) (r : Request)
    → disturbs r ≡ false
    → (has_rebooted ms && services r) ≡ false
quiet_other ms r e = rw (quiet_services r e) (and_false (has_rebooted ms))

module _ (host : Host) where
  pub At-IsQuiet : (ms : List Milestone) → IsQuietFor disturbs (At host ms)
  At-IsQuiet ms = record {
    at = λ r a h e (s, p).
        (Story.other ms r a h (quiet_other ms r e) s, Proven.other r a h (quiet_log r e) p);
  }

  -- The request and its answer are the latest, after such a story.
  pub data Latest (ms : List Milestone) : (r : Request) → Answer r → History → Type 0 where
    latest :
        (r : Request) (a : Answer r) (h : History)
        → (has_rebooted ms && services r) ≡ false
        → is_log r ≡ false
        → At host ms h
        → Latest ms r a ((r, a) ∷ h)

  pub Latest-At :
      {ms : List Milestone} {r : Request} {a : Answer r} {h : History}
      → Latest ms r a h
      → At host ms h
  Latest-At {ms} (latest r a h calm e (s, p)) =
      (Story.other ms r a h calm s, Proven.other r a h e p)

  pub Latest-reach :
      {ms : List Milestone} {r : Request} {a : Answer r} {h : History} (m : Milestone)
      → reached host m r a ≡ true
      → Latest ms r a h
      → At host (m ∷ ms) h
  Latest-reach {ms} m seen (latest r a h calm e (s, p)) =
      (Story.reach m ms r a h seen s, Proven.other r a h e p)
