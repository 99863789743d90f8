-- ===== src/Host/Keeps.antt =====
-- Invariants of the history, one rule for each way to build an action.
use atlasmirror.Prelude.{
  Bool, true, false, ◌≡◌, ◌||◌, arith, Option, none, some, ◌∷◌, if◌then◌else◌,
}
use atlasmirror.Outcome.{Error, Result, ok, err}
use atlasmirror.Host.{
  Host, Request, Answer, History, Io, pure, raise, or_raise, rescue, except, assert, lift,
  on_option, when, ask, continue, ◌>>=◌, ◌>>◌, perform, ssh, scp, shell, register, write_manifest,
  write_coverage, write_log, vps, write_init, make_executable, write_unit, stop_unit, kill_logos,
  clear_state, daemon_reload, enable_unit, restart_unit,
}

-- `m` keeps `P`, whether it returns or raises.
pub record Keeps {A : Type 0} (P : History → Type 0) (action : Io A) : Type 0 where
  pub at : (h : History) → P h → P (action h).1

module _ {A : Type 0} {P : History → Type 0} where
  pub Keeps-pure : (a : A) → Keeps P (pure a)
  unfolding pure
  Keeps-pure a = record { at = λ history held. held }

  pub Keeps-raise : (e : Error) → Keeps P (raise {A = A} e)
  unfolding raise
  Keeps-raise e = record { at = λ h p. p }

  pub Keeps-or_raise : (e : Error) (o : Option A) → Keeps P (or_raise e o)
  unfolding or_raise
  Keeps-or_raise e none = record { at = λ h p. p }
  Keeps-or_raise e (some a) = record { at = λ h p. p }

  pub Keeps-if : (b : Bool) (m n : Io A) → Keeps P m → Keeps P n → Keeps P (if b then m else n)
  Keeps-if true m n km kn = km
  Keeps-if false m n km kn = kn

  pub Keeps-on_option :
      {B : Type 0} (o : Option B) (m : Io A) (f : B → Io A)
      → Keeps P m
      → ((b : B) → Keeps P (f b))
      → Keeps P (on_option o m f)
  unfolding on_option
  Keeps-on_option none m f km kf = km
  Keeps-on_option (some b) m f km kf = kf b

  rescue-keeps :
      (other : Io A) (r : Result A) (h : History) → Keeps P other → P h → P (rescue other r h).1
  unfolding rescue
  rescue-keeps other (ok a) h k p = p
  rescue-keeps other (err (Error.exit n)) h k p = p
  rescue-keeps other (err e) h k p = k.at h p

  pub Keeps-except : (m other : Io A) → Keeps P m → Keeps P other → Keeps P (except m other)
  unfolding except
  Keeps-except m other km ko = record {
    at = λ h p. let (r, h') = m h in rescue-keeps other r h' ko (km.at h p);
  }

module _ {P : History → Type 0} where
  pub Keeps-assert : (b : Bool) → Keeps P (assert b)
  unfolding assert
  Keeps-assert true = record { at = λ h p. p }
  Keeps-assert false = record { at = λ h p. p }

module _ {A B : Type 0} {P : History → Type 0} where
  continue-keeps :
      (r : Result A) (f : A → Io B) (h : History)
      → ((a : A) → Keeps P (f a))
      → P h
      → P (continue r f h).1
  continue-keeps (ok a) f h k p = (k a).at h p
  continue-keeps (err e) f h k p = p

  pub Keeps-bind :
      (m : Io A) (f : A → Io B) → Keeps P m → ((a : A) → Keeps P (f a)) → Keeps P (m >>= f)
  unfolding ◌>>=◌
  Keeps-bind m f km kf = record {
    at = λ h p. let (r, h') = m h in continue-keeps r f h' kf (km.at h p);
  }

  pub Keeps-then : (m : Io A) (n : Io B) → Keeps P m → Keeps P n → Keeps P (m >> n)
  Keeps-then m n km kn = Keeps-bind m (λ _. n) km (λ _. kn)

  infixr 5 ◌▸◌
  pub ◌▸◌ : {m : Io A} {n : Io B} → Keeps P m → Keeps P n → Keeps P (m >> n)
  km ▸ kn = Keeps-then _ _ km kn

abbrev pub is_registration : Request → Bool
is_registration (shell (register a)) = true
is_registration _ = false

abbrev pub is_save : Request → Bool
is_save (write_manifest m) = true
is_save (write_coverage m) = true
is_save _ = false

-- The commands on the VPS that set up, start or stop its service.
abbrev pub manages : Request → Bool
manages (vps write_init) = true
manages (vps make_executable) = true
manages (vps write_unit) = true
manages (vps stop_unit) = true
manages (vps kill_logos) = true
manages (vps clear_state) = true
manages (vps daemon_reload) = true
manages (vps enable_unit) = true
manages (vps restart_unit) = true
manages _ = false

abbrev pub is_log : Request → Bool
is_log (write_log log) = true
is_log _ = false

-- The requests that publish: a registration on the chain, a write of the manifest or of a log, and
-- the commands that manage the VPS.
abbrev pub publishes : Request → Bool
publishes r = is_registration r || is_save r || is_log r || manages r

-- An invariant that no request can break but the loud ones.
pub record IsQuietFor (loud : Request → Bool) (P : History → Type 0) : Type 0 where
  pub at : (r : Request) (a : Answer r) (h : History) → loud r ≡ false → P h → P ((r, a) ∷ h)

abbrev pub IsQuiet : (History → Type 0) → Type 0
IsQuiet P = IsQuietFor publishes P

-- ssh and scp by the scripts that have a command of each kind for them
abbrev pub is_remote : Request → Bool
is_remote (ssh c) = true
is_remote (scp src dst) = true
is_remote _ = false

abbrev pub disturbs : Request → Bool
disturbs r = publishes r || is_remote r

calm_lem : (r : Request) → disturbs r ≡ false → publishes r ≡ false
calm_lem r e = ground (arith, e)

pub calm : {P : History → Type 0} → IsQuiet P → IsQuietFor disturbs P
calm q = record { at = λ r a h e p. q.at r a h (calm_lem r e) p }

pub Keeps-perform :
    {P : History → Type 0} {loud : Request → Bool} (host : Host) (r : Request)
    → IsQuietFor loud P
    → loud r ≡ false
    → Keeps P (perform host r)
unfolding perform
Keeps-perform host r q e = record { at = λ h p. q.at r (host.answer r h) h e p }

pub Keeps-ask :
    {P : History → Type 0} {loud : Request → Bool} (host : Host) (r : Request)
    → IsQuietFor loud P
    → loud r ≡ false
    → Keeps P (ask host r)
unfolding ask
Keeps-ask host r q e = Keeps-bind (perform host r) _ (Keeps-perform host r q e) (λ a. Keeps-pure tt)

pub Keeps-when :
    {P : History → Type 0} (b : Bool) (m : Io (Unit {0})) → Keeps P m → Keeps P (when b m)
unfolding when
Keeps-when true m k = k
Keeps-when false m k = Keeps-pure tt

pub Keeps-lift : {A : Type 0} {P : History → Type 0} (r : Result A) → Keeps P (lift r)
unfolding lift
Keeps-lift r = record { at = λ h p. p }

pub ruleset keeps_rules = (
  Keeps-pure, Keeps-raise, Keeps-or_raise, Keeps-if, Keeps-on_option, Keeps-except, Keeps-assert,
  Keeps-bind, Keeps-then, Keeps-perform, Keeps-ask, Keeps-when, Keeps-lift,
)
