-- ===== src/Host/Costs.antt =====
-- How many requests an action makes at most, one rule for each way to build it.
use atlasmirror.Prelude.{
  ℕ, ◌+◌, ◌≤◌, Bool, true, false, Option, none, some, length, arith, if◌then◌else◌,
}
use atlasmirror.Outcome.{Error, Result, ok, err}
use atlasmirror.Host.{
  Host, Request, History, Io, pure, raise, or_raise, rescue, except, assert, lift, on_option, when,
  ask, continue, ◌>>=◌, ◌>>◌, perform,
}

pub record Costs {A : Type 0} (n : ℕ) (m : Io A) : Type 0 where
  pub at : (h : History) → length (m h).1 ≤ length h + n

pub Costs-perform : (host : Host) (r : Request) → Costs 1 (perform host r)
unfolding perform
Costs-perform host r = record { at = λ h. omega arith }

module _ {A : Type 0} where
  pub Costs-pure : (a : A) → Costs 0 (pure a)
  unfolding pure
  Costs-pure a = record { at = λ h. omega arith }

  pub Costs-raise : (e : Error) → Costs 0 (raise {A = A} e)
  unfolding raise
  Costs-raise e = record { at = λ h. omega arith }

  pub Costs-or_raise : (e : Error) (o : Option A) → Costs 0 (or_raise e o)
  unfolding or_raise
  Costs-or_raise e none = record { at = λ h. omega arith }
  Costs-or_raise e (some a) = record { at = λ h. omega arith }

  pub Costs-lift : (r : Result A) → Costs 0 (lift r)
  unfolding lift
  Costs-lift r = record { at = λ h. omega arith }

  pub Costs-if :
      {a b : ℕ} (t : Bool) {m n : Io A} → Costs a m → Costs b n → Costs (a + b) (if t then m else n)
  Costs-if true km kn = record { at = λ h. omega (arith, km.at h) }
  Costs-if false km kn = record { at = λ h. omega (arith, kn.at h) }

  pub Costs-le : {a b : ℕ} {m : Io A} → a ≤ b → Costs a m → Costs b m
  Costs-le e k = record { at = λ h. omega (arith, e, k.at h) }

  rescue-Costs :
      (n : ℕ) (other : Io A) (r : Result A) (h : History)
      → Costs n other
      → length (rescue other r h).1 ≤ length h + n
  unfolding rescue
  rescue-Costs n other (ok a) h k = omega arith
  rescue-Costs n other (err (Error.exit i)) h k = omega arith
  rescue-Costs n other (err e) h k = k.at h

  pub Costs-except :
      {a b : ℕ} {m other : Io A} → Costs a m → Costs b other → Costs (a + b) (except m other)
  unfolding except
  Costs-except {b = b} {m = m} {other = other} km ko = record {
    at = λ h. let (r, h') = m h in omega (arith, km.at h, rescue-Costs b other r h' ko);
  }

pub Costs-on_option :
    {A C : Type 0} {a b : ℕ} (o : Option C) {m : Io A} {f : C → Io A}
    → Costs a m
    → ((c : C) → Costs b (f c))
    → Costs (a + b) (on_option o m f)
unfolding on_option
Costs-on_option none km kf = Costs-le (omega arith) km
Costs-on_option (some c) km kf = Costs-le (omega arith) (kf c)

pub Costs-assert : (b : Bool) → Costs 0 (assert b)
unfolding assert
Costs-assert true = record { at = λ h. omega arith }
Costs-assert false = record { at = λ h. omega arith }

module _ {A B : Type 0} where
  continue-Costs :
      (n : ℕ) (r : Result A) (f : A → Io B) (h : History)
      → ((a : A) → Costs n (f a))
      → length (continue r f h).1 ≤ length h + n
  continue-Costs n (ok a) f h k = (k a).at h
  continue-Costs n (err e) f h k = omega arith

  pub Costs-bind :
      {a b : ℕ} {m : Io A} {f : A → Io B}
      → Costs a m
      → ((x : A) → Costs b (f x))
      → Costs (a + b) (m >>= f)
  unfolding ◌>>=◌
  Costs-bind {b = b} {m = m} {f = f} km kf = record {
    at = λ h. let (r, h') = m h in omega (arith, km.at h, continue-Costs b r f h' kf);
  }

  infixr 5 ◌⊕◌
  pub ◌⊕◌ : {a b : ℕ} {m : Io A} {n : Io B} → Costs a m → Costs b n → Costs (a + b) (m >> n)
  km ⊕ kn = Costs-bind km (λ x. kn)

pub Costs-ask : (host : Host) (r : Request) → Costs 1 (ask host r)
unfolding ask
Costs-ask host r = Costs-perform host r ⊕ Costs-pure tt

pub Costs-when : {a : ℕ} (b : Bool) {m : Io (Unit {0})} → Costs a m → Costs a (when b m)
unfolding when
Costs-when true k = k
Costs-when false k = Costs-le (omega arith) (Costs-pure tt)
