-- ===== src/Host/Triples.antt =====
-- Conditions before and after an action, over the history.
use atlasmirror.Prelude.{Bool, true, false, ◌≡◌, refl, Option, none, some, ◌∷◌, if◌then◌else◌}
use atlasmirror.Outcome.{Error, Result, ok, err}
use atlasmirror.Host.{
  Host, Request, Answer, History, Io, pure, raise, on_option, lift, or_raise, assert, perform,
  continue, ◌>>=◌,
}
use atlasmirror.Host.Keeps.{Keeps}

-- `Q` after a value, `R` after an exception
abbrev pub After :
    {A : Type 0} → (A → History → Type 0) → (History → Type 0) → Result A × History → Type 0
After Q R (ok a, h) = Q a h
After Q R (err e, h) = R h

pub record Triple {A : Type 0} (P : History → Type 0) (m : Io A) (Q : A → History → Type 0)
    (R : History → Type 0) : Type 0 where
  pub at : (h : History) → P h → After Q R (m h)

module _ {A B : Type 0} {R : History → Type 0} {Q : A → History → Type 0}
    {S : B → History → Type 0} where
  continue-After :
      (r : Result A) (h : History) (f : A → Io B)
      → After Q R (r, h)
      → ((a : A) → Triple (Q a) (f a) S R)
      → After S R (continue r f h)
  continue-After (ok a) h f q k = (k a).at h q
  continue-After (err e) h f q k = q

  pub Triple-bind :
      {P : History → Type 0} {m : Io A} {f : A → Io B}
      → Triple P m Q R
      → ((a : A) → Triple (Q a) (f a) S R)
      → Triple P (m >>= f) S R
  unfolding ◌>>=◌
  Triple-bind {m = m} {f = f} km kf = record {
    at = λ h p. let (r, h') = m h in continue-After r h' f (km.at h p) kf;
  }

module _ {A : Type 0} {P R : History → Type 0} where
  After-kept :
      (r : Result A) (h : History) → ((h : History) → P h → R h) → P h → After (λ a. P) R (r, h)
  After-kept (ok a) h weaken p = p
  After-kept (err e) h weaken p = weaken h p

  -- An action that keeps `P` ends in `P`.
  pub Triple-Keeps : {m : Io A} → Keeps P m → ((h : History) → P h → R h) → Triple P m (λ a. P) R
  Triple-Keeps {m = m} k weaken = record {
    at = λ h p. let (r, h') = m h in After-kept r h' weaken (k.at h p);
  }

  pub Triple-or_raise :
      (e : Error) (o : Option A)
      → ((h : History) → P h → R h)
      → Triple P (or_raise e o) (λ a h. (o ≡ some a) × P h) R
  unfolding or_raise
  Triple-or_raise e none weaken = record { at = λ h p. weaken h p }
  Triple-or_raise e (some a) weaken = record { at = λ h p. (refl, p) }

  pub Triple-lift :
      (r : Result A) → ((h : History) → P h → R h) → Triple P (lift r) (λ a h. (r ≡ ok a) × P h) R
  unfolding lift
  Triple-lift (ok a) weaken = record { at = λ h p. (refl, p) }
  Triple-lift (err e) weaken = record { at = λ h p. weaken h p }

module _ {P R : History → Type 0} where
  pub Triple-assert :
      (b : Bool) → ((h : History) → P h → R h) → Triple P (assert b) (λ a h. (b ≡ true) × P h) R
  unfolding assert
  Triple-assert true weaken = record { at = λ h p. (refl, p) }
  Triple-assert false weaken = record { at = λ h p. weaken h p }

module _ {A : Type 0} {R : History → Type 0} {Q : A → History → Type 0} where
  After-ends :
      (r : Result A) (h : History) → ((a : A) (h : History) → Q a h → R h) → After Q R (r, h) → R h
  After-ends (ok a) h weaken q = weaken a h q
  After-ends (err e) h weaken q = q

  -- What holds after each outcome holds at the end.
  pub ends :
      {P : History → Type 0} {m : Io A}
      → Triple P m Q R
      → ((a : A) (h : History) → Q a h → R h)
      → (h : History) → P h
      → R (m h).1
  ends {m = m} k weaken h p = let (r, h') = m h in After-ends r h' weaken (k.at h p)

  pub Triple-pure :
      {P : History → Type 0} (a : A) → ((h : History) → P h → Q a h) → Triple P (pure a) Q R
  unfolding pure
  Triple-pure a k = record { at = λ h p. k h p }

  pub Triple-raise :
      {P : History → Type 0} (e : Error) → ((h : History) → P h → R h) → Triple P (raise e) Q R
  unfolding raise
  Triple-raise e k = record { at = λ h p. k h p }

  pub Triple-from :
      {P P' : History → Type 0} {m : Io A}
      → ((h : History) → P h → P' h)
      → Triple P' m Q R
      → Triple P m Q R
  Triple-from weaken k = record { at = λ h p. k.at h (weaken h p) }

  pub Triple-if :
      {P : History → Type 0} (b : Bool) (m n : Io A)
      → Triple P m Q R
      → Triple P n Q R
      → Triple P (if b then m else n) Q R
  Triple-if true m n km kn = km
  Triple-if false m n km kn = kn

  pub Triple-on_option :
      {B : Type 0} {P : History → Type 0} (o : Option B) (m : Io A) (f : B → Io A)
      → Triple P m Q R
      → ((b : B) → Triple P (f b) Q R)
      → Triple P (on_option o m f) Q R
  unfolding on_option
  Triple-on_option none m f km kf = km
  Triple-on_option (some b) m f km kf = kf b

module _ {A : Type 0} {Q Q' : A → History → Type 0} where
  After-to :
      (R : History → Type 0) (r : Result A) (h : History)
      → ((a : A) (h : History) → Q a h → Q' a h)
      → After Q R (r, h)
      → After Q' R (r, h)
  After-to R (ok a) h weaken q = weaken a h q
  After-to R (err e) h weaken q = q

  pub Triple-to :
      {P R : History → Type 0} {m : Io A}
      → ((a : A) (h : History) → Q a h → Q' a h)
      → Triple P m Q R
      → Triple P m Q' R
  Triple-to {R = R} {m = m} weaken k = record {
    at = λ h p. let (r, h') = m h in After-to R r h' weaken (k.at h p);
  }

-- A condition that does not speak of the history is a hypothesis.
pub Triple-given :
    {A C : Type 0} {P R : History → Type 0} {Q : A → History → Type 0} {m : Io A}
    → (C → Triple P m Q R)
    → Triple (λ h. C × P h) m Q R
Triple-given k = record { at = λ h (c, p). (k c).at h p }

-- What does not speak of the history is kept by every action.
pub Triple-const : {A C : Type 0} (m : Io A) → Triple (λ h. C) m (λ a h. C) (λ h. Unit)
Triple-const m = Triple-Keeps (record { at = λ h c. c }) (λ h c. tt)

-- A request, and what is known with its answer in the history.
pub Triple-perform :
    {P R : History → Type 0} (host : Host) (r : Request) {Q : Answer r → History → Type 0}
    → ((a : Answer r) (h : History) → P h → Q a ((r, a) ∷ h))
    → Triple P (perform host r) Q R
unfolding perform
Triple-perform host r step = record { at = λ h p. step (host.answer r h) h p }

-- The same, where it matters what the world answers.
pub Triple-answer :
    {P R : History → Type 0} (host : Host) (r : Request) {Q : Answer r → History → Type 0}
    → ((h : History) → P h → Q (host.answer r h) ((r, host.answer r h) ∷ h))
    → Triple P (perform host r) Q R
unfolding perform
Triple-answer host r step = record { at = λ h p. step h p }
