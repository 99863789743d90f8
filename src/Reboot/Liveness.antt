-- ===== src/Reboot/Liveness.antt =====
-- scripts/verify_reboot_survival.py: a VPS that comes back is noticed.
use atlasmirror.Prelude.{
  ℕ, zero, suc, ◌+◌, ◌≤◌, ◌<◌, Bool, true, false, ◌≡◌, refl, arith, Bool-cases, inl, inr, some, ◌∷◌,
  length, keep,
}
use atlasmirror.Outcome.{ok}
use atlasmirror.Host.{
  Host, Request, History, Completed, vps, uptime, reboot, sleep_ms, perform, ask, Io, pure, assert,
  or_raise, ◌>>=◌,
}
use atlasmirror.Reboot.Node.{is_up, call, wait_vps, reboot_vps}

abbrev is_poll : Request → Bool
is_poll (vps uptime) = true
is_poll _ = false

-- how often the history asks for the uptime
abbrev pub polls : History → ℕ
polls h = length (keep (λ e. is_poll e.0) h)

-- From the `k`-th poll on, the VPS answers.
pub record IsBack (host : Host) (k : ℕ) : Type 0 where
  pub at : (h : History) → k ≤ polls h → is_up (host.answer (vps uptime) h) ≡ true

module _ (host : Host) (k : ℕ) (back : IsBack host k) where
  wait_vps_returns :
      (n : ℕ) (h : History) → polls h ≤ k → k < polls h + n → (wait_vps host n h).0 ≡ ok true
  unfolding wait_vps perform ask pure ◌>>=◌
  wait_vps_returns zero h l e = absurd (omega (arith, l, e))
  wait_vps_returns (suc n) h l e = elim (Bool-cases (is_up (host.answer (vps uptime) h))) [
    | inl y ↦ rw y refl
    | inr no_answer ↦
        rw no_answer
          (wait_vps_returns n _ (ground (arith, l, no_answer, back.at h)) (omega (arith, e)))
  ]

bind-ok :
    {A B : Type 0} (m : Io A) (f : A → Io B) (h : History) {a : A}
    → (m h).0 ≡ ok a
    → (m >>= f) h ≡ f a (m h).1
unfolding ◌>>=◌
bind-ok m f h e = rw e refl

-- If the VPS takes the reboot command and answers from some poll below the 60th on, the reboot step
-- returns.
pub reboot_vps_returns :
    (host : Host) (k : ℕ) (r : Completed) (h : History)
    → host.answer (vps reboot) h ≡ some r
    → k < 60
    → IsBack host (polls h + k)
    → (reboot_vps host h).0 ≡ ok tt
unfolding reboot_vps call perform ask pure ◌>>=◌ or_raise assert
reboot_vps_returns host k r h taken soon back =
    let started : History =
      (sleep_ms 15000, host.answer (sleep_ms 15000) ((vps reboot, some r) ∷ h))
      ∷ (vps reboot, some r)
      ∷ h in
    let answered =
      wait_vps_returns host (polls h + k) back 60 started (omega arith) (omega (arith, soon)) in
    rw taken (rw (bind-ok (wait_vps host 60) (λ b. assert b) started answered) refl)
