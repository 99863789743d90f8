-- ===== src/Reboot/Stages.antt =====
-- scripts/verify_reboot_survival.py: what each stage adds to the story.
use atlasmirror.Prelude.{
  ℕ, zero, suc, codes, Bool, true, false, ◌&&◌, ◌==◌, ◌≡◌, refl, Option, none, some, List, [], ◌∷◌,
  arith, Bool-cases, inl, inr, if◌then◌else◌,
}
use atlasmirror.Strings.{includes, strip}
use atlasmirror.Host.{
  Host, Request, Completed, History, Vps, vps, auth_check, write_init, make_executable, write_unit,
  stop_unit, kill_logos, clear_state, daemon_reload, enable_unit, restart_unit, unit_status,
  peer_id, node_spr, held_manifests, reboot, uptime, is_active, listening, perform, or_raise, raise,
  pure, sleep_ms, Io, ◌>>◌,
}
use atlasmirror.Host.Keeps.{
  is_log, Keeps, keeps_rules, Keeps-bind, Keeps-or_raise, Keeps-if, Keeps-pure, Keeps-raise,
  Keeps-ask, Keeps-except, Keeps-lift,
}
use atlasmirror.Host.Triples.{
  Triple, Triple-bind, Triple-Keeps, Triple-perform, Triple-assert, Triple-from, Triple-pure,
  Triple-raise, Triple-to,
}
use atlasmirror.Outcome.{timeout_expired}
use atlasmirror.Reboot.Node.{
  call, run_ssh, check_auth, deploy, check_node, wait_vps, reboot_vps, check_service, is_up,
  expected_cid, value_in,
}
use atlasmirror.Reboot.Quiet.{run_ssh-Keeps}
use atlasmirror.Reboot.Story.{
  Milestone, unit_enabled, unit_started, cid_held, rebooted, came_back, unit_active, port_open,
  has_rebooted, services, Proven, At, At-IsQuiet, Latest, latest, Latest-At, Latest-reach, succeeds,
  and_false,
}

up_succeeds : (a : Option Completed) → is_up a ≡ true → succeeds (λ out. true) a ≡ true
up_succeeds none e = e
up_succeeds (some r) e = ground (arith, e)

pub both : {a b : Bool} → a ≡ true → b ≡ true → (a && b) ≡ true
both e f = ground (arith, e, f)

infixr 5 ◌▹◌
pub ◌▹◌ :
    {host : Host} {ms : List Milestone} {A B : Type 0} {m : Io A} {n : Io B}
    {Q : B → History → Type 0}
    → Keeps (At host ms) m
    → Triple (At host ms) n Q (Proven host)
    → Triple (At host ms) (m >> n) Q (Proven host)
k ▹ t = Triple-bind (Triple-Keeps k (λ h p. p.1)) (λ a. t)

module _ (host : Host) where
  module _ (ms : List Milestone) where
    pub perform-Latest :
        (r : Request)
        → (has_rebooted ms && services r) ≡ false
        → is_log r ≡ false
        → Triple (At host ms) (perform host r) (λ a. Latest host ms r a) (Proven host)
    perform-Latest r calm e = Triple-perform host r (λ a h p. latest r a h calm e p)

    perform-At :
        (r : Request)
        → (has_rebooted ms && services r) ≡ false
        → is_log r ≡ false
        → Keeps (At host ms) (perform host r)
    unfolding perform
    perform-At r calm e = record { at = λ h p. Latest-At host (latest r _ h calm e p) }

    call-Latest :
        (c : Vps)
        → (has_rebooted ms && services (vps c)) ≡ false
        → Triple (At host ms) (call host c) (λ r. Latest host ms (vps c) (some r)) (Proven host)
    unfolding call or_raise raise pure
    call-Latest c calm = Triple-bind (perform-Latest (vps c) calm refl) λ a. answered a
      where
        answered :
            (a : Option Completed)
            → Triple
                (Latest host ms (vps c) a)
                (or_raise timeout_expired a)
                (λ r. Latest host ms (vps c) (some r))
                (Proven host)
        answered none = Triple-raise _ (λ h p. (Latest-At host p).1)
        answered (some r) = Triple-pure r (λ h p. p)

    run_ssh-Latest :
        (c : Vps)
        → (has_rebooted ms && services (vps c)) ≡ false
        → Triple
            (At host ms)
            (run_ssh host c)
            (λ r h. ((r.returncode == 0) ≡ true) × Latest host ms (vps c) (some r) h)
            (Proven host)
    unfolding run_ssh
    run_ssh-Latest c calm = Triple-bind (call-Latest c calm) λ r.
        elim (Bool-cases (r.returncode == 0)) [
          | inl y ↦ rw y (Triple-pure r (λ h p. (y, p)))
          | inr n ↦ rw n (Triple-raise _ (λ h p. (Latest-At host p).1))
        ]

    command-Keeps :
        (c : Vps) → (has_rebooted ms && services (vps c)) ≡ false → Keeps (At host ms) (call host c)
    unfolding call
    command-Keeps c calm = Keeps-bind _ _ (perform-At (vps c) calm refl) (λ a. Keeps-or_raise _ a)

    run-Keeps :
        (c : Vps)
        → (has_rebooted ms && services (vps c)) ≡ false
        → Keeps (At host ms) (run_ssh host c)
    unfolding run_ssh
    run-Keeps c calm =
        Keeps-bind _ _ (command-Keeps c calm) λ r. Keeps-if _ _ _ (Keeps-pure r) (Keeps-raise _)

    pub proven : (h : History) → At host ms h → Proven host h
    proven h p = p.1

    pub check_node-Triple :
        Triple (At host ms) (check_node host) (λ v. At host (cid_held ∷ ms)) (Proven host)
    unfolding check_node
    check_node-Triple =
        let q = At-IsQuiet host ms in
        Triple-bind (Triple-Keeps (run_ssh-Keeps host q peer_id refl) proven) λ p.
          Triple-bind (Triple-Keeps (Keeps-lift (value_in p.stdout)) proven) λ peer.
            Triple-bind (Triple-Keeps (run_ssh-Keeps host q node_spr refl) proven) λ s.
              Triple-bind (Triple-Keeps (Keeps-lift (value_in s.stdout)) proven) λ spr.
                Triple-bind (run_ssh-Latest held_manifests (and_false (has_rebooted ms))) λ m.
                  Triple-bind
                    (Triple-assert (includes expected_cid m.stdout)
                      (λ h (y, p). (Latest-At host p).1))
                    λ u.
                      Triple-pure (peer, spr)
                        (λ h (t, (y, p)). Latest-reach host cid_held (both y t) p)

    wait_vps-Triple :
        (n : ℕ)
        → Triple
            (At host ms)
            (wait_vps host n)
            (λ b. At host (if b then came_back ∷ ms else ms))
            (Proven host)
    unfolding wait_vps
    wait_vps-Triple zero = Triple-pure false (λ h p. p)
    wait_vps-Triple (suc n) =
        let q = At-IsQuiet host ms in
        Triple-bind (perform-Latest (vps uptime) (and_false (has_rebooted ms)) refl) λ r.
          elim (Bool-cases (is_up r)) [
            | inl y ↦
                rw y (Triple-pure true (λ h p. Latest-reach host came_back (up_succeeds r y) p))
            | inr n' ↦ rw n' (
                Triple-from (λ h p. Latest-At host p)
                  (Triple-bind (Triple-Keeps (search keeps_rules) proven) λ u. wait_vps-Triple n))
          ]

  pub check_auth-Keeps : Keeps (At host []) (check_auth host)
  unfolding check_auth
  check_auth-Keeps =
      Keeps-except _ _
        (Keeps-bind _ _ (command-Keeps [] auth_check refl)
          λ r. Keeps-if _ _ _ (Keeps-raise _) (Keeps-pure tt))
        (Keeps-raise _)

  pub deploy-Triple :
      Triple
        (At host [])
        (deploy host)
        (λ u. At host (unit_started ∷ unit_enabled ∷ []))
        (Proven host)
  unfolding deploy
  deploy-Triple =
      let q = At-IsQuiet host [] in
      let q' = At-IsQuiet host (unit_started ∷ unit_enabled ∷ []) in
      run-Keeps [] write_init refl
      ▹ run-Keeps [] make_executable refl
      ▹ run-Keeps [] write_unit refl
      ▹ command-Keeps [] stop_unit refl
      ▹ command-Keeps [] kill_logos refl
      ▹ command-Keeps [] clear_state refl
      ▹ Keeps-ask host (sleep_ms 2000) q refl
      ▹ run-Keeps [] daemon_reload refl
      ▹ Triple-bind (run_ssh-Latest [] enable_unit refl) λ r.
        Triple-from (λ h (y, p). Latest-reach host unit_enabled (ground (arith, y)) p)
          (Triple-bind (run_ssh-Latest (unit_enabled ∷ []) restart_unit refl) λ r.
            Triple-from (λ h (y, p). Latest-reach host unit_started (ground (arith, y)) p)
              (Keeps-ask host (sleep_ms 5000) q' refl
                ▹ run_ssh-Keeps host q' unit_status refl
                ▹ Triple-pure tt (λ h p. p)))

  recovered :
      (ms : List Milestone) (b : Bool) (h : History)
      → (b ≡ true) × At host (if b then came_back ∷ ms else ms) h
      → At host (came_back ∷ ms) h
  recovered ms true h (e, p) = p
  recovered ms false h (e, p) = cc

  pub reboot_vps-Triple :
      (ms : List Milestone)
      → Triple
          (At host ms)
          (reboot_vps host)
          (λ u. At host (came_back ∷ rebooted ∷ ms))
          (Proven host)
  unfolding reboot_vps
  reboot_vps-Triple ms = Triple-bind (call-Latest ms reboot (and_false (has_rebooted ms))) λ r.
      Triple-from (λ h p. Latest-reach host rebooted refl p)
        (Keeps-ask host (sleep_ms 15000) (At-IsQuiet host (rebooted ∷ ms)) refl
          ▹ Triple-bind (wait_vps-Triple (rebooted ∷ ms) 60) λ b.
            Triple-to (λ u h p. recovered (rebooted ∷ ms) b h p) (Triple-assert b (λ h p. p.1)))

  module _ (ms : List Milestone) where
    pub check_service-Triple :
        Triple
          (At host ms)
          (check_service host)
          (λ u. At host (port_open ∷ unit_active ∷ ms))
          (Proven host)
    unfolding check_service
    check_service-Triple =
        Keeps-ask host (sleep_ms 6000) (At-IsQuiet host ms) refl
        ▹ Triple-bind (run_ssh-Latest ms is_active (and_false (has_rebooted ms))) λ s.
          Triple-bind
            (Triple-assert (includes (codes "active") (strip s.stdout))
              (λ h (y, p). (Latest-At host p).1))
            λ u.
              Triple-from (λ h (t, (y, p)). Latest-reach host unit_active (both y t) p)
                (Triple-bind
                  (run_ssh-Latest (unit_active ∷ ms) listening (and_false (has_rebooted ms)))
                  λ r.
                    Triple-to (λ u h (t, (y, p)). Latest-reach host port_open (both y t) p)
                      (Triple-assert (includes (codes "8070") r.stdout)
                        (λ h (y, p). (Latest-At host p).1)))
