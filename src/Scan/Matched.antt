-- ===== src/Scan/Matched.antt =====
-- scripts/scan_candidates.py: what a match rests on.
use atlasmirror.Prelude.{
  Text, Bool, true, false, ◌&&◌, ◌≡◌, refl, arith, none, some, List, [], ◌∷◌, subst, Bool-cases,
  inl, inr,
}
use atlasmirror.Outcome.{Result, ok, err, json_error}
use atlasmirror.Strings.{strip}
use atlasmirror.Json.{loads}
use atlasmirror.Host.{
  Host, Request, Answer, History, Completed, work_file, wsl, compute_id, exists, store, http_get,
  perform,
}
use atlasmirror.Host.Keeps.{Keeps, Keeps-bind, Keeps-pure, Keeps-on_option, Keeps-if}
use atlasmirror.Host.Since.{Since}
use atlasmirror.Host.Triples.{
  Triple, After, Triple-bind, Triple-Keeps, Triple-perform, Triple-pure, Triple-or_raise, Triple-to,
  Triple-from, Triple-if,
}
use atlasmirror.Scan.{
  Program, authenticated_transfer, token, pinata, programs, cached_name, artifact_url, is_target,
  is_bracketed, get_image_id, download, in_cache, check_program, check_programs, check_ref,
}

abbrev Always : History → Type 0
Always h = Unit

-- The image ID of the program's cached file was computed, and it is the known one.
pub record Computed (ref : Text) (p : Program) (h : History) : Type 0 where
  pub run : Completed
  pub happened : Since (wsl (compute_id (cached_name ref p.name)), run) Always h
  pub bracketed : is_bracketed (strip run.stdout) ≡ true
  pub same : is_target (loads (strip run.stdout)) p.target ≡ true

-- for each program of a list
AllComputed : Text → List Program → History → Type 0
AllComputed ref [] h = Unit
AllComputed ref (p ∷ ps) h = Computed ref p h × AllComputed ref ps h

-- What stays when more happens.
record IsLasting (D : History → Type 0) : Type 0 where
  at : (r : Request) (a : Answer r) (h : History) → D h → D ((r, a) ∷ h)

Computed-IsLasting : (ref : Text) (p : Program) → IsLasting (Computed ref p)
Computed-IsLasting ref p = record {
  at = λ r a h c. record {
    run = c.run;
    happened = Since.later (r, a) h c.happened;
    bracketed = c.bracketed;
    same = c.same;
  };
}

module _ (host : Host) (D : History → Type 0) (lasts : IsLasting D) where
  perform-Lasting : (r : Request) → Keeps D (perform host r)
  unfolding perform
  perform-Lasting r = record { at = λ h d. lasts.at r (host.answer r h) h d }

  in_cache-Lasting : (ref prog : Text) → Keeps D (in_cache host ref prog)
  unfolding in_cache download
  in_cache-Lasting ref prog =
      Keeps-bind _ _ (perform-Lasting (exists (work_file (cached_name ref prog)))) λ there.
        Keeps-if there _ _ (Keeps-pure true) (
          Keeps-bind _ _ (perform-Lasting (http_get (artifact_url ref prog))) λ got.
            Keeps-on_option got _ _ (Keeps-pure false)
              (λ bytes. perform-Lasting (store (work_file (cached_name ref prog)) bytes)))

  -- the outcome of one program
  abbrev Matched : Text → Program → Bool → History → Type 0
  Matched ref p matched h = D h × (matched ≡ true → Computed ref p h)

  get_image_id-Triple :
      (ref : Text) (p : Program)
      → Triple D
          (get_image_id host (cached_name ref p.name))
          (λ id. Matched ref p (is_target id p.target))
          Always
  unfolding get_image_id is_target
  get_image_id-Triple ref p =
      Triple-bind
        (Triple-perform host (wsl (compute_id (cached_name ref p.name)))
          {Q = λ r h. D h × Since (wsl (compute_id (cached_name ref p.name)), r) Always h}
          (λ a h d. (lasts.at _ a h d, Since.now h tt)))
        λ r. elim (Bool-cases (is_bracketed (strip r.stdout))) [
          | inl y ↦ rw y (
              Triple-bind (Triple-or_raise json_error (loads (strip r.stdout)) (λ h p. tt)) λ id.
                Triple-pure (some id) λ h (e, (d, s)).
                  (d, λ same. record { run = r; happened = s; bracketed = y; same = rw e same }))
          | inr k ↦ rw k (Triple-pure none (λ h (d, s). (d, λ e. cc)))
        ]

  check_program-Triple :
      (ref : Text) (p : Program)
      → Triple D (check_program host ref p) (λ matched. Matched ref p matched) Always
  unfolding check_program
  check_program-Triple ref p =
      Triple-bind (Triple-Keeps (in_cache-Lasting ref p.name) (λ h d. tt)) λ ready.
        Triple-if ready _ _
          (Triple-bind (get_image_id-Triple ref p) (λ id. Triple-pure _ (λ h m. m)))
          (Triple-pure false (λ h d. (d, λ e. cc)))

module _ (host : Host) (ref : Text) where
  check_programs-Triple :
      (ps : List Program) (D : History → Type 0)
      → IsLasting D
      → (matched_all : Bool)
      → Triple
          (λ h. matched_all ≡ true → D h)
          (check_programs host ref ps matched_all)
          (λ b h. b ≡ true → D h × AllComputed ref ps h)
          Always
  unfolding check_programs AllComputed
  check_programs-Triple [] D lasts matched_all = Triple-pure matched_all (λ h k e. (k e, tt))
  check_programs-Triple (p ∷ ps) D lasts matched_all =
      Triple-bind
        (check_program-Triple host (λ h. matched_all ≡ true → D h)
          (record { at = λ r a h k e. lasts.at r a h (k e) }) ref p)
        λ matched.
          Triple-to (λ b h k e. let ((d, c), rest) = k e in (d, (c, rest)))
            (Triple-from (λ h (k, c) e. (k (ground (arith, e)), c (ground (arith, e))))
              (check_programs-Triple ps (λ h. D h × Computed ref p h)
                (record {
                  at = λ r a h (d, c). (lasts.at r a h d, (Computed-IsLasting ref p).at r a h c);
                })
                (matched_all && matched)))

  check_ref-Triple :
      Triple Always (check_ref host ref) (λ b h. b ≡ true → AllComputed ref programs h) Always
  unfolding check_ref
  check_ref-Triple =
      Triple-to (λ b h k e. let (u, all) = k e in all)
        (Triple-from (λ h u e. tt)
          (check_programs-Triple programs Always (record { at = λ r a h u. tt }) true))

returned :
    {A : Type 0} (r : Result A) (h : History) (a : A) (Q : A → History → Type 0)
    → After Q Always (r, h)
    → r ≡ ok a
    → Q a h
returned (ok b) h a Q q e = subst (λ x. Q x h) (ground (arith, e)) q
returned (err b) h a Q q e = cc

-- Where check_ref returns True, the image IDs of all three cached programs were computed, and they are
-- the known ones, whatever else the world answers.
pub check_ref-Computed :
    (host : Host) (ref : Text) (h : History)
    → (check_ref host ref h).0 ≡ ok true
    → Computed ref authenticated_transfer (check_ref host ref h).1
      × Computed ref token (check_ref host ref h).1
      × Computed ref pinata (check_ref host ref h).1
unfolding AllComputed
check_ref-Computed host ref h e =
    let (r, h') = check_ref host ref h in
    let (a, (t, (p, u))) =
      returned r h' true (λ b h. b ≡ true → AllComputed ref programs h)
        ((check_ref-Triple host ref).at h tt) e refl in
    (a, t, p)
