-- ===== src/Henan/Stages.antt =====
-- scripts/verify_henan_e2e.py: what each stage establishes.
use atlasmirror.Prelude.{refl}
use atlasmirror.Outcome.{http_error}
use atlasmirror.Host.{Host, http_get}
use atlasmirror.Host.Since.{Since}
use atlasmirror.Host.Triples.{
  Triple, Triple-bind, Triple-perform, Triple-or_raise, Triple-lift, Triple-to,
}
use atlasmirror.Steps.Backing.{Honest, Holds}
use atlasmirror.Henan.Upload.{md5_url, published_md5, fetch_published}
use atlasmirror.Henan.Backed.{Published, Backed, henan_calm}

module _ (host : Host) where
  pub fetch_published-Triple :
      Triple
        (Honest (Backed host))
        (fetch_published host)
        (λ md5. Holds (Backed host) (Published md5))
        (Honest (Backed host))
  unfolding fetch_published Holds Published
  fetch_published-Triple =
      Triple-bind
        (Triple-perform host (http_get md5_url)
          {Q = λ found h. Since (http_get md5_url, found) (λ h. Unit) h × Honest (Backed host) h}
          (λ a h g. (Since.now h tt, Honest.step _ a h (Backed.quiet _ h refl) g)))
        λ found. Triple-bind (Triple-or_raise http_error found (λ h p. p.1)) λ bytes.
          Triple-to (λ md5 h (e, (there, (s, g))). ((bytes, e, rw there at s), g))
            (Triple-lift (published_md5 bytes) (λ h p. p.1.1))
