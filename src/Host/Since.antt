-- ===== src/Host/Since.antt =====
-- What held when an event happened.
use atlasmirror.Prelude.{◌∷◌}
use atlasmirror.Host.{Event, History}

-- The event happened, and `C` held of the history before it.
pub data Since (e : Event) (C : History → Type 0) : History → Type 0 where
  now : (h : History) → C h → Since e C (e ∷ h)
  later : (d : Event) (h : History) → Since e C h → Since e C (d ∷ h)
