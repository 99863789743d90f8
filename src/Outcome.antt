-- ===== src/Outcome.antt =====
-- What a Python function comes back with: a value, a raised exception or an exit of the process.
use atlasmirror.Prelude.{ℕ, ◌≡◌, refl}

-- Exceptions by class; `exit` is `sys.exit(code)`.
pub data Error : Type 0 where
  struct_error index_error unicode_error value_error key_error : Error
  assertion_error runtime_error json_error http_error type_error io_error zero_division_error
        timeout_expired :
      Error
  exit : ℕ → Error

pub data Result {ℓ} (Value : Type ℓ) : Type ℓ where
  ok : Value → Result Value
  err : Error → Result Value

module _ {ℓ κ} {V : Type ℓ} {W : Type κ} where
  infixl 5 ◌>>=◌
  abbrev pub ◌>>=◌ : Result V → (V → Result W) → Result W
  ok v >>= next = next v
  err e >>= next = err e

  -- A bind that gives a value ran both of its parts.
  pub >>=-ok :
      (m : Result V) (next : V → Result W) {w : W}
      → (m >>= next) ≡ ok w
      → (v : V) × (m ≡ ok v) × (next v ≡ ok w)
  >>=-ok (ok v) next h = (v, refl, h)
  >>=-ok (err e) next h = cc
