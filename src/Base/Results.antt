-- ===== src/Base/Results.antt =====
-- Python's exceptions as values. The texts of the messages are not modelled: an error is the
-- exception's class.
use mathlib.Core.Path.{◌≡◌, refl}
use mathlib.Core.Bool.{Bool, true, false}
use mathlib.Core.Option.{Option, none, some}

pub data Error : Type 0 where
  value_error key_error type_error os_error http_error : Error
  provenance_error gate_error gate_not_configured quarantine_error : Error
  forge_error source_config_error : Error
  store_error check_violation unique_violation foreign_key_violation : Error
  publication_error key_material_error : Error
  update_error redirect_refused unknown_target dist_error : Error
  delegation_missing form_error json_decode_error unicode_error runtime_error assertion_error :
      Error

pub data Result {ℓ} (A : Type ℓ) : Type ℓ where
  err : Error → Result A
  ok : A → Result A

module _ {ℓ κ} {A : Type ℓ} {B : Type κ} where
  infixl 5 ◌>>=◌ ◌>>◌
  -- An exception passes over what follows.
  abbrev pub ◌>>=◌ : Result A → (A → Result B) → Result B
  err e >>= next = err e
  ok a >>= next = next a

  -- A bind that succeeds did so in both its parts.
  pub >>=-eq-ok :
      (r : Result A) (next : A → Result B) {b : B}
      → (r >>= next) ≡ ok b
      → (a : A) × (r ≡ ok a) × (next a ≡ ok b)
  >>=-eq-ok (err e) next returned = cc
  >>=-eq-ok (ok a) next returned = (a, refl, returned)

  abbrev pub ◌>>◌ : Result A → Result B → Result B
  first >> second = first >>= λ _. second

-- `x if x is not None else raise e`
abbrev pub from_option {ℓ} : {A : Type ℓ} → Option A → Error → Result A
from_option none e = err e
from_option (some a) e = ok a

-- `if not test: raise e`
abbrev pub require : Bool → Error → Result (Unit {0})
require false e = err e
require true e = ok tt

pub require-eq-ok {ℓ} :
    {B : Type ℓ} (test : Bool) (e : Error) (rest : Result B) {b : B}
    → (require test e >> rest) ≡ ok b
    → (test ≡ true) × (rest ≡ ok b)
require-eq-ok false e rest returned = cc
require-eq-ok true e rest returned = (refl, returned)
