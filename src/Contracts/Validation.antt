-- ===== src/Contracts/Validation.antt =====
-- The validation of inputs in railone_contracts/models.py.
use Prim.Native.String.{◌++◌ as append}
use railone_core.Prelude.{
  ℕ, String, Bool, true, false, Result, ok, err, value_error, if◌then◌else◌, ltb,
}
use railone_core.Prelude.Int.{ℤ, pos, negsuc}
use railone_core.Prelude.Text.{strip, is_empty}

-- `require_text`: the stripped text, which must not be empty.
unfoldable pub require_text : String → String → Result String
unfolding strip
require_text name value =
    let stripped = strip value in
    if is_empty stripped then err (value_error (append name " is required")) else ok stripped

-- `require_minor_units`: what passes is not negative, and not zero unless `allow_zero`.
unfoldable pub require_minor_units : String → ℤ → Bool → Result ℕ
require_minor_units name (negsuc n) true = err (value_error (append name " must be non-negative"))
require_minor_units name (negsuc n) false = err (value_error (append name " must be positive"))
require_minor_units name (pos n) true = ok n
require_minor_units name (pos n) false =
    if ltb n 1 then err (value_error (append name " must be positive")) else ok n
