-- ===== src/Identity/Digests.antt =====
-- Texts of digests, as railone_identity/continuity.py writes them: `bytes.hex` and `base64.b32encode`
-- without its padding. A byte is its value.
use Prim.Native.String.{◌++◌ as append}
use railone_core.Prelude.{ℕ, zero, suc, ◌+◌, ◌*◌, ◌/◌, ◌%◌, String, List, [], ◌∷◌}
use railone_core.Crypto.Canonical.{digit}

unfoldable pub hex : List ℕ → String
hex [] = ""
hex (b ∷ bs) =
    append (digit "0123456789abcdef" (b / 16)) (append (digit "0123456789abcdef" (b % 16)) (hex bs))

-- So many digits of five bits, the last one first.
unfoldable pub base32_digits : ℕ → ℕ → String → String
base32_digits zero n rest = rest
base32_digits (suc k) n rest =
    base32_digits k (n / 32) (append (digit "ABCDEFGHIJKLMNOPQRSTUVWXYZ234567" (n % 32)) rest)

-- Five bytes are eight digits; fewer are filled with zeros to a whole digit.
unfoldable pub base32 : List ℕ → String
unfolding base32_digits
base32 [] = ""
base32 (a ∷ []) = base32_digits 2 (a * 4) ""
base32 (a ∷ b ∷ []) = base32_digits 4 ((a * 256 + b) * 16) ""
base32 (a ∷ b ∷ c ∷ []) = base32_digits 5 (((a * 256 + b) * 256 + c) * 2) ""
base32 (a ∷ b ∷ c ∷ d ∷ []) = base32_digits 7 ((((a * 256 + b) * 256 + c) * 256 + d) * 8) ""
base32 (a ∷ b ∷ c ∷ d ∷ e ∷ rest) =
    append (base32_digits 8 ((((a * 256 + b) * 256 + c) * 256 + d) * 256 + e) "") (base32 rest)
