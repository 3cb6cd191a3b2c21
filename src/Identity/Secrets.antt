-- ===== src/Identity/Secrets.antt =====
-- `InMemoryContinuitySecretProvider` of railone_identity/continuity.py.
use Prim.Native.String.{◌++◌ as append}
use railone_core.Prelude.{
  ℕ, String, List, Result, ok, value_error, key_error, raise_if, or_raise, and_then, length, ltb,
}
use railone_core.Prelude.Equality.{string_eq}
use railone_core.Prelude.Dict.{Dict, lookup, insert}
use railone_core.Prelude.Exec.{Exec, ok_if_free, lift, reads, modify, ◌>>◌}

-- `InMemoryContinuitySecretProvider`; a secret is its bytes, and HMAC is an argument.
unfoldable pub register_secret : String → List ℕ → Exec (Dict String (List ℕ)) (Unit {0})
register_secret key_id secret = do
  lift (
      raise_if (ltb (length secret) 32)
        (value_error "continuity secret must contain at least 32 bytes"))
  reads
      (λ s. ok_if_free (lookup key_id s) (value_error (append "duplicate continuity key: " key_id)))
  modify (insert key_id secret)

unfoldable pub derive_from :
    (List ℕ → String → List ℕ) → Dict String (List ℕ) → String → String → Result (List ℕ)
derive_from hmac secrets key_id message =
    and_then
      (or_raise (lookup key_id secrets) (key_error (append "continuity key not found: " key_id)))
      λ secret. ok (hmac secret message)
