-- ===== src/Operations/Resolver.antt =====
-- railone_operations/endpoints.py: `InMemoryAccountEndpointResolver`.
use railone_core.Prelude.{String, ◌||◌, Result, value_error, lookup_error, or_raise}
use railone_core.Prelude.Equality.{pair_eq}
use railone_core.Prelude.Text.{strip, is_empty}
use railone_core.Prelude.Dict.{Dict, lookup, insert}
use railone_core.Prelude.Exec.{Exec, reads, raise_when, modify, ok_if_free, ◌>>◌}

pub record EndpointReferences : Type 0 where
  pub references : Dict (String × String) String

unfoldable pub register : String → String → String → Exec EndpointReferences (Unit {0})
unfolding strip
register institution_id account_binding_id provider_reference = do
  raise_when
      (is_empty (strip institution_id)
        || is_empty (strip account_binding_id)
        || is_empty (strip provider_reference))
      (value_error "endpoint resolution values are required")
  reads (λ s.
      ok_if_free (lookup (institution_id, account_binding_id) s.references)
        (value_error "endpoint resolution already exists"))
  modify (λ s. record {
    references = insert (institution_id, account_binding_id) provider_reference s.references;
  })

unfoldable pub resolve : String → String → EndpointReferences → Result String
resolve institution_id account_binding_id s =
    or_raise (lookup (institution_id, account_binding_id) s.references)
      (lookup_error "provider endpoint is not resolvable")
