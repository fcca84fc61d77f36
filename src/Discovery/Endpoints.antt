-- ===== src/Discovery/Endpoints.antt =====
-- integration/discovery/schema_learner.py: AutoConnectManager, and what discover_endpoints returns.
use qervan_ai.Common.{
  List, [], ◌∷◌, ◌++◌, Option, none, some, Result, ok, err, ◌≡◌, refl, sym, ◌∙◌, ap,
}
use mathlib.Core.List.{append_assoc, append-nil}
use qervan_ai.Discovery.{DataSourceConfig, DiscoveryError, type_error, attribute_error}

-- A provider of AutoConnectManager: it raises, or returns None or a list.
abbrev pub Provider : Type 0
Provider = Result DiscoveryError (Option (List DataSourceConfig))

-- endpoints += provider(): None raises TypeError.
abbrev pub extend : List DataSourceConfig → Provider → Result DiscoveryError (List DataSourceConfig)
extend endpoints (err e) = err e
extend endpoints (ok none) = err type_error
extend endpoints (ok (some found)) = ok (endpoints ++ found)

-- The loop of discover_endpoints: a provider that fails is passed over.
unfoldable pub discover_from : List DataSourceConfig → List Provider → List DataSourceConfig
discover_from endpoints [] = endpoints
discover_from endpoints (provider ∷ providers) = elim (extend endpoints provider) [
  | err e ↦ discover_from endpoints providers
  | ok extended ↦ discover_from extended providers
]

-- AutoConnectManager() and discover_endpoints: the first two providers have no body, and the third is none in
-- the class.
unfoldable pub discover_endpoints :
    (dns_sd : Option Provider) → Result DiscoveryError (List DataSourceConfig)
unfolding discover_from
discover_endpoints none = err attribute_error
discover_endpoints (some dns_sd) = ok (discover_from [] (ok none ∷ ok none ∷ dns_sd ∷ []))

-- What the providers that return a list have found, in order.
abbrev pub found : List Provider → List DataSourceConfig
found [] = []
found (err e ∷ providers) = found providers
found (ok none ∷ providers) = found providers
found (ok (some endpoints) ∷ providers) = endpoints ++ found providers

discover_from-found :
    (endpoints : List DataSourceConfig) (providers : List Provider)
    → discover_from endpoints providers ≡ endpoints ++ found providers
unfolding discover_from
discover_from-found endpoints [] = sym (append-nil endpoints)
discover_from-found endpoints (err e ∷ providers) = discover_from-found endpoints providers
discover_from-found endpoints (ok none ∷ providers) = discover_from-found endpoints providers
discover_from-found endpoints (ok (some more) ∷ providers) =
    discover_from-found (endpoints ++ more) providers
    ∙ append_assoc endpoints more (found providers)

-- discover_endpoints raises AttributeError without the third provider, and with it returns what that one finds:
-- nothing where it raises or returns None.
pub discover_endpoints_found :
    (dns_sd : Provider)
    → (discover_endpoints none ≡ err attribute_error)
      × (discover_endpoints (some dns_sd) ≡ ok (found (dns_sd ∷ [])))
unfolding discover_endpoints
discover_endpoints_found dns_sd =
    (refl, ap ok (discover_from-found [] (ok none ∷ ok none ∷ dns_sd ∷ [])))
