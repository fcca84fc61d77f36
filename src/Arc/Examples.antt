-- ===== src/Arc/Examples.antt =====
-- Tests and witnesses on one cluster of a toy subscription.
use qervan_ai.Common.{
  sym, subst, ℕ, [], ◌∷◌, Memᴰ, none, some, Result, ok, err, ◌≡◌, refl, Text, codes,
}
use qervan_ai.Arc.Deploy.{secure_only, enforce_policy}
use qervan_ai.Arc.{
  ArcError, Azure, Resource, Parameters, QueryData, Settings, Run, rows, table, text_cell,
  run_query, get_resource, update_resource, apply_tags, properties_of, connect_cluster, query_of,
  parse_rg, parse_name, split, value_error, key_error, index_error, name_error,
}
use qervan_ai.Arc.Ids.{cluster_id, parse-cluster_id}
use qervan_ai.Arc.Tags.{connect_cluster-updates, Retagged}

abbrev prod : Text
prod = cluster_id (codes "s-1") (codes "rg") (codes "nuzon-prod")

abbrev stored : Resource ℕ
stored = record {
  id = prod;
  location = some (codes "westeurope");
  tags = (codes "owner", codes "ops") ∷ [];
  properties = 42;
  kind = some (codes "ProvisionedCluster");
  managed_by = none;
  plan = none;
  sku = none;
  identity = some 7;
  extended_location = none;
}

abbrev azure_of : QueryData → Azure ℕ
azure_of answer = record {
  resources = λ query. ok answer;
  get_by_id = λ id. ok stored;
  update_by_id = λ id r. ok tt;
  create = λ e. ok 0;
}

abbrev azure : Azure ℕ
azure = azure_of (rows (some (text_cell (codes "{}")) ∷ []))

abbrev new_tags : Settings
new_tags = (codes "environment", codes "prod") ∷ []

abbrev written : Parameters ℕ
written = record { location = some (codes "westeurope"); tags = new_tags; properties = 42 }

abbrev loads : Text → Result ArcError ℕ
loads t = ok 5

abbrev connected : Run ℕ ℕ
connected =
    (ok 5, run_query (query_of prod) ∷ get_resource prod ∷ update_resource prod written ∷ [])

-- The tag `owner` is lost, and the kind and the identity are not written.
tags_replaced : connect_cluster azure loads prod new_tags ≡ connected
unfolding connect_cluster apply_tags properties_of parse_rg split
tags_replaced = refl

abbrev refused : ArcError → Text → Run ℕ ℕ
refused e id = (err e, run_query (query_of id) ∷ [])

absent_cluster : connect_cluster (azure_of (rows [])) loads prod new_tags ≡ refused value_error prod
unfolding connect_cluster properties_of
absent_cluster = refl

-- The query asks for a table, which has no entry 0.
table_answer : connect_cluster (azure_of table) loads prod new_tags ≡ refused key_error prod
unfolding connect_cluster properties_of
table_answer = refl

short_id :
    connect_cluster azure loads (codes "nuzon-prod") new_tags
    ≡ refused index_error (codes "nuzon-prod")
unfolding connect_cluster apply_tags properties_of parse_rg split
short_id = refl

-- The setting without the prefix is not deployed.
abbrev two_settings : Settings
two_settings = (codes "secure.api_key", codes "k") ∷ (codes "audit.level", codes "verbose") ∷ []

abbrev one_setting : Settings
one_setting = (codes "secure.api_key", codes "k") ∷ []

setting_dropped : secure_only two_settings ≡ one_setting
setting_dropped = refl

no_policy_client : enforce_policy {V = ℕ} none prod [] ≡ (err name_error, [])
unfolding enforce_policy
no_policy_client = refl

parse-cluster_id_example :
    (parse_rg prod ≡ ok (codes "rg")) × (parse_name prod ≡ codes "nuzon-prod")
parse-cluster_id_example =
    parse-cluster_id (codes "s-1") (codes "rg") (codes "nuzon-prod") refl refl refl

connect_cluster-updates_example :
    Retagged azure prod new_tags prod written
    × ((found : QueryData) × (cluster_data : ℕ) × (azure.resources (query_of prod) ≡ ok found)
        × (properties_of loads found ≡ ok cluster_data))
connect_cluster-updates_example = connect_cluster-updates azure loads prod new_tags prod written (
    subst (λ (o : Run ℕ ℕ). Memᴰ (update_resource prod written) o.1) (sym tags_replaced)
      (Memᴰ.tail (Memᴰ.tail (Memᴰ.head refl))))
