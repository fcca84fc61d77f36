-- ===== src/Arc.antt =====
-- services/multi_cloud_mesh/service_sync/azure_arc.py: AzureArcController.
-- The Azure SDK and the services behind it are parameters. An operation returns its outcome with the calls
-- that it has made, in order: a call is in the list also where the service refuses it.
pub mod Ids
pub mod Tags
pub mod Deploy
mod Examples
use qervan_ai.Common.{
  ℕ, Bool, true, false, List, [], ◌∷◌, ◌++◌, Option, none, some, Result, ok, err, if◌then◌else◌,
  ◌==◌, ◌&&◌, Text, codes, text_eq, get_elem?,
}

pub data ArcError : Type 0 where
  value_error key_error index_error type_error name_error json_decode azure_error : ArcError

-- str.split(sep)
abbrev pub onto_first : ℕ → List Text → List Text
onto_first c [] = (c ∷ []) ∷ []
onto_first c (part ∷ parts) = (c ∷ part) ∷ parts

unfoldable pub split : ℕ → Text → List Text
split sep [] = [] ∷ []
split sep (c ∷ cs) = let rest = split sep cs in if c == sep then [] ∷ rest else onto_first c rest

-- parts[-1], of a list that is not empty
abbrev pub last_of : List Text → Text
last_of [] = []
last_of (part ∷ []) = part
last_of (part ∷ next ∷ parts) = last_of (next ∷ parts)

unfoldable pub parse_rg : Text → Result ArcError Text
unfolding split
parse_rg resource_id = elim (get_elem? (split b'/' resource_id) 4) [
  | none ↦ err index_error
  | some part ↦ ok part
]

unfoldable pub parse_name : Text → Text
unfolding split
parse_name resource_id = last_of (split b'/' resource_id)

-- text.startswith(prefix)
abbrev pub starts_with : Text → Text → Bool
starts_with [] t = true
starts_with (p ∷ ps) [] = false
starts_with (p ∷ ps) (c ∷ cs) = p == c && starts_with ps cs

abbrev pub Settings : Type 0
Settings = List (Text × Text)

-- GenericResource, as get_by_id gives it.
pub record Resource (V : Type 0) : Type 0 where
  pub id : Text
  pub location : Option Text
  pub tags : Settings
  pub properties : V
  pub kind : Option Text
  pub managed_by : Option Text
  pub plan : Option V
  pub sku : Option V
  pub identity : Option V
  pub extended_location : Option V

-- The dictionary `parameters` of a write: it has these three keys.
pub record Parameters (V : Type 0) : Type 0 where
  pub location : Option Text
  pub tags : Settings
  pub properties : V

-- A cell of a row: a text, or a value that is no text.
pub data Cell : Type 0 where
  text_cell : Text → Cell
  other_cell : Cell

-- response.data: rows, of which the field `properties` is read; or a table, which is a dictionary.
pub data QueryData : Type 0 where
  rows : List (Option Cell) → QueryData
  table : QueryData

pub record HelmChart : Type 0 where
  pub repo : Option Text
  pub version : Option Text
  -- json.dumps of `values`, or of an empty dictionary
  pub chart_values : Text

pub record Extension : Type 0 where
  pub resource_group : Text
  pub cluster_name : Text
  pub extension_name : Text
  pub instance_name : Text
  pub repository_url : Text
  pub chart_version : Text
  pub values_text : Text
  pub protected_settings : Settings

pub data Call (V : Type 0) : Type 0 where
  run_query : Text → Call V
  get_resource : Text → Call V
  update_resource : Text → Parameters V → Call V
  create_extension : Extension → Call V
  create_assignment : (scope assignment_name policy_definition_id : Text) → Call V

pub record Policy : Type 0 where
  pub name : Option Text
  pub id : Option Text

pub record Azure (V : Type 0) : Type 0 where
  pub resources : Text → Result ArcError QueryData
  pub get_by_id : Text → Result ArcError (Resource V)
  pub update_by_id : Text → Parameters V → Result ArcError (Unit {0})
  pub create : Extension → Result ArcError V

-- An operation's outcome, and its calls.
abbrev pub Run : Type 0 → Type 0 → Type 0
Run V A = Result ArcError A × List (Call V)

abbrev pub query_of : Text → Text
query_of cluster_resource_id =
    codes
      "\n        Resources\n        | where type =~ 'Microsoft.Kubernetes/connectedClusters'\n        | where id == '"
    ++ (cluster_resource_id ++ codes "'\n        | project name, location, properties\n        ")

-- response.data[0]["properties"] and json.loads, which refuses a value that is no text.
unfoldable pub properties_of :
    {J : Type 0} → (loads : Text → Result ArcError J) → QueryData → Result ArcError J
properties_of loads table = err key_error
properties_of loads (rows []) = err value_error
properties_of loads (rows (none ∷ cells)) = err key_error
properties_of loads (rows (some other_cell ∷ cells)) = err type_error
properties_of loads (rows (some (text_cell t) ∷ cells)) = loads t

module _ {V : Type 0} (azure : Azure V) where
  unfoldable pub apply_tags : (resource_id : Text) → Settings → Run V (Unit {0})
  unfolding parse_rg
  apply_tags resource_id tags = elim (parse_rg resource_id) [
    | err e ↦ (err e, [])
    | ok resource_group ↦ elim (azure.get_by_id resource_id) [
      | err e ↦ (err e, get_resource resource_id ∷ [])
      | ok resource ↦
          let updated : Parameters V = record {
            location = resource.location;
            tags = tags;
            properties = resource.properties;
          } in
          (
            azure.update_by_id resource_id updated,
            get_resource resource_id ∷ update_resource resource_id updated ∷ [],
          )
    ]
  ]

  unfoldable pub connect_cluster :
      {J : Type 0}
      → (loads : Text → Result ArcError J) → (cluster_resource_id : Text) → Settings
      → Run V J
  unfolding apply_tags properties_of
  connect_cluster loads cluster_resource_id tags =
      let query = query_of cluster_resource_id in
      elim (azure.resources query) [
        | err e ↦ (err e, run_query query ∷ [])
        | ok found ↦ elim (properties_of loads found) [
          | err e ↦ (err e, run_query query ∷ [])
          | ok cluster_data ↦
              let (outcome, calls) = apply_tags cluster_resource_id tags in
              (elim outcome [ err e ↦ err e | ok _ ↦ ok cluster_data ], run_query query ∷ calls)
        ]
      ]
