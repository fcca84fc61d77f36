-- ===== src/Discovery.antt =====
-- integration/discovery/schema_learner.py: SchemaLearner and AutoConnectManager.
-- What pandas says of a column is a record. A method that the class does not have is an argument that
-- is `none`. The connectors are parameters.
pub mod Fields
pub mod Endpoints
mod Examples
use qervan_ai.Common.{
  ℕ, zero, suc, Bool, true, false, String, List, [], ◌∷◌, ◌++◌, Option, none, some, Result, ok, err,
  ◌>>=◌, Dict, lookup, insert, if◌then◌else◌, ltb, not,
}

pub data DiscoveryError : Type 0 where
  value_error attribute_error validation_error type_error provider_error : DiscoveryError

pub record DataSourceConfig : Type 0 where
  pub endpoint : String
  pub protocol : String
  pub auth_type : String
  pub sampling_size : ℕ
  pub timeout : ℕ
  pub verify_ssl : Bool

-- numpy's types of a column, with all others as one.
pub data Dtype : Type 0 where
  int64 float64 object_dtype datetime64_ns other_datetime other_number other_dtype : Dtype

-- self._type_map.get(dtype, 'unknown')
abbrev pub type_name : Dtype → String
type_name int64 = "integer"
type_name float64 = "double"
type_name object_dtype = "string"
type_name datetime64_ns = "timestamp"
type_name _ = "unknown"

-- np.issubdtype(dtype, np.number)
abbrev pub is_number : Dtype → Bool
is_number int64 = true
is_number float64 = true
is_number other_number = true
is_number _ = false

-- A column: of a number column also its extremes; `is_text` and `parses` say what pandas finds of a text column.
pub record Column (F : Type 0) : Type 0 where
  pub name : String
  pub dtype : Dtype
  pub unique : ℕ
  pub nulls : ℕ
  pub least : F
  pub greatest : F
  pub frequency : Dict ℕ
  pub is_text : Bool
  pub parses : Bool

-- A value of `stats`.
pub data Stat (F : Type 0) : Type 0 where
  count : ℕ → Stat F
  number : F → Stat F
  missing : Stat F
  dictionary : Dict ℕ → Stat F

pub record SchemaField (F : Type 0) : Type 0 where
  pub field_name : String
  pub inferred_type : String
  pub nullable : Bool
  pub stats : Dict (Stat F)
  pub source : String

module _ {F : Type 0} where
  -- Union[int, float, str]
  abbrev pub is_stat : Stat F → Bool
  is_stat (count n) = true
  is_stat (number v) = true
  is_stat missing = false
  is_stat (dictionary d) = false

  abbrev pub stats_ok : Dict (Stat F) → Bool
  stats_ok [] = true
  stats_ok ((k, v) ∷ stats) = if is_stat v then stats_ok stats else false

  -- SchemaField(...)
  unfoldable pub new_field : SchemaField F → Result DiscoveryError (SchemaField F)
  new_field f = if stats_ok f.stats then ok f else err validation_error

  abbrev pub extreme : Column F → F → Stat F
  extreme c v = if is_number c.dtype then number v else missing

  -- The turn of _infer_pandas_schema for a column.
  unfoldable pub field_of : (endpoint : String) → Column F → SchemaField F
  field_of endpoint c = record {
    field_name = c.name;
    inferred_type = type_name c.dtype;
    nullable = ltb 0 c.nulls;
    stats =
        ("unique", count c.unique)
        ∷ ("nulls", count c.nulls)
        ∷ ("min", extreme c c.least)
        ∷ ("max", extreme c c.greatest)
        ∷ ("frequency", dictionary c.frequency)
        ∷ [];
    source = endpoint;
  }

  unfoldable pub infer_pandas_schema :
      (endpoint : String) → List (Column F) → Result DiscoveryError (List (SchemaField F))
  unfolding new_field field_of
  infer_pandas_schema endpoint [] = ok []
  infer_pandas_schema endpoint (c ∷ columns) = do
    field ← new_field (field_of endpoint c)
    schema ← infer_pandas_schema endpoint columns
    ok (field ∷ schema)

  -- _handle_time_series
  unfoldable pub handle_time_series : List (Column F) → List String
  handle_time_series [] = []
  handle_time_series (c ∷ columns) =
      let rest = handle_time_series columns in
      elim c.dtype [
        | datetime64_ns ↦ c.name ∷ rest
        | other_datetime ↦ c.name ∷ rest
        | _ ↦ if c.is_text then if c.parses then c.name ∷ rest else rest else rest
      ]

-- JSON values, as Python reads them.
mutual
  pub data Json : Type 0 where
    scalar : Json
    object : Members → Json
    array : Elements → Json

  pub data Members : Type 0 where
    no_members : Members
    member : String → Json → Members → Members

  pub data Elements : Type 0 where
    no_elements : Elements
    item : Json → Elements → Elements

-- isinstance(value, dict), or a list that begins with one
abbrev pub is_nested : Json → Bool
is_nested scalar = false
is_nested (object m) = true
is_nested (array no_elements) = false
is_nested (array (item (object m) items)) = true
is_nested (array (item scalar items)) = false
is_nested (array (item (array inner) items)) = false

unfoldable pub detect_nested_structures : Members → List String
detect_nested_structures no_members = []
detect_nested_structures (member key v more_members) =
    let rest = detect_nested_structures more_members in if is_nested v then key ∷ rest else rest

-- What infer_schema is given.
pub data Source (F D : Type 0) : Type 0 where
  pandas_frame : List (Column F) → Source F D
  spark_frame : D → Source F D
  json_object : Members → Source F D
  unsupported : Source F D

-- The two methods are none in the class.
unfoldable pub infer_schema :
    {F D : Type 0} (infer_spark : Option (D → Result DiscoveryError (List (SchemaField F))))
    (infer_json : Option (Members → Result DiscoveryError (List (SchemaField F))))
    → (endpoint : String) → Source F D
    → Result DiscoveryError (List (SchemaField F))
unfolding infer_pandas_schema
infer_schema infer_spark infer_json endpoint (pandas_frame columns) =
    infer_pandas_schema endpoint columns
infer_schema none infer_json endpoint (spark_frame d) = err attribute_error
infer_schema (some infer) infer_json endpoint (spark_frame d) = infer d
infer_schema infer_spark none endpoint (json_object m) = err attribute_error
infer_schema infer_spark (some infer) endpoint (json_object m) = infer m
infer_schema infer_spark infer_json endpoint unsupported = err value_error

-- SchemaLearner: its configuration and connectors.
abbrev pub Connector : Type 0 → Type 0
Connector A = Unit {0} → Result DiscoveryError A

pub record SchemaLearner (A : Type 0) : Type 0 where
  pub config : DataSourceConfig
  pub connectors : Dict (Connector A)

-- __init__ reads five methods; the last three are none in the class.
unfoldable pub new_learner :
    {A : Type 0} (rest sql : Connector A) (mongodb kafka s3 : Option (Connector A))
    → DataSourceConfig
    → Result DiscoveryError (SchemaLearner A)
new_learner rest sql none kafka s3 config = err attribute_error
new_learner rest sql (some mongodb) none s3 config = err attribute_error
new_learner rest sql (some mongodb) (some kafka) none config = err attribute_error
new_learner rest sql (some mongodb) (some kafka) (some s3) config = ok (record {
  config = config;
  connectors =
      ("rest", rest) ∷ ("sql", sql) ∷ ("mongodb", mongodb) ∷ ("kafka", kafka) ∷ ("s3", s3) ∷ [];
})

unfoldable pub auto_connect : {A : Type 0} → SchemaLearner A → Result DiscoveryError A
unfolding lookup
auto_connect learner = elim (lookup learner.connectors learner.config.protocol) [
  | none ↦ err value_error
  | some connector ↦ connector tt
]
