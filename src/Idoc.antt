-- ===== src/Idoc.antt =====
-- integration/adapters/sap/idoc_adapter.py: IDocAdapter.
-- The XML parser, the digests and HTTP are parameters. A method or setting that the class does not have
-- is an argument that is `none`.
pub mod Duplicates
pub mod Mapping
pub mod Process
pub mod Dispatch
mod Examples
use qervan_ai.Common.Xml.{
  Element, Elements, tag_of, content_of, attrib_of, inner, children_list, below,
}
use qervan_ai.Common.{
  ℕ, zero, suc, ◌+◌, Bool, true, false, not, ◌&&◌, ◌||◌, ◌≡◌, String, List, [], ◌∷◌, ◌++◌, Option,
  none, some, Result, ok, err, ◌>>=◌, Text, text_eq, contains_text, length, leb, ltb, ◌==◌,
  if◌then◌else◌,
}

pub data IdocError : Type 0 where
  value_error : (message : String) → IdocError
  attribute_error key_error name_error type_error index_error retry_error http_error
        environment_error :
      IdocError

-- '{http://sap.com/xi/IDoc}'
abbrev pub namespace : Text
namespace =
    123 ∷ 104 ∷ 116 ∷ 116 ∷ 112 ∷ 58 ∷ 47 ∷ 47 ∷ 115 ∷ 97 ∷ 112 ∷ 46 ∷ 99 ∷ 111 ∷ 109 ∷ 47 ∷ 120
    ∷ 105 ∷ 47 ∷ 73 ∷ 68 ∷ 111 ∷ 99 ∷ 125 ∷ []

abbrev pub idoc_name : Text
idoc_name = 73 ∷ 68 ∷ 79 ∷ 67 ∷ []

abbrev pub edi_dc40 : Text
edi_dc40 = 69 ∷ 68 ∷ 73 ∷ 95 ∷ 68 ∷ 67 ∷ 52 ∷ 48 ∷ []

abbrev pub docnum : Text
docnum = 68 ∷ 79 ∷ 67 ∷ 78 ∷ 85 ∷ 77 ∷ []

abbrev pub sndpor : Text
sndpor = 83 ∷ 78 ∷ 68 ∷ 80 ∷ 79 ∷ 82 ∷ []

abbrev pub rcvpor : Text
rcvpor = 82 ∷ 67 ∷ 86 ∷ 80 ∷ 79 ∷ 82 ∷ []

abbrev pub schema_version : Text
schema_version = 83 ∷ 99 ∷ 104 ∷ 101 ∷ 109 ∷ 97 ∷ 86 ∷ 101 ∷ 114 ∷ 115 ∷ 105 ∷ 111 ∷ 110 ∷ []

abbrev pub error_name : Text
error_name = 101 ∷ 114 ∷ 114 ∷ 111 ∷ 114 ∷ []

abbrev pub children_of : List Element → List Element
children_of [] = []
children_of (e ∷ es) = inner e ++ children_of es

abbrev with_tag : Text → List Element → List Element
with_tag tag [] = []
with_tag tag (e ∷ es) = if text_eq (tag_of e) tag then e ∷ with_tag tag es else with_tag tag es

-- findall of a path of names in the namespace, from some elements.
abbrev pub find_all : List Text → List Element → List Element
find_all [] es = es
find_all (name ∷ names) es = find_all names (with_tag (namespace ++ name) (children_of es))

-- findtext: the text of the first match, '' where it has none, None where there is no match.
unfoldable pub find_text : List Text → Element → Option Text
find_text path root = elim (find_all path (root ∷ [])) [
  | [] ↦ none
  | e ∷ es ↦ elim (content_of e) [ none ↦ some [] | some t ↦ some t ]
]

-- tag.split('}')[1]
abbrev until_brace : Text → Text
until_brace [] = []
until_brace (c ∷ cs) = if c == 125 then [] else c ∷ until_brace cs

unfoldable pub local_name : Text → Result IdocError Text
local_name [] = err index_error
local_name (c ∷ cs) = if c == 125 then ok (until_brace cs) else local_name cs

abbrev is_prefix : Text → Text → Bool
is_prefix [] t = true
is_prefix (c ∷ cs) [] = false
is_prefix (c ∷ cs) (d ∷ ds) = c == d && is_prefix cs ds

-- part in whole, for texts
abbrev pub is_within : Text → Text → Bool
is_within part [] = is_prefix part []
is_within part (c ∷ cs) = is_prefix part (c ∷ cs) || is_within part cs

abbrev pub Fields : Type 0
Fields = List (Text × Option Text)

unfoldable pub set_field : Fields → Text → Option Text → Fields
set_field [] k v = (k, v) ∷ []
set_field ((j, w) ∷ fields) k v =
    if text_eq j k then (k, v) ∷ fields else (j, w) ∷ set_field fields k v

-- fields.get(k): a missing field and one without text both give None.
unfoldable pub get_field : Fields → Text → Option Text
get_field [] k = none
get_field ((j, v) ∷ fields) k = if text_eq j k then v else get_field fields k

pub record Segment : Type 0 where
  pub segment : Text
  pub fields : Fields

pub record Control : Type 0 where
  pub message_id : Option Text
  pub sender : Option Text
  pub receiver : Option Text
  pub timestamp : Text

unfoldable pub extract_control_segment : Text → Element → Control
unfolding find_text
extract_control_segment now root = record {
  message_id = find_text (idoc_name ∷ edi_dc40 ∷ docnum ∷ []) root;
  sender = find_text (idoc_name ∷ edi_dc40 ∷ sndpor ∷ []) root;
  receiver = find_text (idoc_name ∷ edi_dc40 ∷ rcvpor ∷ []) root;
  timestamp = now;
}

unfoldable pub collect_fields : List Element → Fields → Result IdocError Fields
unfolding local_name set_field
collect_fields [] fields = ok fields
collect_fields (e ∷ es) fields =
    local_name (tag_of e) >>= λ name. collect_fields es (set_field fields name (content_of e))

unfoldable pub extract_data_segments : List Element → Result IdocError (List Segment)
unfolding collect_fields local_name
extract_data_segments [] = ok []
extract_data_segments (e ∷ es) =
    let rest = extract_data_segments es in
    if is_within edi_dc40 (tag_of e) then rest else (do
      name ← local_name (tag_of e)
      fields ← collect_fields (below e) []
      segments ← rest
      ok (record { segment = name; fields = fields } ∷ segments))

abbrev pub lookup_attrib : List (Text × Text) → Text → Option Text
lookup_attrib [] k = none
lookup_attrib ((j, v) ∷ attribs) k = if text_eq j k then some v else lookup_attrib attribs k

-- '3.0' and '4.0'
unfoldable pub validate_schema : Element → Result IdocError (Unit {0})
validate_schema root = elim (lookup_attrib (attrib_of root) schema_version) [
  | none ↦ err (value_error "Unsupported IDoc schema version")
  | some v ↦
      if contains_text ((51 ∷ 46 ∷ 48 ∷ []) ∷ (52 ∷ 46 ∷ 48 ∷ []) ∷ []) v
      then ok tt
      else err (value_error "Unsupported IDoc schema version")
]

-- f"{seg['segment']}-{seg['fields'].get('DOCNUM')}"
unfoldable pub seg_id : Segment → Text
unfolding get_field
seg_id seg =
    seg.segment
    ++ 45 ∷ elim (get_field seg.fields docnum) [ none ↦ 78 ∷ 111 ∷ 110 ∷ 101 ∷ [] | some t ↦ t ]

unfoldable pub check_loop : List Text → List Segment → Result IdocError (Unit {0})
check_loop seen [] = ok tt
check_loop seen (seg ∷ segments) =
    let rest = check_loop (seg_id seg ∷ seen) segments in
    if contains_text seen (seg_id seg) then err (value_error "Duplicate segment detected") else rest

unfoldable pub check_duplicates : List Segment → Result IdocError (Unit {0})
unfolding check_loop
check_duplicates segments = check_loop [] segments

pub record Parsed : Type 0 where
  pub control : Control
  pub data_segments : List Segment
  pub checksum : Text

-- What the adapter uses of libraries and of its environment; `validate_signature` is missing in the
-- class (_load_mappings has no body).
pub record Environment : Type 0 where
  pub fromstring : Text → Option Element
  pub checksum_of : Text → Text
  pub now : Text
  pub validate_signature : Option (Text → Result IdocError (Unit {0}))

-- The body of _parse_idoc.
unfoldable pub parse_once : Environment → Text → Result IdocError Parsed
unfolding extract_control_segment extract_data_segments validate_schema check_duplicates
parse_once env idoc_content = elim (env.fromstring idoc_content) [
  | none ↦ err (value_error "Malformed IDoc XML structure")
  | some root ↦ (do
    let control = extract_control_segment env.now root
    segments ← extract_data_segments (children_of (find_all (idoc_name ∷ []) (root ∷ [])))
    _ ← validate_schema root
    _ ← check_duplicates segments
    ok (record {
      control = control;
      data_segments = segments;
      checksum = env.checksum_of idoc_content;
    }))
]

-- Five attempts of the same body, which has no state; then RetryError.
unfoldable pub retry : ℕ → Result IdocError Parsed → Result IdocError Parsed
retry zero body = err retry_error
retry (suc left) (ok parsed) = ok parsed
retry (suc left) (err e) = retry left (err e)

unfoldable pub parse_idoc : Environment → Text → Result IdocError Parsed
unfolding retry parse_once
parse_idoc env idoc_content = retry 5 (parse_once env idoc_content)
