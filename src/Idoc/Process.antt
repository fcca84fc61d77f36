-- ===== src/Idoc/Process.antt =====
-- integration/adapters/sap/idoc_adapter.py: process_idoc around the parsing.
pub mod Parses
pub mod Stages
use qervan_ai.Common.{
  codes, List, [], ◌∷◌, Option, none, some, Result, ok, err, ◌>>=◌, Text, text_eq, if◌then◌else◌,
}
use qervan_ai.Idoc.Mapping.{Mapping, apply_mapping_template}
use qervan_ai.Idoc.{
  Fields, IdocError, key_error, attribute_error, type_error, Environment, Control, Segment, Parsed,
  parse_idoc, error_name,
}

-- The only method named _handle_… is _handle_error, which gives None: update(None) raises TypeError. The metadata of
-- the result are the control data, and there is nothing else in it.
unfoldable pub normalize_data : Control → List Segment → Result IdocError Control
normalize_data metadata [] = ok metadata
normalize_data metadata (seg ∷ segments) =
    let rest = normalize_data metadata segments in
    if text_eq seg.segment error_name then err type_error else rest

-- The control data as the dictionary that they are.
unfoldable pub control_get : Control → Text → Option (Option Text)
control_get metadata key =
    if text_eq key (codes "message_id")
    then some metadata.message_id
    else if text_eq key (codes "sender")
    then some metadata.sender
    else if text_eq key (codes "receiver")
    then some metadata.receiver
    else if text_eq key (codes "timestamp")
    then some (some metadata.timestamp)
    else none

abbrev pub Template : Type 0
Template = List (Text × Mapping)

unfoldable pub find_template : List (Text × Template) → Text → Option Template
find_template [] key = none
find_template ((name, template) ∷ mappings) key =
    if text_eq name key then some template else find_template mappings key

-- mappings.get(key, default), of a key that may be None
unfoldable pub template_or : List (Text × Template) → Option Text → Template → Template
unfolding find_template
template_or mappings none default = default
template_or mappings (some key) default = elim (find_template mappings key) [
  | none ↦ default
  | some template ↦ template
]

-- The mappings are `none` for None, which has no `get`. Of the normalized data, `fields` are those that are texts or
-- None: the entry `metadata`, a dictionary, is not among them.
unfoldable pub transform_to_edi :
    (edi_mappings : Option (List (Text × Template)))
    → Control
    → Fields
    → Result IdocError (List (Text × Option Text))
unfolding control_get find_template template_or
transform_to_edi none metadata fields = err attribute_error
transform_to_edi (some mappings) metadata fields =
    elim (control_get metadata (codes "message_type")) [
      | none ↦ err key_error
      | some message_type ↦ elim (find_template mappings (codes "default")) [
        | none ↦ err key_error
        | some default ↦ apply_mapping_template fields (template_or mappings message_type default)
      ]
    ]

unfoldable pub check_signature : Environment → Text → Result IdocError (Unit {0})
check_signature env idoc_content = elim env.validate_signature [
  | none ↦ err attribute_error
  | some validate ↦ validate idoc_content
]

-- process_idoc up to the dispatch.
unfoldable pub transform :
    Environment
    → (edi_mappings : Option (List (Text × Template))) → Text
    → Result IdocError (Parsed × List (Text × Option Text))
unfolding check_signature parse_idoc normalize_data transform_to_edi
transform env edi_mappings idoc_content = check_signature env idoc_content >>= λ _.
    parse_idoc env idoc_content >>= λ parsed.
    normalize_data parsed.control parsed.data_segments >>= λ normalized.
    transform_to_edi edi_mappings normalized [] >>= λ edi. ok (parsed, edi)

-- process_idoc on the documents dispatched so far. What is dispatched is the transformed data.
unfoldable pub process_idoc :
    (post : List (Text × Option Text) → Result IdocError (Unit {0}))
    → Environment
    → (edi_mappings : Option (List (Text × Template))) → Text
    → List (List (Text × Option Text))
    → Result IdocError (Option Text) × List (List (Text × Option Text))
unfolding transform
process_idoc post env edi_mappings idoc_content dispatched =
    let transformed : Result IdocError (Parsed × List (Text × Option Text)) =
      transform env edi_mappings idoc_content in
    elim transformed [
      | err e ↦ (err e, dispatched)
      | ok (parsed, edi) ↦ (post edi >>= (λ _. ok parsed.control.message_id), edi ∷ dispatched)
    ]
