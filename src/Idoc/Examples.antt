-- ===== src/Idoc/Examples.antt =====
-- A small document with two items, and the theorems at these values.
use qervan_ai.Common.{
  ◌==◌, codes, leb, Option, text_eq, if◌then◌else◌, ℕ, ◌≤◌, ◌⊎◌, ◌≡◌, refl, ◌↔◌, List, [], ◌∷◌,
  ◌++◌, some, none, ok, err, Text, All,
}
use qervan_ai.Idoc.{
  retry_error, attribute_error, environment_error, Segment, Environment, namespace, idoc_name,
  edi_dc40, docnum, schema_version, parse_once, Fields,
}
use qervan_ai.Idoc.Mapping.{
  Mapping, apply_mapping_template, apply_mapping_template_iff, Passes, mapped,
}
use qervan_ai.Idoc.Dispatch.{
  Services, Adapter, Traffic, answer, no_answer, not_sent, generate_signature, new_adapter,
  validate_environment, dispatch_to_eds, dispatch_attempts, dispatch_once, monitor_performance,
}
use qervan_ai.Idoc.Dispatch.Copies.{copies, Tried, dispatch_to_eds-copies}
use qervan_ai.Common.Xml.{Element, element, no_elements, more, iter_all}

abbrev leaf : Text → Text → Element
leaf name content = element (namespace ++ name) [] (some content) no_elements

-- A document with the number 7 and one segment `E` with a field `F`.
abbrev document : Element
document = element (namespace ++ 73 ∷ []) ((schema_version, 52 ∷ 46 ∷ 48 ∷ []) ∷ []) none (
    more
      (element (namespace ++ idoc_name) [] none (
        more (element (namespace ++ edi_dc40) [] none (more (leaf docnum (55 ∷ [])) no_elements)) (
          more (element (namespace ++ 69 ∷ []) [] none (more (leaf (70 ∷ []) (1 ∷ [])) no_elements))
            no_elements)))
      no_elements)

abbrev environment : Environment
environment = record {
  fromstring = λ content. some document;
  checksum_of = λ content. [];
  now = [];
  validate_signature = some (λ content. ok tt);
}

parsed :
    parse_once environment []
    ≡ ok (record {
      control = record {
        message_id = some (55 ∷ []);
        sender = none;
        receiver = none;
        timestamp = [];
      };
      data_segments = record { segment = 69 ∷ []; fields = (70 ∷ [], some (1 ∷ [])) ∷ [] } ∷ [];
      checksum = [];
    })
unfolding parse_once iter_all
parsed = refl

abbrev item : Text → Segment
item content = record { segment = 69 ∷ []; fields = (70 ∷ [], some content) ∷ [] }

abbrev template : List (Text × Mapping)
template =
    (
      10 ∷ [],
      record {
        path = 1 ∷ [];
        default = none;
        validation = some (record { max_length = some 3; pattern = none });
      },
    )
    ∷ (11 ∷ [], record { path = 2 ∷ []; default = some (9 ∷ []); validation = none })
    ∷ []

abbrev order_fields : Fields
order_fields = (1 ∷ [], some (5 ∷ 5 ∷ [])) ∷ []

abbrev edi_fields : Fields
edi_fields = (10 ∷ [], some (5 ∷ 5 ∷ [])) ∷ (11 ∷ [], some (9 ∷ [])) ∷ []

apply_mapping_template_iff_example :
    (apply_mapping_template order_fields template ≡ ok edi_fields)
    ↔ (All (Passes order_fields) template × (mapped order_fields template ≡ edi_fields))
apply_mapping_template_iff_example = apply_mapping_template_iff order_fields template edi_fields

-- EDS takes every document, and the monitoring service does not answer.
abbrev unmonitored : Services ℕ
unmonitored = record {
  eds = λ request. answer 200;
  monitoring = λ request. no_answer;
  raises_for_status = λ status. leb 400 status;
  hexdigest = λ key payload. some key;
}

abbrev adapter : Adapter
adapter = record { sap_host = none; sap_client = none; api_key = none; signing_key = codes "k" }

abbrev quiet : Traffic ℕ
quiet = record { deliveries = []; metrics = 0 }

-- Every delivery is accepted, and the document goes out three times.
three_deliveries :
    dispatch_to_eds unmonitored adapter 0 8 quiet
    ≡ (err retry_error, record { deliveries = copies 3 (codes "v1:k") 8 []; metrics = 3 })
unfolding dispatch_to_eds dispatch_attempts dispatch_once monitor_performance generate_signature
three_deliveries = refl

abbrev only_key : Text → Option Text
only_key var = if text_eq var (codes "IDOC_SIGNING_KEY") then some (codes "k") else none

no_signing_key : new_adapter (λ var. none) ≡ err attribute_error
unfolding new_adapter
no_signing_key = refl

no_sap_host : new_adapter only_key ≡ err environment_error
unfolding new_adapter validate_environment
no_sap_host = refl

-- A service that the first and the third request do not reach.
abbrev unreachable : Services ℕ
unreachable = record unmonitored { eds = λ request. if request == 1 then answer 503 else not_sent }

one_delivery :
    dispatch_to_eds unreachable adapter 0 8 quiet
    ≡ (err retry_error, record { deliveries = copies 1 (codes "v1:k") 8 []; metrics = 0 })
unfolding dispatch_to_eds dispatch_attempts dispatch_once generate_signature
one_delivery = refl

dispatch_to_eds-copies_example :
    ((generate_signature unreachable adapter 8 ≡ none)
      × (dispatch_to_eds unreachable adapter 0 8 quiet ≡ (err retry_error, quiet)))
    ⊎ ((signature : Text) × (k : ℕ) × (generate_signature unreachable adapter 8 ≡ some signature)
        × (1 ≤ k)
        × (k ≤ 3)
        × Tried unreachable adapter 3 0 8 signature quiet
            (dispatch_to_eds unreachable adapter 0 8 quiet)
            k)
dispatch_to_eds-copies_example = dispatch_to_eds-copies unreachable adapter 0 8 quiet
