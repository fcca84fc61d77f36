-- ===== src/Idoc/Process/Stages.antt =====
-- integration/adapters/sap/idoc_adapter.py: what process_idoc ends in, stage by stage.
use mathlib.Core.List.Memᴰ
use qervan_ai.Common.{◌≡◌, List, Option, none, some, Result, ok, err, Text, Memᴰ}
use qervan_ai.Idoc.{
  IdocError, key_error, attribute_error, type_error, retry_error, Environment, Segment, error_name,
}
use qervan_ai.Idoc.Process.{Template}
use qervan_ai.Idoc.Process.Parses.{Parses}

pub NoErrors : List Segment → Type 0
NoErrors segments = (s : Segment) → Memᴰ s segments → ¬ (s.segment ≡ error_name)

module _ (env : Environment) (edi_mappings : Option (List (Text × Template)))
    (idoc_content : Text) where
  pub Signed : Type 0
  Signed =
      (validate : Text → Result IdocError (Unit {0})) × (env.validate_signature ≡ some validate)
      × (validate idoc_content ≡ ok tt)

  -- The stage that raises, and its exception.
  pub data Stage : IdocError → Type 0 where
    no_check : env.validate_signature ≡ none → Stage attribute_error
    check_refuses :
        (validate : Text → Result IdocError (Unit {0})) (e : IdocError)
        → env.validate_signature ≡ some validate
        → validate idoc_content ≡ err e
        → Stage e
    no_parse :
        Signed
        → ((segments : List Segment) → ¬ Parses env idoc_content segments)
        → Stage retry_error
    no_handler :
        (segments : List Segment) (s : Segment)
        → Signed
        → Parses env idoc_content segments
        → Memᴰ s segments
        → s.segment ≡ error_name
        → Stage type_error
    no_mappings :
        (segments : List Segment)
        → Signed
        → Parses env idoc_content segments
        → NoErrors segments
        → edi_mappings ≡ none
        → Stage attribute_error
    no_message_type :
        (segments : List Segment) (mappings : List (Text × Template))
        → Signed
        → Parses env idoc_content segments
        → NoErrors segments
        → edi_mappings ≡ some mappings
        → Stage key_error
