-- ===== src/Discovery/Fields.antt =====
-- integration/discovery/schema_learner.py: what infer_schema returns.
use qervan_ai.Common.{
  List, [], ◌∷◌, none, ok, err, ◌≡◌, refl, sym, ◌∙◌, ok-ne-err, ok-injective, Bool-cases, inl, inr,
  String,
}
use qervan_ai.Discovery.{
  Column, SchemaField, Source, pandas_frame, spark_frame, json_object, unsupported, new_field,
  field_of, infer_pandas_schema, infer_schema, validation_error, is_number,
}

module _ {F : Type 0} (endpoint : String) where
  new_field-field_of : (c : Column F) → new_field (field_of endpoint c) ≡ err validation_error
  unfolding new_field field_of
  new_field-field_of c = elim (Bool-cases (is_number c.dtype)) [
    | inl a ↦ rw (a, new_field, field_of) refl
    | inr b ↦ rw (b, new_field, field_of) refl
  ]

module _ {F D : Type 0} (endpoint : String) where
  -- Without the methods that the class lacks, infer_schema returns no field, whatever it is given: what it returns is
  -- the empty schema of a frame without columns.
  pub infer_schema-nil :
      (data_in : Source F D) {schema : List (SchemaField F)}
      → infer_schema none none endpoint data_in ≡ ok schema
      → (data_in ≡ pandas_frame []) × (schema ≡ [])
  unfolding infer_schema infer_pandas_schema
  infer_schema-nil (pandas_frame []) h = (refl, sym (ok-injective h))
  infer_schema-nil (pandas_frame (c ∷ columns)) {schema} h = absurd (
      ok-ne-err schema validation_error
        (sym h ∙ rw (new_field-field_of endpoint c, infer_pandas_schema) refl))
  infer_schema-nil (spark_frame d) h = cc
  infer_schema-nil (json_object m) h = cc
  infer_schema-nil unsupported h = cc
