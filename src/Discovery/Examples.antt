-- ===== src/Discovery/Examples.antt =====
-- Tests and witnesses on a frame, a JSON object and a provider.
use qervan_ai.Common.{ℕ, false, String, List, [], ◌∷◌, none, ok, err, ◌≡◌, refl}
use qervan_ai.Discovery.{
  Column, SchemaField, Source, pandas_frame, Members, no_members, member, scalar, object, array,
  no_elements, item, int64, infer_pandas_schema, infer_schema, new_field, field_of,
  detect_nested_structures, validation_error,
}

abbrev amount : Column ℕ
amount = record {
  name = "amount";
  dtype = int64;
  unique = 2;
  nulls = 0;
  least = 1;
  greatest = 9;
  frequency = ("1", 1) ∷ ("9", 1) ∷ [];
  is_text = false;
  parses = false;
}

-- A dictionary is no value of the statistics.
number_column : infer_pandas_schema "db" (amount ∷ []) ≡ err validation_error
unfolding infer_pandas_schema new_field field_of
number_column = refl

abbrev order : Members
order = member "id" scalar (
    member "buyer" (object no_members) (
      member "items" (array (item (object no_members) no_elements))
        (member "tags" (array (item scalar no_elements)) no_members)))

abbrev two_nested : List String
two_nested = "buyer" ∷ "items" ∷ []

nested_members : detect_nested_structures order ≡ two_nested
unfolding detect_nested_structures
nested_members = refl

abbrev empty_frame : Source ℕ ℕ
empty_frame = pandas_frame []

abbrev no_fields : List (SchemaField ℕ)
no_fields = []

schema_of_nothing : infer_schema none none "db" empty_frame ≡ ok no_fields
unfolding infer_schema infer_pandas_schema
schema_of_nothing = refl
