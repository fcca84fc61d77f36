-- ===== src/Idoc/Process/Parses.antt =====
-- integration/adapters/sap/idoc_adapter.py: the documents that _parse_idoc takes.
use mathlib.Core.List.Memᴰ
use qervan_ai.Common.{
  ◌≡◌, refl, sym, ap, ◌∙◌, subst, ◌⊎◌, inl, inr, List, [], ◌∷◌, some, Result, ok, err, ◌>>=◌,
  >>=-eq-ok, ok-ne-err, ok-injective, Text, contains_text, contains_text_iff, Memᴰ, Bool-cases,
  Option-cases, Result-cases, true-ne-false,
}
use qervan_ai.Common.Xml.{Element, attrib_of}
use qervan_ai.Idoc.{
  IdocError, value_error, retry_error, Environment, Segment, Parsed, parse_idoc, parse_once, retry,
  idoc_name, schema_version, lookup_attrib, children_of, find_all, extract_data_segments,
  extract_control_segment, validate_schema, check_duplicates, check_loop, seg_id,
}

-- No two segments have one id.
pub DistinctIds : List Segment → Type 0
DistinctIds [] = Unit
DistinctIds (s ∷ segments) =
    ((t : Segment) → Memᴰ t segments → ¬ (seg_id t ≡ seg_id s)) × DistinctIds segments

NoneSeen : List Text → List Segment → Type 0
NoneSeen seen segments = (t : Segment) → Memᴰ t segments → ¬ Memᴰ (seg_id t) seen

check_loop-ok :
    (seen : List Text) (segments : List Segment)
    → check_loop seen segments ≡ ok tt
    → NoneSeen seen segments × DistinctIds segments
unfolding check_loop NoneSeen DistinctIds
check_loop-ok seen [] e = ((λ t m. absurd (Memᴰ.not-nil m)), tt)
check_loop-ok seen (s ∷ segments) e = elim (Bool-cases (contains_text seen (seg_id s))) [
  | inl old ↦
      absurd (
        ok-ne-err tt (value_error "Duplicate segment detected") (sym e ∙ rw (old, check_loop) refl))
  | inr fresh ↦
      let (new, distinct) =
        check_loop-ok (seg_id s ∷ seen) segments (sym (rw (fresh, check_loop) refl) ∙ e) in
      (
        (λ t m seen_before. elim (Memᴰ.cases_cons m) [
          | inl same ↦ absurd (
              true-ne-false (
                sym (
                  (contains_text_iff seen (seg_id s)).1
                    (subst (λ u. Memᴰ (seg_id u) seen) same seen_before))
                ∙ fresh))
          | inr later ↦ new t later (Memᴰ.tail seen_before)
        ]),
        ((λ t m same. new t m (Memᴰ.head same)), distinct),
      )
]

ok-check_loop :
    (seen : List Text) (segments : List Segment)
    → NoneSeen seen segments
    → DistinctIds segments
    → check_loop seen segments ≡ ok tt
unfolding check_loop NoneSeen DistinctIds
ok-check_loop seen [] new distinct = refl
ok-check_loop seen (s ∷ segments) new distinct = elim (Bool-cases (contains_text seen (seg_id s))) [
  | inl old ↦ absurd (new s (Memᴰ.head refl) ((contains_text_iff seen (seg_id s)).0 old))
  | inr fresh ↦
      rw (fresh, check_loop)
        (ok-check_loop (seg_id s ∷ seen) segments
          (λ t m again. elim (Memᴰ.cases_cons again) [
            | inl same ↦ distinct.0 t m same
            | inr before ↦ new t (Memᴰ.tail m) before
          ])
          distinct.1)
]

-- A document that _parse_idoc takes: it is well-formed, its segments have names and fields with a namespace, the schema
-- version is 3.0 or 4.0, and no two segments have one id.
pub record Parses (env : Environment) (idoc_content : Text) (segments : List Segment) : Type 0 where
  pub root : Element
  pub well_formed : env.fromstring idoc_content ≡ some root
  pub extracted :
      extract_data_segments (children_of (find_all (idoc_name ∷ []) (root ∷ []))) ≡ ok segments
  pub version : Text
  pub versioned : lookup_attrib (attrib_of root) schema_version ≡ some version
  pub supported : Memᴰ version ((51 ∷ 46 ∷ 48 ∷ []) ∷ (52 ∷ 46 ∷ 48 ∷ []) ∷ [])
  pub distinct : DistinctIds segments

validate_schema-ok :
    (root : Element)
    → validate_schema root ≡ ok tt
    → (v : Text) × (lookup_attrib (attrib_of root) schema_version ≡ some v)
      × Memᴰ v ((51 ∷ 46 ∷ 48 ∷ []) ∷ (52 ∷ 46 ∷ 48 ∷ []) ∷ [])
unfolding validate_schema
validate_schema-ok root e = elim (Option-cases (lookup_attrib (attrib_of root) schema_version)) [
  | inl missing ↦ absurd (
      ok-ne-err tt (value_error "Unsupported IDoc schema version")
        (sym e ∙ rw (missing, validate_schema) refl))
  | inr (v, given) ↦
      elim (Bool-cases (contains_text ((51 ∷ 46 ∷ 48 ∷ []) ∷ (52 ∷ 46 ∷ 48 ∷ []) ∷ []) v)) [
        | inl known ↦ (
          v,
          given,
          (contains_text_iff ((51 ∷ 46 ∷ 48 ∷ []) ∷ (52 ∷ 46 ∷ 48 ∷ []) ∷ []) v).0 known,
        )
        | inr other ↦ absurd (
            ok-ne-err tt (value_error "Unsupported IDoc schema version")
              (sym e ∙ rw (given, validate_schema) (rw other refl)))
      ]
]

ok-validate_schema :
    (root : Element) (v : Text)
    → lookup_attrib (attrib_of root) schema_version ≡ some v
    → Memᴰ v ((51 ∷ 46 ∷ 48 ∷ []) ∷ (52 ∷ 46 ∷ 48 ∷ []) ∷ [])
    → validate_schema root ≡ ok tt
unfolding validate_schema
ok-validate_schema root v given m =
    let known = (contains_text_iff ((51 ∷ 46 ∷ 48 ∷ []) ∷ (52 ∷ 46 ∷ 48 ∷ []) ∷ []) v).1 m in
    rw (given, validate_schema) (rw known refl)

module _ (env : Environment) (idoc_content : Text) where
  -- What _parse_idoc gives on a document that it takes.
  parsed_of : List Segment → Element → Parsed
  parsed_of segments root = record {
    control = extract_control_segment env.now root;
    data_segments = segments;
    checksum = env.checksum_of idoc_content;
  }

  parse_once-ok :
      (parsed : Parsed)
      → parse_once env idoc_content ≡ ok parsed
      → Parses env idoc_content parsed.data_segments
  unfolding parse_once check_duplicates NoneSeen parsed_of
  parse_once-ok parsed e = elim (Option-cases (env.fromstring idoc_content)) [
    | inl malformed ↦ absurd (
        ok-ne-err parsed (value_error "Malformed IDoc XML structure")
          (sym e ∙ rw (malformed, parse_once) refl))
    | inr (root, read) ↦
        let body : Result IdocError Parsed =
          extract_data_segments (children_of (find_all (idoc_name ∷ []) (root ∷ [])))
          >>= λ segments. validate_schema root >>= λ _.
              check_duplicates segments >>= λ _. ok (parsed_of segments root) in
        let opened : parse_once env idoc_content ≡ body = rw (read, parse_once) refl in
        let (segments, extracted, e1) =
          >>=-eq-ok (extract_data_segments (children_of (find_all (idoc_name ∷ []) (root ∷ [])))) _
            (sym opened ∙ e) in
        let (u, valid, e2) = >>=-eq-ok (validate_schema root) _ e1 in
        let (w, unique, e3) = >>=-eq-ok (check_duplicates segments) _ e2 in
        let (v, given, known) = validate_schema-ok root valid in
        let same : segments ≡ parsed.data_segments =
          ap (λ (p : Parsed). p.data_segments) (ok-injective e3) in
        record {
          root = root;
          well_formed = read;
          extracted = extracted ∙ ap ok same;
          version = v;
          versioned = given;
          supported = known;
          distinct = subst DistinctIds same (check_loop-ok [] segments unique).1;
        }
  ]

  ok-parse_once :
      (segments : List Segment) (p : Parses env idoc_content segments)
      → parse_once env idoc_content ≡ ok (parsed_of segments p.root)
  unfolding parse_once check_duplicates parsed_of NoneSeen
  ok-parse_once segments p =
      let valid = ok-validate_schema p.root p.version p.versioned p.supported in
      let unique : check_loop [] segments ≡ ok tt =
        ok-check_loop [] segments (λ t m n. Memᴰ.not-nil n) p.distinct in
      rw (p.well_formed, parse_once) (rw p.extracted (rw valid (rw unique refl)))

  pub parse_idoc_cases :
      ((parsed : Parsed) × (parse_idoc env idoc_content ≡ ok parsed)
        × Parses env idoc_content parsed.data_segments)
      ⊎ ((parse_idoc env idoc_content ≡ err retry_error)
          × ((segments : List Segment) → ¬ Parses env idoc_content segments))
  unfolding parse_idoc retry
  parse_idoc_cases = elim (Result-cases (parse_once env idoc_content)) [
    | inl (parsed, e) ↦ inl (parsed, rw (e, parse_idoc) refl, parse_once-ok parsed e)
    | inr (x, failed) ↦ inr (
      rw (failed, parse_idoc) refl,
      (λ segments p.
          ok-ne-err (parsed_of segments p.root) x (sym (ok-parse_once segments p) ∙ failed)),
    )
  ]
