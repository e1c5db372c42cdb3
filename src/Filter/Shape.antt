-- ===== src/Filter/Shape.antt =====
-- What a filter's shape must be, and what a refusal costs.
use aether_engine.Prelude.{
  ◌≡◌, ◌⊎◌, inl, inr, refl, sym, subst, ◌∙◌, String, Bool, true, false, not, [], ◌∷◌, Option, none,
  some, if◌then◌else◌, unwrap_or, nat_eq, string_eq, any, all, is_some, arith, beq→eq,
}
use aether_engine.Prelude.HashMap.{HashMap, get}
use aether_engine.Prelude.Result.{Result, ok, err}
use aether_engine.Filter.{
  Floats, Test, equals, range, is, FilterCondition, Filter, FlightDocument, numeric_fields,
  bool_fields, text_fields, has_field, FilterError, min_above_max, no_test, not_text, not_numeric,
  not_boolean, eq_ignore_ascii_case, is_inverted, check_test, validate, text_value, numeric_value,
  in_range, test_holds, condition_holds, passes,
}

-- A column of a document, with its kind.
pub data Column (Float : Type 0) : Type 0 where
  words : String → Column Float
  amount : Float → Column Float
  flag : Bool → Column Float

module _ (floats : Floats) where
  open floats use {Float, le, gt, of_int, nan}

  -- The built-in columns by name.
  abbrev pub text_columns : FlightDocument Float → HashMap String String
  text_columns doc =
      ("callsign", doc.callsign)
      ∷ ("origin", doc.origin)
      ∷ ("destination", doc.destination)
      ∷ ("aircraft_type", doc.aircraft_type)
      ∷ ("tenant_id", doc.tenant_id)
      ∷ ("icao24", doc.icao24)
      ∷ []

  abbrev pub numeric_columns : FlightDocument Float → HashMap String Float
  numeric_columns doc =
      ("altitude", doc.altitude)
      ∷ ("velocity", doc.velocity)
      ∷ ("heading", doc.heading)
      ∷ ("vertical_rate", doc.vertical_rate)
      ∷ ("latitude", doc.latitude)
      ∷ ("longitude", doc.longitude)
      ∷ ("observed_at", of_int doc.observed_at)
      ∷ []

  abbrev pub bool_columns : FlightDocument Float → HashMap String Bool
  bool_columns doc = ("on_ground", doc.on_ground) ∷ []

  abbrev pub column_among : Option String → Option Float → Option Bool → Option (Column Float)
  column_among (some s) v b = some (words s)
  column_among none (some v) b = some (amount v)
  column_among none none (some b) = some (flag b)
  column_among none none none = none

  abbrev pub column : FlightDocument Float → String → Option (Column Float)
  column doc field =
      column_among (get (text_columns doc) field) (get (numeric_columns doc) field)
        (get (bool_columns doc) field)

  -- A test of a built-in column is a test of that column, of its kind; another name is one of the
  -- connector's own fields, of the test's kind.
  abbrev pub selects_test :
      FlightDocument Float → String → Option (Column Float) → Option (Test Float) → Bool
  selects_test doc field (some (words s)) (some (equals want)) = eq_ignore_ascii_case s want
  selects_test doc field (some (amount v)) (some (range min max)) = in_range floats min max v
  selects_test doc field (some (flag b)) (some (is want)) = if b then want else not want
  selects_test doc field none (some (equals want)) =
      eq_ignore_ascii_case (unwrap_or (get doc.text field) "") want
  selects_test doc field none (some (range min max)) =
      in_range floats min max (unwrap_or (get doc.number field) nan)
  selects_test doc field column test = false

  abbrev pub selects : FlightDocument Float → FilterCondition Float → Bool
  selects doc cond = selects_test doc cond.field (column doc cond.field) cond.test

  module _ (doc : FlightDocument Float) (field : String) where
    text_value_lookup :
        text_value floats doc field
        ≡ unwrap_or (get (text_columns doc) field) (unwrap_or (get doc.text field) "")
    unfolding text_value get
    text_value_lookup = ground arith

    numeric_value_lookup :
        numeric_value floats doc field
        ≡ unwrap_or (get (numeric_columns doc) field) (unwrap_or (get doc.number field) nan)
    unfolding numeric_value get
    numeric_value_lookup = ground arith

    has_text : has_field text_fields field ≡ is_some (get (text_columns doc) field)
    unfolding has_field any get
    has_text = ground arith

    has_numeric : has_field numeric_fields field ≡ is_some (get (numeric_columns doc) field)
    unfolding has_field any get
    has_numeric = ground arith

    has_bool : has_field bool_fields field ≡ is_some (get (bool_columns doc) field)
    unfolding has_field any get
    has_bool = ground arith

    named_on_ground : has_field bool_fields field ≡ true → "on_ground" ≡ field
    unfolding has_field any
    named_on_ground h = beq→eq "on_ground" field (ground arith)

    on_ground_selected :
        (want : Bool)
        → "on_ground" ≡ field
        → (if doc.on_ground then want else not want)
          ≡ selects_test doc field (column doc field) (some (is want))
    unfolding get
    on_ground_selected want e =
        subst
          (λ f.
            (if doc.on_ground then want else not want)
            ≡ selects_test doc f (column doc f) (some (is want)))
          e refl

    holds_selected :
        (test : Option (Test Float))
        → check_test floats field test ≡ ok tt
        → test_holds floats doc field test ≡ selects_test doc field (column doc field) test
    unfolding check_test test_holds
    holds_selected (some (equals want)) h = ground (arith, text_value_lookup, has_numeric, has_bool)
    holds_selected (some (range min max)) h =
        ground (arith, numeric_value_lookup, has_text, has_bool)
    holds_selected (some (is want)) h = on_ground_selected want (named_on_ground (ground arith))
    holds_selected none h = cc h

  validate_rest :
      (cond : FilterCondition Float) (conds : Filter Float)
      → check_test floats cond.field cond.test ≡ ok tt
      → validate floats (cond ∷ conds) ≡ validate floats conds
  unfolding validate
  validate_rest cond conds k = rw (k, validate) refl

  validate_refused :
      (cond : FilterCondition Float) (conds : Filter Float) (e : FilterError)
      → check_test floats cond.field cond.test ≡ err e
      → validate floats (cond ∷ conds) ≡ err e
  unfolding validate
  validate_refused cond conds e k = rw (k, validate) refl

  ok_is_not-err : {e : FilterError} → ¬ (ok tt ≡ err e)
  ok_is_not-err h = cc h

  verdict :
      (result : Result FilterError (Unit {0}))
      → (result ≡ ok tt) ⊎ ((e : FilterError) × (result ≡ err e))
  verdict (ok u) = inl refl
  verdict (err e) = inr (e, refl)

  -- A document passes a filter that validates exactly when each condition selects it as the schema
  -- reads it: the test of a built-in column tests that column with the test of its kind, and the test
  -- of any other name tests the field of that name among the document's own texts or numbers.
  pub passes_lem :
      (doc : FlightDocument Float) (conds : Filter Float)
      → validate floats conds ≡ ok tt
      → passes floats doc (some conds) ≡ all (selects doc) conds
  unfolding validate passes all condition_holds
  passes_lem doc [] h = refl
  passes_lem doc (cond ∷ conds) h = elim (verdict (check_test floats cond.field cond.test)) [
    | inl k ↦
        let rest = passes_lem doc conds (sym (validate_rest cond conds k) ∙ h) in
        ground (arith, holds_selected doc cond.field cond.test k, rest)
    | inr (e, k) ↦ absurd (ok_is_not-err (sym h ∙ validate_refused cond conds e k))
  ]

  inverted_holds-not :
      (min max : Option Float) (v : Float)
      → is_inverted floats min max ≡ true
      → in_range floats min max v ≡ false
  unfolding is_inverted in_range
  inverted_holds-not (some min) (some max) v h = ground (arith, floats.between min v max)
  inverted_holds-not (some min) none v h = cc h
  inverted_holds-not none max v h = cc h

  -- The refusals that concern what a condition asks, not the kind of its field.
  abbrev pub IsVacuous : FilterError → Type 0
  IsVacuous (min_above_max field) = Unit
  IsVacuous (no_test field) = Unit
  IsVacuous (not_text field) = ⊥
  IsVacuous (not_numeric field) = ⊥
  IsVacuous (not_boolean field) = ⊥

  vacuous_test :
      (doc : FlightDocument Float) (field : String) (test : Option (Test Float)) (e : FilterError)
      → check_test floats field test ≡ err e
      → IsVacuous e
      → test_holds floats doc field test ≡ false
  unfolding check_test test_holds
  vacuous_test doc field (some (equals want)) e h v = ground arith
  vacuous_test doc field (some (range min max)) e h v =
      ground (arith, inverted_holds-not min max (numeric_value floats doc field))
  vacuous_test doc field (some (is want)) e h v = ground arith
  vacuous_test doc field none e h v = refl

  -- A filter that is refused for an inverted range or a condition without a test would pass no
  -- document, so that the refusal loses no answers.
  pub refused_passes_nothing :
      (doc : FlightDocument Float) (conds : Filter Float) (e : FilterError)
      → validate floats conds ≡ err e
      → IsVacuous e
      → passes floats doc (some conds) ≡ false
  unfolding validate passes all condition_holds
  refused_passes_nothing doc [] e h v = cc h
  refused_passes_nothing doc (cond ∷ conds) e h v =
      elim (verdict (check_test floats cond.field cond.test)) [
        | inl k ↦
            let rest =
              refused_passes_nothing doc conds e (sym (validate_rest cond conds k) ∙ h) v in
            ground (arith, rest)
        | inr (f, k) ↦
            let same : err f ≡ err e = sym (validate_refused cond conds f k) ∙ h in
            ground (arith, vacuous_test doc cond.field cond.test e (k ∙ same) v)
      ]
