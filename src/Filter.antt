-- ===== src/Filter.antt =====
-- crates/common/src/filter.rs: the shape that a structured filter must have, and the documents that
-- pass it. A message keeps the fields that a condition can name; `f64` is a parameter, and observation
-- times, which are `i64`, are taken as natural numbers.
pub mod Shape
pub mod Tests
use aether_engine.Prelude.{
  ℕ, ◌+◌, ◌≡◌, String, Bool, true, false, not, ◌&&◌, ◌||◌, List, [], ◌∷◌, Option, none, some,
  if◌then◌else◌, unwrap_or, nat_eq, string_eq, ◌==◌, leb, any, all,
}
use aether_engine.Prelude.Text.{codes}
use aether_engine.Prelude.HashMap
use aether_engine.Prelude.HashMap.{HashMap}
use aether_engine.Prelude.Result.{Result, ok, err}

-- `f64`: its `<=` and `>`, the conversion of an `i64` and NaN. Where a value lies between two bounds,
-- the lower one does not exceed the upper one.
pub record Floats : Type 1 where
  pub Float : Type 0
  pub le : Float → Float → Bool
  pub gt : Float → Float → Bool
  pub of_int : ℕ → Float
  pub nan : Float
  pub between : (min v max : Float) → le min v ≡ true → le v max ≡ true → gt min max ≡ false

pub data Test (Float : Type 0) : Type 0 where
  equals : String → Test Float
  range : Option Float → Option Float → Test Float
  is : Bool → Test Float

pub record FilterCondition (Float : Type 0) : Type 0 where
  pub field : String
  pub test : Option (Test Float)

-- `Filter`, as its conditions.
abbrev pub Filter : Type 0 → Type 0
Filter Float = List (FilterCondition Float)

pub record FlightDocument (Float : Type 0) : Type 0 where
  pub callsign : String
  pub origin : String
  pub destination : String
  pub aircraft_type : String
  pub tenant_id : String
  pub icao24 : String
  pub altitude : Float
  pub velocity : Float
  pub heading : Float
  pub vertical_rate : Float
  pub latitude : Float
  pub longitude : Float
  pub observed_at : ℕ
  pub on_ground : Bool
  pub text : HashMap String String
  pub number : HashMap String Float

abbrev pub text_fields : List String
text_fields = "callsign" ∷ "origin" ∷ "destination" ∷ "aircraft_type" ∷ "tenant_id" ∷ "icao24" ∷ []

abbrev pub numeric_fields : List String
numeric_fields =
    "altitude" ∷ "velocity" ∷ "heading" ∷ "vertical_rate" ∷ "latitude" ∷ "longitude" ∷ "observed_at"
    ∷ []

abbrev pub bool_fields : List String
bool_fields = "on_ground" ∷ []

-- `contains` of a slice.
unfoldable pub has_field : List String → String → Bool
has_field fields field = any (λ f. f == field) fields

-- The formatted error texts, with the field that they name.
pub data FilterError : Type 0 where
  not_text : String → FilterError
  not_numeric : String → FilterError
  min_above_max : String → FilterError
  not_boolean : String → FilterError
  no_test : String → FilterError

-- `eq_ignore_ascii_case`, on the code points.
abbrev pub to_ascii_lowercase : ℕ → ℕ
to_ascii_lowercase c = if leb 65 c && leb c 90 then c + 32 else c

abbrev pub same_codes : List ℕ → List ℕ → Bool
same_codes [] [] = true
same_codes [] (d ∷ ds) = false
same_codes (c ∷ cs) [] = false
same_codes (c ∷ cs) (d ∷ ds) = (to_ascii_lowercase c == to_ascii_lowercase d) && same_codes cs ds

abbrev pub eq_ignore_ascii_case : String → String → Bool
eq_ignore_ascii_case s t = same_codes (codes s) (codes t)

module _ (floats : Floats) where
  open floats use {Float, le, gt, of_int, nan}

  -- The test of a range whose two ends are given: `min > max`.
  unfoldable pub is_inverted : Option Float → Option Float → Bool
  is_inverted (some min) (some max) = gt min max
  is_inverted (some min) none = false
  is_inverted none max = false

  -- What the loop of `validate` does with one condition.
  unfoldable pub check_test : String → Option (Test Float) → Result FilterError (Unit {0})
  unfolding has_field is_inverted
  check_test field (some (equals want)) =
      if has_field numeric_fields field || has_field bool_fields field
      then err (not_text field)
      else ok tt
  check_test field (some (range min max)) =
      if has_field text_fields field || has_field bool_fields field
      then err (not_numeric field)
      else if is_inverted min max
      then err (min_above_max field)
      else ok tt
  check_test field (some (is want)) =
      if not (has_field bool_fields field) then err (not_boolean field) else ok tt
  check_test field none = err (no_test field)

  unfoldable pub validate : Filter Float → Result FilterError (Unit {0})
  unfolding check_test
  validate [] = ok tt
  validate (cond ∷ conds) =
      let rest = validate conds in
      elim (check_test cond.field cond.test) [ ok u ↦ rest | err e ↦ err e ]

  unfoldable pub text_value : FlightDocument Float → String → String
  text_value doc field =
      if "callsign" == field
      then doc.callsign
      else if "origin" == field
      then doc.origin
      else if "destination" == field
      then doc.destination
      else if "aircraft_type" == field
      then doc.aircraft_type
      else if "tenant_id" == field
      then doc.tenant_id
      else if "icao24" == field
      then doc.icao24
      else unwrap_or (HashMap.get doc.text field) ""

  unfoldable pub numeric_value : FlightDocument Float → String → Float
  numeric_value doc field =
      if "altitude" == field
      then doc.altitude
      else if "velocity" == field
      then doc.velocity
      else if "heading" == field
      then doc.heading
      else if "vertical_rate" == field
      then doc.vertical_rate
      else if "latitude" == field
      then doc.latitude
      else if "longitude" == field
      then doc.longitude
      else if "observed_at" == field
      then of_int doc.observed_at
      else unwrap_or (HashMap.get doc.number field) nan

  -- The two tests of a range, with `is_none_or`.
  unfoldable pub in_range : Option Float → Option Float → Float → Bool
  in_range none none v = true
  in_range (some min) none v = le min v
  in_range none (some max) v = le v max
  in_range (some min) (some max) v = le min v && le v max

  unfoldable pub test_holds : FlightDocument Float → String → Option (Test Float) → Bool
  unfolding text_value numeric_value in_range
  test_holds doc field (some (equals want)) = eq_ignore_ascii_case (text_value doc field) want
  test_holds doc field (some (range min max)) = in_range min max (numeric_value doc field)
  test_holds doc field (some (is want)) = if doc.on_ground then want else not want
  test_holds doc field none = false

  unfoldable pub condition_holds : FlightDocument Float → FilterCondition Float → Bool
  unfolding test_holds
  condition_holds doc cond = test_holds doc cond.field cond.test

  unfoldable pub passes : FlightDocument Float → Option (Filter Float) → Bool
  unfolding condition_holds
  passes doc none = true
  passes doc (some conds) = all (condition_holds doc) conds
