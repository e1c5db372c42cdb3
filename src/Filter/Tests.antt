-- ===== src/Filter/Tests.antt =====
-- Runs of the filters on one observed flight, with natural numbers in place of `f64`.
use aether_engine.Prelude.{
  ℕ, ◌≡◌, refl, true, false, [], ◌∷◌, none, some, arith, leb, ltb, all, any,
}
use aether_engine.Prelude.HashMap.{get}
use aether_engine.Prelude.Result.{ok, err}
use aether_engine.Filter.{
  Floats, Filter, FlightDocument, equals, range, is, min_above_max, validate, passes,
}
use aether_engine.Filter.Shape.{selects, passes_lem, refused_passes_nothing}

between_example : (min v max : ℕ) → leb min v ≡ true → leb v max ≡ true → ltb max min ≡ false
between_example min v max h k = ground arith

abbrev numbers : Floats
numbers = record {
  Float = ℕ;
  le = leb;
  gt = λ a b. ltb b a;
  of_int = λ n. n;
  nan = 0;
  between = between_example;
}

abbrev ual231 : FlightDocument ℕ
ual231 = record {
  callsign = "UAL231";
  origin = "France";
  destination = "";
  aircraft_type = "";
  tenant_id = "";
  icao24 = "abc123";
  altitude = 2500;
  velocity = 0;
  heading = 0;
  vertical_rate = 0;
  latitude = 0;
  longitude = 0;
  observed_at = 1000000;
  on_ground = false;
  text = ("airline", "United") ∷ [];
  number = [];
}

abbrev airborne : Filter ℕ
airborne =
    record { field = "origin"; test = some (equals "FRANCE") }
    ∷ record { field = "altitude"; test = some (range none (some 3000)) }
    ∷ record { field = "on_ground"; test = some (is false) }
    ∷ record { field = "airline"; test = some (equals "united") }
    ∷ []

abbrev inverted : Filter ℕ
inverted =
    record { field = "origin"; test = some (equals "France") }
    ∷ record { field = "altitude"; test = some (range (some 10) (some 5)) }
    ∷ []

airborne_seen : passes numbers ual231 (some airborne) ≡ true
unfolding passes all get
airborne_seen = refl

airborne_missed : passes numbers (record ual231 { on_ground = true }) (some airborne) ≡ false
unfolding passes all get
airborne_missed = refl

airborne_fits : validate numbers airborne ≡ ok tt
unfolding validate any
airborne_fits = refl

inverted_fails : validate numbers inverted ≡ err (min_above_max "altitude")
unfolding validate any
inverted_fails = refl

passes_lem_example : passes numbers ual231 (some airborne) ≡ all (selects numbers ual231) airborne
passes_lem_example = passes_lem numbers ual231 airborne airborne_fits

refused_passes_nothing_example : passes numbers ual231 (some inverted) ≡ false
refused_passes_nothing_example =
    refused_passes_nothing numbers ual231 inverted (min_above_max "altitude") inverted_fails tt
