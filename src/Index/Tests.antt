-- ===== src/Index/Tests.antt =====
-- Runs of the index: ASCII letters, and natural numbers in place of `f64`.
use aether_engine.Prelude.{
  ℕ, ◌+◌, ◌-◌, ◌*◌, ◌/◌, ◌≡◌, refl, String, false, ◌&&◌, ◌||◌, List, [], ◌∷◌, map, Option, none,
  some, if◌then◌else◌, string_eq, nat_eq, ◌==◌, ltb, leb, arith,
}
use aether_engine.Prelude.HashSet.{contains}
use aether_engine.Prelude.Sort.{sort}
use aether_engine.Prelude.HashMap
use aether_engine.Prelude.HashMap.{get, weigh}
use aether_engine.Filter.{FlightDocument}
use aether_engine.Tokens.{Letters, tokenize}
use aether_engine.Index.{Analysis, InvertedIndex, new, insert, remove, slot, term_freqs}
use aether_engine.Index.Search.{search, score_list}
use aether_engine.Index.Survivors.{Holds}
use aether_engine.Index.Histories.{Change, inserted, removed, survivors, run, run-Holds}

abbrev pub ascii : Letters
ascii = record {
  is_alphanumeric = λ c. leb 48 c && leb c 57 || leb 65 c && leb c 90 || leb 97 c && leb c 122;
  is_whitespace = λ c. c == 32;
  to_lowercase = map (λ c. if leb 65 c && leb c 90 then c + 32 else c);
}

abbrev pub whole : Analysis
whole = record {
  letters = ascii;
  Real = ℕ;
  of_nat = λ n. 100 * n;
  half = 50;
  add = λ x y. x + y;
  sub = λ x y. x - y;
  mul = λ x y. x * y / 100;
  div = λ x y. x * 100 / y;
  ln = λ x. x;
  max = λ x y. if ltb x y then y else x;
  exceeds = λ x y. ltb y x;
  k1 = 120;
  b = 75;
}

abbrev pub flight : String → String → String → FlightDocument ℕ
flight icao24 callsign origin = record {
  callsign = callsign;
  origin = origin;
  destination = "JFK";
  aircraft_type = "Boeing 737";
  tenant_id = "";
  icao24 = icao24;
  altitude = 0;
  velocity = 0;
  heading = 0;
  vertical_rate = 0;
  latitude = 0;
  longitude = 0;
  observed_at = 0;
  on_ground = false;
  text = [];
  number = [];
}

-- a1 is removed, b2 observed again, and c3 takes the slot of a1.
abbrev changes : List (Change ℕ)
changes =
    inserted (flight "a1" "UAL231" "SFO")
    ∷ inserted (flight "b2" "DAL45" "SFO")
    ∷ removed "a1"
    ∷ inserted (flight "b2" "DAL46" "ATL")
    ∷ inserted (flight "c3" "UAL900" "SFO")
    ∷ []

boeing_737 : tokenize ascii "Boeing-737 " ≡ tokenize ascii "boeing 737"
unfolding tokenize
boeing_737 = refl

run-Holds_example :
    (idx : InvertedIndex ℕ) × (run whole (new whole) changes ≡ some idx)
    × Holds whole idx (survivors changes)
run-Holds_example = run-Holds whole changes (omega arith)

-- The aircraft that a search finds, in order.
abbrev found_by : String → Option (List String)
found_by query = elim (run whole (new whole) changes) [
  | none ↦ none
  | some idx ↦ elim (search whole idx query 0) [
    | none ↦ none
    | some r ↦ some (map (λ hit. hit.doc.icao24) r.hits)
  ]
]

found_by_sfo : found_by "sfo" ≡ some ("c3" ∷ [])
unfolding run insert get new HashMap.insert remove slot HashMap.remove search tokenize contains
    term_freqs score_list sort
found_by_sfo = refl
