-- ===== src/Index/Survivors.antt =====
-- The index against the map of the aircraft that were inserted last and not removed since.
use aether_engine.Prelude.{ℕ, ◌≡◌, refl, String, [], nat_eq, string_eq, list_eq, length}
use aether_engine.Prelude.HashMap.{HashMap, get, Distinct, weigh}
use aether_engine.Prelude.HashSet.{contains}
use aether_engine.Filter.{FlightDocument}
use aether_engine.Index.{Analysis, InvertedIndex, slot, new}
use aether_engine.Index.Rows.{Rows}
use aether_engine.Index.Corpus.{Listed, Sized, Retired, weigh_slots}

module _ (a : Analysis) where
  open a use {Real}

  -- The index holds exactly the aircraft of the map.
  pub record Holds (idx : InvertedIndex Real) (m : HashMap String (FlightDocument Real))
      : Type 0 where
    pub rows : Rows (λ d. d.icao24) idx.docs idx.by_key m
    pub listed : Listed a idx.docs idx.postings m
    pub sized : Sized a idx.docs idx.doc_len idx.total_len m
    pub retired : Retired idx.docs idx.free
    pub once : Distinct m
    pub keys_once : Distinct idx.by_key
    pub counted : length idx.by_key ≡ length m
    pub stocked : (w : FlightDocument Real → ℕ) → weigh_slots w idx.docs ≡ weigh w m

  pub new-Holds : Holds (new a) []
  unfolding new slot get contains
  new-Holds = record {
    rows = record {
      reads = λ k. refl;
      keyed = λ i d h. cc h;
      lived = λ k i h. cc h;
      named = λ k d h. cc h;
    };
    listed = record { listed = λ t i. refl; once = λ t. tt; df = λ t. unfold weigh in refl };
    sized = record { lens = λ i d h. cc h; aligned = refl; summed = unfold weigh in refl };
    retired = record { empty = λ i h. cc h; all = λ i h. elim h [ ]; no_repeat = tt };
    once = tt;
    keys_once = tt;
    counted = refl;
    stocked = λ w. unfold weigh weigh_slots in refl;
  }
