-- ===== src/Store/Tests.antt =====
-- Runs of a shard's store: two members, one snapshot, an eviction.
use aether_engine.Prelude.{
  ℕ, ◌≡◌, refl, String, true, false, List, [], ◌∷◌, none, some, ◌⊎◌, inl, inr, if◌then◌else◌,
  string_eq, arith,
}
use aether_engine.Prelude.HashMap.{HashMap, get, weigh}
use aether_engine.Index.Results.{tally}
use aether_engine.Index.Tests.{whole, flight}
use aether_engine.Vectors.Tests.{points}
use aether_engine.Store.{
  Doc, ShardStore, ShardCommand, batch, evict, unset, Prost, restore, snapshot_bytes, evict_vshard,
}
use aether_engine.Store.Agreement.{Agrees, slots_used}
use aether_engine.Store.Eviction.{leaves, evict_vshard-Agrees}
use mathlib.Core.List.Perm
use aether_engine.Filter.{FlightDocument}
use aether_engine.Store.{SameMessages}
use aether_engine.Store.Contents.{Contents, nothing, effects, SameContents}
use aether_engine.Store.Members.{run, empty, Represents, run-new-Represents, restored_catches_up}

all_same : (docs : List (FlightDocument ℕ)) → SameMessages docs docs
all_same [] = tt
all_same (d ∷ docs) = ((refl, Perm.refl d.text, Perm.refl d.number), all_same docs)

-- The documents themselves.
abbrev plain : Prost ℕ
plain = record {
  Bytes = ShardCommand (Doc whole points) ⊎ List (Doc whole points);
  decode_command = λ bytes. elim bytes [ inl c ↦ some c | inr docs ↦ none ];
  encode_documents = inr;
  decode_documents = λ bytes. elim bytes [ inl c ↦ none | inr docs ↦ some docs ];
  decode_encode = λ docs. (docs, refl, all_same docs);
}

abbrev early : List (ShardCommand (Doc whole points))
early = batch (flight "a1" "UAL231" "SFO" ∷ flight "b2" "DAL45" "SFO" ∷ []) ∷ unset ∷ []

abbrev late : List (ShardCommand (Doc whole points))
late = evict 1 4 ∷ batch (flight "b2" "DAL46" "ATL" ∷ []) ∷ []

run-new-Represents_example :
    (s : ShardStore whole points) × (run whole points (empty whole points true) early ≡ some s)
    × Represents whole points s (effects whole points (nothing whole points) early)
run-new-Represents_example = run-new-Represents whole points true early (omega arith)

restored_catches_up_example :
    (s : ShardStore whole points) × (ahead : ShardStore whole points) × (fresh : ShardStore whole
      points)
    × (count : ℕ) × (caught_up : ShardStore whole points) × (held : Contents whole points) × (run
          whole points
          (empty whole points true)
          early
        ≡ some s)
    × (run whole points s late ≡ some ahead)
    × (restore whole points plain (snapshot_bytes whole points plain s) ≡ some (fresh, count))
    × (run whole points fresh late ≡ some caught_up)
    × Represents whole points ahead
        (effects whole points (effects whole points (nothing whole points) early) late)
    × Represents whole points caught_up held
    × SameContents whole points
        (effects whole points (effects whole points (nothing whole points) early) late)
        held
restored_catches_up_example =
    restored_catches_up whole points plain true early late late
      ((refl, refl), (all_same (flight "b2" "DAL46" "ATL" ∷ []), tt)) (omega arith)

-- The store of two aircraft that the commands come to.
abbrev stocked :
    (s : ShardStore whole points) × (run whole points (empty whole points false) early ≡ some s)
    × Represents whole points s (effects whole points (nothing whole points) early)
stocked = run-new-Represents whole points false early (omega arith)

evict_vshard-Agrees_example :
    (s' : ShardStore whole points) × (removed : ℕ) × (m' : HashMap String (Doc whole points))
    × (evict_vshard whole points stocked.0 1 4 ≡ some (s', removed))
    × Agrees whole points s' m'
    × ((k : String) → get m' k ≡ (if leaves 1 4 k then none else get stocked.2.map k))
    × (removed ≡ weigh (tally (λ (d : Doc whole points). leaves 1 4 d.icao24)) stocked.2.map)
    × (slots_used whole points s' ≡ slots_used whole points stocked.0)
evict_vshard-Agrees_example =
    evict_vshard-Agrees whole points stocked.0 stocked.2.map stocked.2.agrees 1 4
