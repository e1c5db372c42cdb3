-- ===== src/Index/Histories.antt =====
-- The index after any history of insertions and removals, from empty on.
use aether_engine.Prelude.{
  ◌+◌, ◌^◌, ◌≤◌, ◌≡◌, refl, ◌∙◌, String, Bool, List, [], ◌∷◌, Option, none, some, string_eq, length,
  retain, arith,
}
use aether_engine.Prelude.HashMap
use aether_engine.Prelude.HashMap.{HashMap, weigh, weight}
use aether_engine.Filter.{FlightDocument}
use aether_engine.Index.{Analysis, InvertedIndex, new, insert, remove, documents, flatten}
use aether_engine.Index.Corpus.{weigh_slots}
use aether_engine.Index.Survivors.{Holds, new-Holds}
use aether_engine.Index.Insertion.{insert-Holds}
use aether_engine.Index.Removal.{remove-Holds}
use aether_engine.Index.Results.{tally}

pub data Change (Real : Type 0) : Type 0 where
  inserted : FlightDocument Real → Change Real
  removed : String → Change Real

-- The aircraft that were inserted last and not removed since.
abbrev pub survivors_from :
    {Real : Type 0}
    → HashMap String (FlightDocument Real)
    → List (Change Real)
    → HashMap String (FlightDocument Real)
survivors_from m [] = m
survivors_from m (inserted doc ∷ changes) = survivors_from (HashMap.insert m doc.icao24 doc) changes
survivors_from m (removed icao24 ∷ changes) = survivors_from (HashMap.remove m icao24) changes

abbrev pub survivors : {Real : Type 0} → List (Change Real) → HashMap String (FlightDocument Real)
survivors changes = survivors_from [] changes

module _ (a : Analysis) where
  open a use {Real}

  unfoldable pub run : InvertedIndex Real → List (Change Real) → Option (InvertedIndex Real)
  run idx [] = some idx
  run idx (inserted doc ∷ changes) = elim (insert a idx doc) [
    | none ↦ none
    | some idx' ↦ run idx' changes
  ]
  run idx (removed icao24 ∷ changes) = elim (remove a idx icao24) [
    | none ↦ none
    | some (idx', there) ↦ run idx' changes
  ]

  run_from-Holds :
      (changes : List (Change Real)) (idx : InvertedIndex Real)
      (m : HashMap String (FlightDocument Real))
      → Holds a idx m
      → length idx.docs + length changes ≤ 2 ^ 32
      → (idx' : InvertedIndex Real) × (run idx changes ≡ some idx')
        × Holds a idx' (survivors_from m changes)
  unfolding run
  run_from-Holds [] idx m h b = (idx, refl, h)
  run_from-Holds (inserted doc ∷ changes) idx m h b =
      let (idx1, e1, h1, grown) = insert-Holds a idx m h doc (omega (arith, b)) in
      let (idx', e, h') =
        run_from-Holds changes idx1 (HashMap.insert m doc.icao24 doc) h1
          (omega (arith, b, grown)) in
      (idx', ground (arith, e1, e), h')
  run_from-Holds (removed icao24 ∷ changes) idx m h b =
      let (idx1, e1, h1, same) = remove-Holds a idx m h icao24 in
      let (idx', e, h') =
        run_from-Holds changes idx1 (HashMap.remove m icao24) h1 (omega (arith, b, same)) in
      (idx', ground (arith, e1, e), h')

  -- No history of at most 2^32 insertions and removals panics, and the index that it leaves holds
  -- exactly the aircraft inserted last and not removed since: its keys, its postings and its lengths are
  -- those of that map, and its free list names each slot without a document, once.
  pub run-Holds :
      (changes : List (Change Real))
      → length changes ≤ 2 ^ 32
      → (idx : InvertedIndex Real) × (run (new a) changes ≡ some idx)
        × Holds a idx (survivors changes)
  run-Holds changes b =
      run_from-Holds changes (new a) [] (new-Holds a) (unfold new in omega (arith, b))

  pub length-retain-flatten :
      (p : FlightDocument Real → Bool) (docs : List (Option (FlightDocument Real)))
      → length (retain p (flatten docs)) ≡ weigh_slots (tally p) docs
  unfolding retain flatten weigh_slots
  length-retain-flatten p [] = refl
  length-retain-flatten p (none ∷ docs) = omega (arith, length-retain-flatten p docs)
  length-retain-flatten p (some d ∷ docs) = ground (arith, length-retain-flatten p docs)

  -- The documents that a snapshot takes are the survivors: of any kind, there are as many.
  pub documents-survivors :
      (changes : List (Change Real)) (p : FlightDocument Real → Bool)
      → length changes ≤ 2 ^ 32
      → (idx : InvertedIndex Real) × (run (new a) changes ≡ some idx)
        × (length (retain p (documents a idx)) ≡ weigh (tally p) (survivors changes))
  documents-survivors changes p b =
      let (idx, e, h) = run-Holds changes b in
      (idx, e, unfold documents in length-retain-flatten p idx.docs ∙ h.stocked (tally p))
