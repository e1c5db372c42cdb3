-- ===== src/Store.antt =====
-- crates/shard-node/src/store.rs, the two indexes of a shard together, and the application that
-- crates/shard-node/src/raft/mod.rs makes of it (ShardApp). `none` is a panic; a failed `debug_assert`
-- is one.
pub mod Agreement
pub mod Eviction
pub mod Contents
pub mod Members
pub mod Tests
use aether_engine.Prelude.{
  ℕ, ◌%◌, ◌^◌, ◌≡◌, String, Bool, not, List, [], ◌∷◌, map, Option, none, some, unwrap_or,
  if◌then◌else◌, nat_eq, ◌==◌, length, retain, all,
}
use mathlib.Core.List.{Perm}
use aether_engine.Prelude.Text.{codes}
use aether_engine.Filter.{FlightDocument}
use aether_engine.Shard.{vshard_for}
use aether_engine.Index as Index
use aether_engine.Index.{Analysis, InvertedIndex, SearchResults, ScoredHit}
use aether_engine.Index.Search as Ranked
use aether_engine.Vectors as Vectors
use aether_engine.Vectors.{Space, VectorIndex}

-- `ShardCommand`; `unset` is a command whose kind is not set.
pub data ShardCommand (Doc : Type 0) : Type 0 where
  batch : List Doc → ShardCommand Doc
  evict : ℕ → ℕ → ShardCommand Doc
  unset : ShardCommand Doc

-- Equal messages: their maps are equal as maps, whose entries can come in another order.
abbrev pub SameMessage : {Real : Type 0} → FlightDocument Real → FlightDocument Real → Type 0
SameMessage d e =
    (record d { text = []; number = [] } ≡ record e { text = []; number = [] })
    × Perm d.text e.text
    × Perm d.number e.number

abbrev pub SameMessages :
    {Real : Type 0} → List (FlightDocument Real) → List (FlightDocument Real) → Type 0
SameMessages [] [] = Unit
SameMessages [] (e ∷ es) = ⊥
SameMessages (d ∷ ds) [] = ⊥
SameMessages (d ∷ ds) (e ∷ es) = SameMessage d e × SameMessages ds es

-- `prost`, for the two messages: what was encoded decodes to an equal message.
pub record Prost (Real : Type 0) : Type 1 where
  pub Bytes : Type 0
  pub decode_command : Bytes → Option (ShardCommand (FlightDocument Real))
  pub encode_documents : List (FlightDocument Real) → Bytes
  pub decode_documents : Bytes → Option (List (FlightDocument Real))
  pub decode_encode :
      (docs : List (FlightDocument Real))
      → (docs' : List (FlightDocument Real)) × (decode_documents (encode_documents docs)
          ≡ some docs')
        × SameMessages docs docs'

module _ (a : Analysis) (space : Space a.Real) where
  abbrev pub Doc : Type 0
  Doc = FlightDocument a.Real

  pub record ShardStore : Type 0 where
    pub keyword : InvertedIndex a.Real
    pub vector : VectorIndex space

  unfoldable pub new : ShardStore
  new = record { keyword = Index.new a; vector = Vectors.new space }

  unfoldable pub documents : ShardStore → List Doc
  documents s = Index.documents a s.keyword

  unfoldable pub with_quantized : ShardStore → Bool → ShardStore
  with_quantized s on = record s { vector = Vectors.set_quantized space s.vector on }

  unfoldable pub insert : ShardStore → Doc → Option ShardStore
  insert s doc = elim (Vectors.insert space s.vector doc) [
    | none ↦ none
    | some vector ↦ elim (Index.insert a s.keyword doc) [
      | none ↦ none
      | some keyword ↦ some (record { keyword = keyword; vector = vector })
    ]
  ]

  unfoldable pub insert_all : ShardStore → List Doc → Option ShardStore
  insert_all s [] = some s
  insert_all s (doc ∷ docs) = elim (insert s doc) [ none ↦ none | some s' ↦ insert_all s' docs ]

  unfoldable pub replace_all : List Doc → Option ShardStore
  unfolding insert_all new
  replace_all docs = insert_all new docs

  unfoldable pub remove : ShardStore → String → Option (ShardStore × Bool)
  remove s icao24 = elim (Index.remove a s.keyword icao24) [
    | none ↦ none
    | some (keyword, k) ↦ elim (Vectors.remove space s.vector icao24) [
      | none ↦ none
      | some (vector, v) ↦
          if (if k then v else not v)
          then some (record { keyword = keyword; vector = vector }, k)
          else none
    ]
  ]

  unfoldable pub remove_all : ShardStore → List String → Option ShardStore
  remove_all s [] = some s
  remove_all s (icao24 ∷ names) = elim (remove s icao24) [
    | none ↦ none
    | some (s', there) ↦ remove_all s' names
  ]

  -- The names of the documents that hash to the virtual shard.
  unfoldable pub doomed : List Doc → ℕ → ℕ → List String
  unfolding retain
  doomed docs vshard v = map (λ d. d.icao24) (retain (λ d. vshard_for d.icao24 v == vshard) docs)

  unfoldable pub evict_vshard : ShardStore → ℕ → ℕ → Option (ShardStore × ℕ)
  unfolding remove_all doomed
  evict_vshard s vshard v =
      if v == 0
      then some (s, 0)
      else let names = doomed (documents s) vshard v in
        elim (remove_all s names) [ none ↦ none | some s' ↦ some (s', length names) ]

  unfoldable pub search : ShardStore → String → ℕ → Option (SearchResults a.Real)
  search s query limit = Ranked.search a s.keyword query limit

  -- The documents that a query matches: all of them if it is blank.
  unfoldable pub matching : ShardStore → String → Option (List Doc)
  matching s query =
      if all a.letters.is_whitespace (codes query)
      then some (documents s)
      else elim (search s query 0) [ none ↦ none | some r ↦ some (map (λ hit. hit.doc) r.hits) ]

  unfoldable pub len : ShardStore → ℕ
  len s = Index.len a s.keyword

  -- `ShardApp::apply` behind the decoding: the store, and the count that raft answers with.
  unfoldable pub apply_command : ShardStore → ShardCommand Doc → Option (ShardStore × ℕ)
  unfolding insert_all evict_vshard
  apply_command s (batch docs) = elim (insert_all s docs) [
    | none ↦ none
    | some s' ↦ some (s', length docs % 2 ^ 32)
  ]
  apply_command s (evict vshard v) = elim (evict_vshard s vshard v) [
    | none ↦ none
    | some (s', removed) ↦ some (s', removed % 2 ^ 32)
  ]
  apply_command s unset = some (s, 0)

  module _ (prost : Prost a.Real) where
    open prost use {Bytes, decode_command, encode_documents, decode_documents}

    unfoldable pub apply : ShardStore → Bytes → Option (ShardStore × ℕ)
    unfolding apply_command
    apply s payload = apply_command s (unwrap_or (decode_command payload) unset)

    unfoldable pub snapshot_bytes : ShardStore → Bytes
    unfolding documents
    snapshot_bytes s = encode_documents (documents s)

    -- What stood in the store before is left behind.
    unfoldable pub restore : Bytes → Option (ShardStore × ℕ)
    unfolding replace_all
    restore bytes =
        let docs = unwrap_or (decode_documents bytes) [] in
        elim (replace_all docs) [ none ↦ none | some s' ↦ some (s', length docs % 2 ^ 32) ]
