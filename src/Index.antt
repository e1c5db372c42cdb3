-- ===== src/Index.antt =====
-- crates/shard-node/src/index.rs: the inverted index of a shard.
pub mod Postings
pub mod Rows
pub mod Gather
pub mod Frequencies
pub mod Corpus
pub mod Survivors
pub mod Insertion
pub mod Removal
pub mod Search
pub mod Ranked
pub mod Results
pub mod Histories
pub mod Tests
use aether_engine.Prelude.{
  ℕ, ◌+◌, ◌-◌, ◌%◌, ◌^◌, String, Bool, true, false, not, ◌&&◌, List, [], ◌∷◌, ◌++◌, map, Option,
  none, some, if◌then◌else◌, unwrap_or, nat_eq, string_eq, list_eq, ◌==◌, ltb, length, get_elem?,
  set, take, is_empty, retain,
}
use aether_engine.Prelude.HashMap
use aether_engine.Prelude.HashMap.{HashMap}
use aether_engine.Prelude.HashSet.{contains}
use aether_engine.Prelude.Sort.{sort}
use aether_engine.Registry.State.{string_le}
use aether_engine.Filter.{FlightDocument}
use aether_engine.Tokens.{Letters, Term, tokenize}

-- What the index takes from elsewhere: the Unicode tables, `f64` with its operations, and the two
-- parameters that the environment sets (`bm25_params`).
pub record Analysis : Type 1 where
  pub letters : Letters
  pub Real : Type 0
  pub of_nat : ℕ → Real
  pub half : Real
  pub add : Real → Real → Real
  pub sub : Real → Real → Real
  pub mul : Real → Real → Real
  pub div : Real → Real → Real
  pub ln : Real → Real
  pub max : Real → Real → Real
  pub exceeds : Real → Real → Bool
  pub k1 : Real
  pub b : Real

-- The document's id and the frequency of the term in it.
abbrev pub Posting : Type 0
Posting = ℕ × ℕ

-- The free list has the slot that was retired last at its head.
pub record InvertedIndex (Real : Type 0) : Type 0 where
  pub docs : List (Option (FlightDocument Real))
  pub postings : HashMap Term (List Posting)
  pub by_key : HashMap String ℕ
  pub free : List ℕ
  pub doc_len : List ℕ
  pub total_len : ℕ

pub record ScoredHit (Real : Type 0) : Type 0 where
  pub doc : FlightDocument Real
  pub score : Real

pub record SearchResults (Real : Type 0) : Type 0 where
  pub total_matched : ℕ
  pub hits : List (ScoredHit Real)

-- The document in a slot: none if the slot is retired or there is no such slot.
unfoldable pub slot : {D : Type 0} → List (Option D) → ℕ → Option D
slot docs i = elim (get_elem? docs i) [ some doc ↦ doc | none ↦ none ]

-- `iter().flatten()`.
unfoldable pub flatten : {D : Type 0} → List (Option D) → List D
flatten [] = []
flatten (none ∷ docs) = flatten docs
flatten (some doc ∷ docs) = doc ∷ flatten docs

unfoldable pub count_tokens : HashMap Term ℕ → List Term → HashMap Term ℕ
count_tokens freqs [] = freqs
count_tokens freqs (token ∷ tokens) =
    count_tokens (HashMap.insert freqs token ((unwrap_or (HashMap.get freqs token) 0 + 1) % 2 ^ 32))
      tokens

unfoldable pub sum_freqs : HashMap Term ℕ → ℕ
sum_freqs [] = 0
sum_freqs ((term, term_freq) ∷ freqs) = term_freq + sum_freqs freqs

-- The list that a term has in the map.
abbrev pub list_of : HashMap Term (List Posting) → Term → List Posting
list_of postings term = unwrap_or (HashMap.get postings term) []

-- One round of `remove_postings`.
unfoldable pub drop_posting : HashMap Term (List Posting) → ℕ → Term → HashMap Term (List Posting)
unfolding retain
drop_posting postings doc_id term = elim (HashMap.get postings term) [
  | none ↦ postings
  | some list ↦
      let kept = retain (λ p. not (p.0 == doc_id)) list in
      if is_empty kept then HashMap.remove postings term else HashMap.insert postings term kept
]

unfoldable pub drop_postings :
    HashMap Term (List Posting) → ℕ → HashMap Term ℕ → HashMap Term (List Posting)
unfolding drop_posting
drop_postings postings doc_id [] = postings
drop_postings postings doc_id ((term, term_freq) ∷ freqs) =
    drop_postings (drop_posting postings doc_id term) doc_id freqs

-- The loop that ends both branches of `insert`.
unfoldable pub push_postings :
    HashMap Term (List Posting) → ℕ → HashMap Term ℕ → HashMap Term (List Posting)
push_postings postings doc_id [] = postings
push_postings postings doc_id ((term, term_freq) ∷ freqs) =
    push_postings (HashMap.insert postings term (list_of postings term ++ (doc_id, term_freq) ∷ []))
      doc_id freqs

module _ (a : Analysis) where
  open a use {Real, letters}

  unfoldable pub new : InvertedIndex Real
  new = record { docs = []; postings = []; by_key = []; free = []; doc_len = []; total_len = 0 }

  unfoldable pub len : InvertedIndex Real → ℕ
  len idx = length idx.by_key

  unfoldable pub documents : InvertedIndex Real → List (FlightDocument Real)
  unfolding flatten
  documents idx = flatten idx.docs

  -- The second loop of `term_freqs`, over the connector's texts.
  unfoldable pub count_texts : HashMap Term ℕ → HashMap String String → HashMap Term ℕ
  unfolding count_tokens
  count_texts freqs [] = freqs
  count_texts freqs ((field, value) ∷ texts) =
      count_texts (count_tokens freqs (tokenize letters value)) texts

  unfoldable pub count_fields : HashMap Term ℕ → List String → HashMap Term ℕ
  unfolding count_tokens
  count_fields freqs [] = freqs
  count_fields freqs (field ∷ fields) =
      count_fields (count_tokens freqs (tokenize letters field)) fields

  unfoldable pub term_freqs : FlightDocument Real → HashMap Term ℕ
  unfolding count_fields count_texts
  term_freqs doc =
      count_texts
        (count_fields [] (doc.callsign ∷ doc.origin ∷ doc.destination ∷ doc.aircraft_type ∷ []))
        doc.text

  unfoldable pub doc_length : FlightDocument Real → ℕ
  unfolding sum_freqs
  doc_length doc = sum_freqs (term_freqs doc) % 2 ^ 32

  unfoldable pub remove_postings :
      HashMap Term (List Posting) → ℕ → FlightDocument Real → HashMap Term (List Posting)
  unfolding drop_postings
  remove_postings postings doc_id doc = drop_postings postings doc_id (term_freqs doc)

  unfoldable pub add_postings :
      HashMap Term (List Posting) → ℕ → FlightDocument Real → HashMap Term (List Posting)
  unfolding push_postings
  add_postings postings doc_id doc = push_postings postings doc_id (term_freqs doc)

  -- A re-observed aircraft; `none` is a panic, as in all that follows.
  unfoldable pub replace :
      InvertedIndex Real → ℕ → FlightDocument Real → Option (InvertedIndex Real)
  unfolding remove_postings add_postings
  replace idx doc_id doc = elim (slot idx.docs doc_id) [
    | none ↦ none
    | some old ↦ elim (get_elem? idx.doc_len doc_id) [
      | none ↦ none
      | some old_len ↦
          let new_len = doc_length doc in
          some (record idx {
            docs = set idx.docs doc_id (some doc);
            postings = add_postings (remove_postings idx.postings doc_id old) doc_id doc;
            doc_len = set idx.doc_len doc_id new_len;
            total_len = (idx.total_len + (2 ^ 64 - old_len) + new_len) % 2 ^ 64;
          })
    ]
  ]

  -- What `insert` does for a new aircraft once it has a slot.
  unfoldable pub admit : InvertedIndex Real → ℕ → FlightDocument Real → InvertedIndex Real
  unfolding add_postings
  admit idx doc_id doc = record idx {
    postings = add_postings idx.postings doc_id doc;
    by_key = HashMap.insert idx.by_key doc.icao24 doc_id;
    total_len = (idx.total_len + doc_length doc) % 2 ^ 64;
  }

  unfoldable pub insert : InvertedIndex Real → FlightDocument Real → Option (InvertedIndex Real)
  unfolding replace admit
  insert idx doc = elim (HashMap.get idx.by_key doc.icao24) [
    | some doc_id ↦ replace idx doc_id doc
    | none ↦ elim idx.free [
      | id ∷ free ↦
          if ltb id (length idx.docs) && ltb id (length idx.doc_len)
          then some (
              admit
                (record idx {
                  docs = set idx.docs id (some doc);
                  doc_len = set idx.doc_len id (doc_length doc);
                  free = free;
                })
                id doc)
          else none
      | [] ↦ some (
          admit
            (record idx {
              docs = idx.docs ++ some doc ∷ [];
              doc_len = idx.doc_len ++ doc_length doc ∷ [];
            })
            (length idx.docs % 2 ^ 32) doc)
    ]
  ]

  unfoldable pub remove : InvertedIndex Real → String → Option (InvertedIndex Real × Bool)
  unfolding remove_postings
  remove idx icao24 = elim (HashMap.get idx.by_key icao24) [
    | none ↦ some (idx, false)
    | some doc_id ↦ elim (slot idx.docs doc_id) [
      | none ↦ none
      | some doc ↦ elim (get_elem? idx.doc_len doc_id) [
        | none ↦ none
        | some old_len ↦ some (
          record {
            docs = set idx.docs doc_id none;
            postings = remove_postings idx.postings doc_id doc;
            by_key = HashMap.remove idx.by_key icao24;
            free = doc_id ∷ idx.free;
            doc_len = set idx.doc_len doc_id 0;
            total_len = (idx.total_len + (2 ^ 64 - old_len)) % 2 ^ 64;
          },
          true,
        )
      ]
    ]
  ]
