-- ===== src/Store/Agreement.antt =====
-- The two indexes of a shard hold the same aircraft.
use aether_engine.Prelude.{
  ℕ, ◌+◌, ◌^◌, ◌<◌, ◌≤◌, ◌≡◌, refl, ◌∙◌, String, Bool, List, [], ◌∷◌, some, is_some, string_eq,
  length, arith,
}
use aether_engine.Prelude.HashMap
use aether_engine.Prelude.HashMap.{HashMap, get, get-remove, get_same}
use aether_engine.Index.{Analysis}
use aether_engine.Index.Gather.{collect}
use aether_engine.Index.Survivors as Words
use aether_engine.Index.Insertion.{insert-Holds}
use aether_engine.Index.Removal.{remove-Holds}
use aether_engine.Vectors as Vectors
use aether_engine.Vectors.{Space}
use aether_engine.Vectors.Survivors as Meanings
use aether_engine.Vectors.Insertion as Placing
use aether_engine.Vectors.Removal as Removal
use aether_engine.Store.{
  Doc, ShardStore, new, with_quantized, insert, insert_all, remove, remove_all,
}

module _ (a : Analysis) (space : Space a.Real) where
  -- Both indexes hold exactly the aircraft of the map.
  pub record Agrees (s : ShardStore a space) (m : HashMap String (Doc a space)) : Type 0 where
    pub keyword : Words.Holds a s.keyword m
    pub vector : Meanings.Holds space s.vector m

  -- How many slots the keyword index has: its document ids are `u32`.
  abbrev pub slots_used : ShardStore a space → ℕ
  slots_used s = length s.keyword.docs

  abbrev pub key_of : Doc a space → String
  key_of d = d.icao24

  pub new-Agrees : (on : Bool) → Agrees (with_quantized a space (new a space) on) []
  unfolding new with_quantized Vectors.set_quantized
  new-Agrees on = record { keyword = Words.new-Holds a; vector = Meanings.new-Holds space on }

  module _ (s : ShardStore a space) (m : HashMap String (Doc a space)) (h : Agrees s m) where
    pub insert-Agrees :
        (doc : Doc a space)
        → slots_used s < 2 ^ 32
        → (s' : ShardStore a space) × (insert a space s doc ≡ some s')
          × Agrees s' (HashMap.insert m doc.icao24 doc)
          × (slots_used s' ≤ slots_used s + 1)
    unfolding insert
    insert-Agrees doc small =
        let (keyword, ek, hk, grown) = insert-Holds a s.keyword m h.keyword doc small in
        let (vector, ev, hv) = Placing.insert-Holds space s.vector m h.vector doc in
        (
          record { keyword = keyword; vector = vector },
          ground (arith, ek, ev),
          record { keyword = hk; vector = hv },
          grown,
        )

    pub remove-Agrees :
        (icao24 : String)
        → (s' : ShardStore a space) × (remove a space s icao24 ≡ some (s', is_some (get m icao24)))
          × Agrees s' (HashMap.remove m icao24)
          × (slots_used s' ≡ slots_used s)
    unfolding remove
    remove-Agrees icao24 =
        let (keyword, ek, hk, same) = remove-Holds a s.keyword m h.keyword icao24 in
        let (vector, ev, hv) = Removal.remove-Holds space s.vector m h.vector icao24 in
        (
          record { keyword = keyword; vector = vector },
          ground (arith, ek, ev),
          record { keyword = hk; vector = hv },
          same,
        )

  pub insert_all-Agrees :
      (docs : List (Doc a space)) (s : ShardStore a space) (m : HashMap String (Doc a space))
      → Agrees s m
      → slots_used s + length docs ≤ 2 ^ 32
      → (s' : ShardStore a space) × (insert_all a space s docs ≡ some s')
        × Agrees s' (collect key_of m docs)
        × (slots_used s' ≤ slots_used s + length docs)
  unfolding insert_all
  insert_all-Agrees [] s m h b = (s, refl, h, omega arith)
  insert_all-Agrees (d ∷ docs) s m h b =
      let (s1, e1, h1, grown) = insert-Agrees s m h d (omega (arith, b)) in
      let (s', e, h', more) =
        insert_all-Agrees docs s1 (HashMap.insert m d.icao24 d) h1 (omega (arith, b, grown)) in
      (s', ground (arith, e1, e), h', omega (arith, grown, more))

  -- The map without some names.
  abbrev pub strip : HashMap String (Doc a space) → List String → HashMap String (Doc a space)
  strip m [] = m
  strip m (n ∷ names) = strip (HashMap.remove m n) names

  pub remove_all-Agrees :
      (names : List String) (s : ShardStore a space) (m : HashMap String (Doc a space))
      → Agrees s m
      → (s' : ShardStore a space) × (remove_all a space s names ≡ some s')
        × Agrees s' (strip m names)
        × (slots_used s' ≡ slots_used s)
  unfolding remove_all
  remove_all-Agrees [] s m h = (s, refl, h, refl)
  remove_all-Agrees (n ∷ names) s m h =
      let (s1, e1, h1, same) = remove-Agrees s m h n in
      let (s', e, h', kept) = remove_all-Agrees names s1 (HashMap.remove m n) h1 in
      (s', ground (arith, e1, e), h', kept ∙ same)
