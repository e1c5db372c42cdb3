-- ===== src/Index/Rows.antt =====
-- The slots and the keys that point to them, against the map of the aircraft that they hold.
use aether_engine.Prelude.{
  ℕ, ◌<◌, ◌≡◌, refl, ap, String, true, false, List, [], ◌∷◌, ◌++◌, Option, none, some,
  if◌then◌else◌, nat_eq, string_eq, ◌==◌, arith, Option-cases, Bool-cases, inl, inr, length, set,
  suc, zero,
}
use aether_engine.Prelude.HashMap
use aether_engine.Prelude.HashMap.{HashMap, get, get-insert, get-remove, get_same}
use aether_engine.Index.{slot}

module _ {D : Type 0} where
  pub slot-set :
      (docs : List (Option D)) (i j : ℕ) (x : Option D)
      → i < length docs
      → slot (set docs i x) j ≡ (if i == j then x else slot docs j)
  unfolding slot
  slot-set [] i j x h = elim h [ ]
  slot-set (d ∷ docs) zero zero x h = refl
  slot-set (d ∷ docs) zero (suc j) x h = ground arith
  slot-set (d ∷ docs) (suc i) zero x h = ground arith
  slot-set (d ∷ docs) (suc i) (suc j) x h = ground (arith, slot-set docs i j x)

  pub slot-append :
      (docs : List (Option D)) (j : ℕ) (x : Option D)
      → slot (docs ++ x ∷ []) j ≡ (if length docs == j then x else slot docs j)
  unfolding slot
  slot-append [] zero x = refl
  slot-append [] (suc j) x = ground arith
  slot-append (d ∷ docs) zero x = ground arith
  slot-append (d ∷ docs) (suc j) x = ground (arith, slot-append docs j x)

  pub slot_past : (docs : List (Option D)) → slot docs (length docs) ≡ none
  unfolding slot
  slot_past [] = refl
  slot_past (x ∷ docs) = slot_past docs

  pub slot-lt-length :
      (docs : List (Option D)) (i : ℕ) (d : D) → slot docs i ≡ some d → i < length docs
  unfolding slot
  slot-lt-length [] i d h = cc h
  slot-lt-length (x ∷ docs) zero d h = omega arith
  slot-lt-length (x ∷ docs) (suc i) d h = omega (arith, slot-lt-length docs i d h)

  -- The document that a key leads to.
  abbrev pub find_doc : List (Option D) → HashMap String ℕ → String → Option D
  find_doc docs by_key icao24 = elim (get by_key icao24) [ none ↦ none | some i ↦ slot docs i ]

  pub record Rows (key : D → String) (docs : List (Option D)) (by_key : HashMap String ℕ)
      (m : HashMap String D) : Type 0 where
    pub reads : (k : String) → find_doc docs by_key k ≡ get m k
    pub keyed : (i : ℕ) (d : D) → slot docs i ≡ some d → get by_key (key d) ≡ some i
    pub lived :
        (k : String) (i : ℕ)
        → get by_key k ≡ some i
        → (d : D) × (slot docs i ≡ some d) × (key d ≡ k)
    pub named : (k : String) (d : D) → get m k ≡ some d → key d ≡ k

module _ {D : Type 0} {key : D → String} {docs : List (Option D)} {by_key : HashMap String ℕ}
    {m : HashMap String D} (r : Rows key docs by_key m) where
  pub found : (k : String) (i : ℕ) → get by_key k ≡ some i → slot docs i ≡ get m k
  found k i h = ground (arith, r.reads k)

  same_slot : (i j : ℕ) → (i == j) ≡ true → slot docs i ≡ slot docs j
  same_slot i j h = ap (slot docs) ((nat_eq.same_iff i j).0 h)

  -- A document written to the slot that its key points to, or to an empty one if it has none.
  module _ (docs' : List (Option D)) (by_key' : HashMap String ℕ) (id : ℕ) (doc : D)
      (s : (j : ℕ) → slot docs' j ≡ (if id == j then some doc else slot docs j))
      (b : (k : String) → get by_key' k ≡ (if key doc == k then some id else get by_key k))
      (c : slot docs id ≡ get m (key doc)) where
    -- The slot is no other aircraft's.
    own_slot :
        (k : String) (i : ℕ) (d : D)
        → slot docs i ≡ some d
        → key d ≡ k
        → (key doc == k) ≡ false
        → (id == i) ≡ false
    own_slot k i d h e n =
        ground (arith, r.named (key doc) d, string_eq.same_iff (key doc) k, same_slot id i)

    put-reads : (k : String) → find_doc docs' by_key' k ≡ get (HashMap.insert m (key doc) doc) k
    put-reads k = elim (Option-cases (get by_key k)) [
      | inl e ↦ ground (arith, b k, s id, get-insert m (key doc) k doc, r.reads k)
      | inr (i, e) ↦
          let (d, h, n) = r.lived k i e in
          ground
            (arith, b k, s id, s i, get-insert m (key doc) k doc, r.reads k, own_slot k i d h n)
    ]

    put-keyed : (i : ℕ) (d : D) → slot docs' i ≡ some d → get by_key' (key d) ≡ some i
    put-keyed i d h = elim (Bool-cases (id == i)) [
      | inl same ↦
          ground
            (arith, s i, b (key d), nat_eq.same_iff id i, string_eq.same_iff (key doc) (key doc))
      | inr other ↦
          let at : slot docs i ≡ some d = ground (arith, s i) in
          let points = r.keyed i d at in
          ground (
            arith,
            b (key d),
            found (key d) i points,
            get_same m (key doc) (key d),
            r.keyed id d,
            nat_eq.same_iff id i,
          )
    ]

    put-lived :
        (k : String) (i : ℕ)
        → get by_key' k ≡ some i
        → (d : D) × (slot docs' i ≡ some d) × (key d ≡ k)
    put-lived k i h = elim (Bool-cases (key doc == k)) [
      | inl same ↦ (doc, ground (arith, b k, s i), (string_eq.same_iff (key doc) k).0 same)
      | inr other ↦
          let e : get by_key k ≡ some i = ground (arith, b k) in
          let (d, at, n) = r.lived k i e in (d, ground (arith, s i, own_slot k i d at n), n)
    ]

    put-named : (k : String) (d : D) → get (HashMap.insert m (key doc) doc) k ≡ some d → key d ≡ k
    put-named k d h =
        ground (arith, get-insert m (key doc) k doc, r.named k d, string_eq.same_iff (key doc) k)

    pub put-Rows : Rows key docs' by_key' (HashMap.insert m (key doc) doc)
    put-Rows = record { reads = put-reads; keyed = put-keyed; lived = put-lived; named = put-named }

  -- The slot that a key points to, cleared with the key.
  module _ (docs' : List (Option D)) (by_key' : HashMap String ℕ) (id : ℕ) (name : String)
      (s : (j : ℕ) → slot docs' j ≡ (if id == j then none else slot docs j))
      (b : (k : String) → get by_key' k ≡ (if name == k then none else get by_key k))
      (p : get by_key name ≡ some id) where
    -- The slot is no other aircraft's.
    kept_slot :
        (k : String) (i : ℕ) → get by_key k ≡ some i → (name == k) ≡ false → (id == i) ≡ false
    kept_slot k i e n =
        let (d, at, own) = r.lived name id p in
        let (d', at', own') = r.lived k i e in
        ground (arith, same_slot id i, string_eq.same_iff name k)

    clear-reads : (k : String) → find_doc docs' by_key' k ≡ get (HashMap.remove m name) k
    clear-reads k = elim (Option-cases (get by_key k)) [
      | inl e ↦ ground (arith, b k, get-remove m name k, r.reads k)
      | inr (i, e) ↦ ground (arith, b k, s i, get-remove m name k, r.reads k, kept_slot k i e)
    ]

    clear-keyed : (i : ℕ) (d : D) → slot docs' i ≡ some d → get by_key' (key d) ≡ some i
    clear-keyed i d h =
        let at : slot docs i ≡ some d = ground (arith, s i) in
        let points = r.keyed i d at in
        ground (arith, s i, b (key d), get_same by_key name (key d), nat_eq.same_iff id i)

    clear-lived :
        (k : String) (i : ℕ)
        → get by_key' k ≡ some i
        → (d : D) × (slot docs' i ≡ some d) × (key d ≡ k)
    clear-lived k i h =
        let e : get by_key k ≡ some i = ground (arith, b k) in
        let (d, at, n) = r.lived k i e in (d, ground (arith, s i, b k, kept_slot k i e), n)

    clear-named : (k : String) (d : D) → get (HashMap.remove m name) k ≡ some d → key d ≡ k
    clear-named k d h = ground (arith, get-remove m name k, r.named k d)

    pub clear-Rows : Rows key docs' by_key' (HashMap.remove m name)
    clear-Rows = record {
      reads = clear-reads;
      keyed = clear-keyed;
      lived = clear-lived;
      named = clear-named;
    }
