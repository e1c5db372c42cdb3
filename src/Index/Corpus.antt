-- ===== src/Index/Corpus.antt =====
-- The postings, the lengths and the free list, against the map of the aircraft that are indexed.
use aether_engine.Prelude.{
  ℕ, zero, suc, ◌+◌, ◌%◌, ◌^◌, ◌<◌, ◌≤◌, ◌≡◌, ◌≢◌, refl, ap, String, true, false, List, [], ◌∷◌,
  ◌++◌, Option, none, some, if◌then◌else◌, is_some, nat_eq, string_eq, list_eq, ◌==◌, length,
  get_elem?, set, arith, Bool-cases, inl, inr, length-append,
}
use aether_engine.Prelude.HashMap
use aether_engine.Prelude.HashMap.{
  HashMap, get, get-insert, get-remove, Distinct, remove-Distinct, length-remove, weigh, weight,
  weigh-insert, weigh-remove, insert-Distinct,
}
use aether_engine.Prelude.HashSet.{contains}
use aether_engine.Filter.{FlightDocument}
use aether_engine.Tokens.{Term}
use aether_engine.Index.{Analysis, Posting, slot, list_of, term_freqs, doc_length}
use aether_engine.Index.Postings.{entry, get-append_entry, append_entry-Distinct}

length-entry : (id : ℕ) (o : Option ℕ) → length (entry id o) ≡ (if is_some o then 1 else 0)
length-entry id none = refl
length-entry id (some f) = refl

module _ (a : Analysis) where
  open a use {Real}

  -- The frequency of a term in the document of a slot.
  abbrev pub freq_at : List (Option (FlightDocument Real)) → ℕ → Term → Option ℕ
  freq_at docs i t = elim (slot docs i) [ none ↦ none | some d ↦ get (term_freqs a d) t ]

  abbrev pub mentions : Term → FlightDocument Real → ℕ
  mentions t d = if is_some (get (term_freqs a d) t) then 1 else 0

  pub record Listed (docs : List (Option (FlightDocument Real))) (ps : HashMap Term (List Posting))
      (m : HashMap String (FlightDocument Real)) : Type 0 where
    pub listed : (t : Term) (i : ℕ) → get (list_of ps t) i ≡ freq_at docs i t
    pub once : (t : Term) → Distinct (list_of ps t)
    pub df : (t : Term) → length (list_of ps t) ≡ weigh (mentions t) m

  module _ {docs : List (Option (FlightDocument Real))} {ps : HashMap Term (List Posting)}
      {m : HashMap String (FlightDocument Real)} (l : Listed docs ps m) (id : ℕ) (k : String)
      (c : slot docs id ≡ get m k) (docs' : List (Option (FlightDocument Real)))
      (ps' : HashMap Term (List Posting)) where
    length-cleared :
        (t : Term)
        → length (HashMap.remove (list_of ps t) id) + weight (mentions t) (get m k)
          ≡ weigh (mentions t) m
    length-cleared t =
        ground (arith, length-remove (list_of ps t) id (l.once t), l.listed t id, l.df t, c)

    pub clear-Listed :
        ((j : ℕ) → slot docs' j ≡ (if id == j then none else slot docs j))
        → ((t : Term) → list_of ps' t ≡ HashMap.remove (list_of ps t) id)
        → Distinct m
        → Listed docs' ps' (HashMap.remove m k)
    clear-Listed s e d = record {
      listed = λ t i. ground (arith, e t, get-remove (list_of ps t) id i, s i, l.listed t i);
      once = λ t. ground (arith, e t, remove-Distinct (list_of ps t) id (l.once t));
      df = λ t. ground (arith, e t, length-cleared t, weigh-remove (mentions t) m k d);
    }

    pub put-Listed :
        (doc : FlightDocument Real)
        → ((j : ℕ) → slot docs' j ≡ (if id == j then some doc else slot docs j))
        → ((t : Term)
            → list_of ps' t
              ≡ HashMap.remove (list_of ps t) id ++ entry id (get (term_freqs a doc) t))
        → Listed docs' ps' (HashMap.insert m k doc)
    put-Listed doc s e = record {
      listed = λ t i. ground (
        arith,
        e t,
        get-remove (list_of ps t) id id,
        get-remove (list_of ps t) id i,
        get-append_entry (HashMap.remove (list_of ps t) id) id i (get (term_freqs a doc) t),
        s i,
        l.listed t i,
      );
      once = λ t. ground (
        arith,
        e t,
        get-remove (list_of ps t) id id,
        remove-Distinct (list_of ps t) id (l.once t),
        append_entry-Distinct (HashMap.remove (list_of ps t) id) id (get (term_freqs a doc) t),
      );
      df = λ t. ground (
        arith,
        e t,
        length-append (HashMap.remove (list_of ps t) id) (entry id (get (term_freqs a doc) t)),
        length-entry id (get (term_freqs a doc) t),
        length-cleared t,
        weigh-insert (mentions t) m k doc,
      );
    }

  pub record Sized (docs : List (Option (FlightDocument Real))) (doc_len : List ℕ) (total : ℕ)
      (m : HashMap String (FlightDocument Real)) : Type 0 where
    pub lens :
        (i : ℕ) (d : FlightDocument Real)
        → slot docs i ≡ some d
        → get_elem? doc_len i ≡ some (doc_length a d)
    pub aligned : length doc_len ≡ length docs
    pub summed : total ≡ weigh (doc_length a) m % 2 ^ 64

  pub doc_length_lt : (d : FlightDocument Real) → doc_length a d < 2 ^ 32
  unfolding doc_length
  doc_length_lt d = omega arith

  module _ {docs : List (Option (FlightDocument Real))} {doc_len : List ℕ} {total : ℕ}
      {m : HashMap String (FlightDocument Real)} (z : Sized docs doc_len total m) (id : ℕ)
      (k : String) (docs' : List (Option (FlightDocument Real))) (doc_len' : List ℕ) (total' : ℕ)
      (same : length doc_len' ≡ length docs') (small : total' < 2 ^ 64) where
    pub put-Sized :
        (doc : FlightDocument Real)
        → ((j : ℕ) → slot docs' j ≡ (if id == j then some doc else slot docs j))
        → ((j : ℕ) → id ≢ j → get_elem? doc_len' j ≡ get_elem? doc_len j)
        → get_elem? doc_len' id ≡ some (doc_length a doc)
        → (total' + weight (doc_length a) (get m k)) % 2 ^ 64 ≡ (total + doc_length a doc) % 2 ^ 64
        → Sized docs' doc_len' total' (HashMap.insert m k doc)
    put-Sized doc s n here sum = record {
      lens = λ i d h.
          ground (arith, s i, n i, here, z.lens i d, ap (get_elem? doc_len') {x = id} {y = i});
      aligned = same;
      summed = omega (arith, weigh-insert (doc_length a) m k doc, z.summed);
    }

    pub clear-Sized :
        ((j : ℕ) → slot docs' j ≡ (if id == j then none else slot docs j))
        → ((j : ℕ) → id ≢ j → get_elem? doc_len' j ≡ get_elem? doc_len j)
        → Distinct m
        → (total' + weight (doc_length a) (get m k)) % 2 ^ 64 ≡ total % 2 ^ 64
        → Sized docs' doc_len' total' (HashMap.remove m k)
    clear-Sized s n d sum = record {
      lens = λ i e h. ground (arith, s i, n i, z.lens i e);
      aligned = same;
      summed = omega (arith, weigh-remove (doc_length a) m k d, z.summed);
    }

-- No slot is retired twice.
abbrev pub NoRepeat : List ℕ → Type 0
NoRepeat [] = Unit
NoRepeat (x ∷ xs) = (contains xs x ≡ false) × NoRepeat xs

pub record Retired {D : Type 0} (docs : List (Option D)) (free : List ℕ) : Type 0 where
  pub empty : (i : ℕ) → contains free i ≡ true → (slot docs i ≡ none) × (i < length docs)
  pub all : (i : ℕ) → i < length docs → slot docs i ≡ none → contains free i ≡ true
  pub no_repeat : NoRepeat free

module _ {D : Type 0} {docs : List (Option D)} {free : List ℕ} (r : Retired docs free)
    (docs' : List (Option D)) (id : ℕ) where
  same_empty : (i : ℕ) → (id == i) ≡ true → slot docs id ≡ slot docs i
  same_empty i h = ap (slot docs) ((nat_eq.same_iff id i).0 h)

  -- A document goes to a slot that is not free.
  pub put-Retired :
      (d : D)
      → ((j : ℕ) → slot docs' j ≡ (if id == j then some d else slot docs j))
      → length docs ≤ length docs'
      → ((i : ℕ) → i < length docs' → (id == i) ≡ false → i < length docs)
      → contains free id ≡ false
      → Retired docs' free
  put-Retired d s n g f = record {
    empty = λ i h.
        ground (arith, r.empty i h, s i, ap (contains free) {x = id} {y = i}, nat_eq.same_iff id i);
    all = λ i b e. ground (arith, r.all i, s i, g i b);
    no_repeat = r.no_repeat;
  }

  pub clear-Retired :
      (d : D)
      → slot docs id ≡ some d
      → ((j : ℕ) → slot docs' j ≡ (if id == j then none else slot docs j))
      → length docs' ≡ length docs
      → id < length docs
      → Retired docs' (id ∷ free)
  unfolding contains
  clear-Retired d at s n b = record {
    empty = λ i h. ground (arith, r.empty i, s i, nat_eq.same_iff id i);
    all = λ i h e. ground (arith, r.all i, s i, n);
    no_repeat = (
      elim (Bool-cases (contains free id)) [ inl f ↦ ground (arith, r.empty id f) | inr f ↦ f ],
      r.no_repeat,
    );
  }

-- A document goes to the slot at the head of the free list, which leaves it.
pub take-Retired :
    {D : Type 0} {docs : List (Option D)} (docs' : List (Option D)) (id : ℕ) (free : List ℕ) (d : D)
    → Retired docs (id ∷ free)
    → ((j : ℕ) → slot docs' j ≡ (if id == j then some d else slot docs j))
    → length docs' ≡ length docs
    → Retired docs' free
unfolding contains
take-Retired {docs = docs} docs' id free d r s n = record {
  empty = λ i h. ground (
    arith,
    r.empty i,
    s i,
    n,
    r.no_repeat.0,
    ap (contains free) {x = id} {y = i},
    nat_eq.same_iff id i,
  );
  all = λ i h e. ground (arith, r.all i, s i, n);
  no_repeat = r.no_repeat.1;
}

-- The sum of a measure over the documents in the slots.
module _ {D : Type 0} (w : D → ℕ) where
  unfoldable pub weigh_slots : List (Option D) → ℕ
  weigh_slots [] = 0
  weigh_slots (x ∷ docs) = weight w x + weigh_slots docs

  pub weigh_slots-set :
      (docs : List (Option D)) (i : ℕ) (x : Option D)
      → i < length docs
      → weigh_slots (set docs i x) + weight w (slot docs i) ≡ weigh_slots docs + weight w x
  unfolding weigh_slots slot
  weigh_slots-set [] i x h = elim h [ ]
  weigh_slots-set (y ∷ docs) zero x h = omega arith
  weigh_slots-set (y ∷ docs) (suc i) x h = omega (arith, weigh_slots-set docs i x)

  pub weigh_slots-append :
      (docs : List (Option D)) (x : Option D)
      → weigh_slots (docs ++ x ∷ []) ≡ weigh_slots docs + weight w x
  unfolding weigh_slots
  weigh_slots-append [] x = omega arith
  weigh_slots-append (y ∷ docs) x = omega (arith, weigh_slots-append docs x)
