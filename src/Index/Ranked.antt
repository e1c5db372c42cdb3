-- ===== src/Index/Ranked.antt =====
-- A search of the index against a ranking of the aircraft themselves.
use aether_engine.Prelude.{
  ℕ, ◌%◌, ◌^◌, ◌≡◌, refl, ap, ◌∙◌, String, Bool, true, List, [], ◌∷◌, Option, none, some,
  if◌then◌else◌, is_some, nat_eq, string_eq, list_eq, ◌==◌, length, is_empty, get_elem?, arith,
  Option-cases, Bool-cases, inl, inr, All, any, subst, sym, unwrap_or,
}
use aether_engine.Prelude.HashMap
use aether_engine.Prelude.HashMap.{
  HashMap, get, get-insert, get_same, Distinct, insert-Distinct, AllEntries, weigh, weight,
}
use aether_engine.Prelude.HashSet.{contains}
use aether_engine.Filter.{FlightDocument}
use aether_engine.Tokens.{Term, tokenize}
use aether_engine.Index.{Analysis, InvertedIndex, Posting, ScoredHit, slot, list_of, doc_length}
use aether_engine.Index.Corpus.{mentions}
use aether_engine.Index.Frequencies.{count_in, word_count, get-term_freqs, doc_length-eq-word_count}
use aether_engine.Index.Survivors.{Holds}
use aether_engine.Outranking.{IsOnce}
use aether_engine.Index.Search.{
  average_length, idf, norm, bump, score_list, score_terms, collect_hits,
}

get_nil : (i : ℕ) → get {V = ℕ} [] i ≡ none
unfolding get
get_nil i = refl

is_empty_length : {A : Type 0} (xs : List A) → is_empty xs ≡ (length xs == 0)
is_empty_length [] = refl
is_empty_length (x ∷ xs) = ground arith

weigh_same :
    {D : Type 0} (v w : D → ℕ) (m : HashMap String D)
    → ((d : D) → v d ≡ w d)
    → weigh v m ≡ weigh w m
unfolding weigh
weigh_same v w [] e = refl
weigh_same v w ((k, d) ∷ m) e = omega (arith, e d, weigh_same v w m e)

module _ (a : Analysis) where
  open a use {Real, letters, of_nat, half, add, sub, mul, div, ln, max, exceeds, k1, b}

  -- The ranking by BM25, from the aircraft alone: the mean length, and what a term adds to the score
  -- of a document that has it.
  module _ (m : HashMap String (FlightDocument Real)) where
    abbrev pub mean_length : Real
    mean_length =
        if is_empty m
        then of_nat 1
        else max (div (of_nat (weigh (word_count a) m % 2 ^ 64)) (of_nat (length m))) (of_nat 1)

    abbrev pub has_term : Term → FlightDocument Real → ℕ
    has_term t d = if count_in a t d == 0 then 0 else 1

    abbrev pub share : FlightDocument Real → Term → ℕ → Real
    share d t term_freq =
        let n = of_nat (length m) in
        let df = of_nat (weigh (has_term t) m) in
        let tf = of_nat term_freq in
        let dl = of_nat (word_count a d) in
        mul (ln (add (of_nat 1) (div (add (sub n df) half) (add df half)))) (
          div (mul tf (add k1 (of_nat 1)))
            (add tf (mul k1 (add (sub (of_nat 1) b) (div (mul b dl) mean_length)))))

    abbrev pub add_share : FlightDocument Real → Term → Option Real → Option Real
    add_share d t score =
        if count_in a t d == 0
        then score
        else some (add (unwrap_or score (of_nat 0)) (share d t (count_in a t d % 2 ^ 32)))

    unfoldable pub rate_from :
        FlightDocument Real → List Term → Option Real → List Term → Option Real
    rate_from d seen score [] = score
    rate_from d seen score (t ∷ ts) =
        let again = rate_from d seen score ts in
        let next = rate_from d (t ∷ seen) (add_share d t score) ts in
        if contains seen t then again else next

    -- The score of a document, if it has a term of the query.
    unfoldable pub rate : FlightDocument Real → String → Option Real
    unfolding rate_from
    rate d query = rate_from d [] none (tokenize letters query)

    -- The hit is an aircraft of the map, with its score.
    abbrev pub IsRated : String → ScoredHit Real → Type 0
    IsRated query hit =
        (get m hit.doc.icao24 ≡ some hit.doc) × (rate hit.doc query ≡ some hit.score)

  abbrev pub names : String → ScoredHit Real → Bool
  names icao24 hit = hit.doc.icao24 == icao24

  -- One term's postings.
  module _ (doc_len : List ℕ) (w avgdl : Real) (dl : ℕ → ℕ) where
    abbrev bumped : ℕ → Option ℕ → Option Real → Option Real
    bumped i none score = score
    bumped i (some term_freq) score = some (bump a score (mul w (norm a term_freq (dl i) avgdl)))

    score_list_lem :
        (list : List Posting) (scores : HashMap ℕ Real)
        → Distinct list
        → ((i f : ℕ) → get list i ≡ some f → get_elem? doc_len i ≡ some (dl i))
        → Distinct scores
        → (scores' : HashMap ℕ Real) × (score_list a doc_len w avgdl scores list ≡ some scores')
          × ((i : ℕ) → get scores' i ≡ bumped i (get list i) (get scores i))
          × Distinct scores'
    unfolding score_list get
    score_list_lem [] scores d h s = (scores, refl, (λ i. refl), s)
    score_list_lem ((j, f) ∷ list) scores d h s =
        let here : get_elem? doc_len j ≡ some (dl j) =
          h j f (ground (arith, nat_eq.same_iff j j)) in
        let x = bump a (get scores j) (mul w (norm a f (dl j) avgdl)) in
        let tail =
          λ (i g : ℕ) (e : get list i ≡ some g). h i g (ground (arith, get_same list j i, d.0)) in
        let (scores', e, reads, once) =
          score_list_lem list (HashMap.insert scores j x) d.1 tail (insert-Distinct scores j x s) in
        (
          scores',
          ground (arith, here, e),
          λ i. ground (
            arith,
            reads i,
            get-insert scores j i x,
            get_same list j i,
            get_same scores j i,
            d.0,
            nat_eq.same_iff j i,
          ),
          once,
        )

  module _ (idx : InvertedIndex Real) (m : HashMap String (FlightDocument Real))
      (h : Holds a idx m) where
    abbrev slot_length : ℕ → ℕ
    slot_length i = weight (doc_length a) (slot idx.docs i)

    average : average_length a idx ≡ mean_length m
    unfolding average_length
    average = ground (
      arith,
      h.counted,
      h.sized.summed,
      is_empty_length idx.by_key,
      is_empty_length m,
      weigh_same (doc_length a) (word_count a) m (doc_length-eq-word_count a),
    )

    -- The score of the document in a slot.
    abbrev slot_rate : List Term → List Term → ℕ → Option Real → Option Real
    slot_rate seen ts i score = elim (slot idx.docs i) [
      | none ↦ score
      | some d ↦ rate_from m d seen score ts
    ]

    posting_length :
        (t : Term) (i f : ℕ)
        → get (list_of idx.postings t) i ≡ some f
        → get_elem? idx.doc_len i ≡ some (slot_length i)
    posting_length t i f p = elim (Option-cases (slot idx.docs i)) [
      | inl gone ↦ absurd (cc (h.listed.listed t i, gone, p))
      | inr (doc, at) ↦ ground (arith, at, h.sized.lens i doc at)
    ]

    -- What the postings of a term add to a slot is the share of the document in it.
    term_read :
        (t : Term) (i : ℕ) (score : Option Real)
        → bumped idx.doc_len
            (idf a (length idx.by_key) (length (list_of idx.postings t)))
            (average_length a idx)
            slot_length
            i
            (get (list_of idx.postings t) i)
            score
          ≡ elim (slot idx.docs i) [ none ↦ score | some d ↦ add_share m d t score ]
    unfolding idf norm bump
    term_read t i score =
        let w = idf a (length idx.by_key) (length (list_of idx.postings t)) in
        let terms =
          weigh_same (mentions a t) (has_term m t) m (λ d. ground (arith, get-term_freqs a d t)) in
        let same : w ≡ idf a (length m) (weigh (has_term m t) m) =
          cc (h.counted, h.listed.df t, terms) in
        elim (Option-cases (slot idx.docs i)) [
          | inl gone ↦ ground (arith, h.listed.listed t i, gone)
          | inr (d, at) ↦ ground (
            arith,
            h.listed.listed t i,
            at,
            same,
            average,
            get-term_freqs a d t,
            doc_length-eq-word_count a d,
          )
        ]

    pub score_terms_lem :
        (ts seen : List Term) (scores : HashMap ℕ Real)
        → Distinct scores
        → (scores' : HashMap ℕ Real) × (score_terms a idx seen scores ts ≡ some scores')
          × ((i : ℕ) → get scores' i ≡ slot_rate seen ts i (get scores i))
          × Distinct scores'
    unfolding score_terms rate_from
    score_terms_lem [] seen scores d = (scores, refl, (λ i. ground arith), d)
    score_terms_lem (t ∷ ts) seen scores d = elim (Bool-cases (contains seen t)) [
      | inl again ↦
          let (scores', e, reads, once) = score_terms_lem ts seen scores d in
          (scores', ground (arith, again, e), λ i. ground (arith, again, reads i), once)
      | inr first ↦ elim (Option-cases (get idx.postings t)) [
        | inl none_list ↦
            let (scores', e, reads, once) = score_terms_lem ts (t ∷ seen) scores d in
            (
              scores',
              ground (arith, first, none_list, e),
              λ i.
                  ground
                    (arith, first, reads i, none_list, get_nil i, term_read t i (get scores i)),
              once,
            )
        | inr (list, e) ↦
            let w = idf a (length idx.by_key) (length list) in
            let dl = λ (i : ℕ). slot_length i in
            let own : list_of idx.postings t ≡ list = ground (arith, e) in
            let (scores1, e1, reads1, once1) =
              score_list_lem idx.doc_len w (average_length a idx) dl list scores
                (subst Distinct own (h.listed.once t))
                (λ i f p. posting_length t i f (ap (λ l. get l i) own ∙ p)) d in
            let (scores', e', reads, once) = score_terms_lem ts (t ∷ seen) scores1 once1 in
            (
              scores',
              ground (arith, first, e, e1, e'),
              λ i. ground (arith, first, reads i, reads1 i, own, term_read t i (get scores i)),
              once,
            )
      ]
    ]

    held : (i : ℕ) (d : FlightDocument Real) → slot idx.docs i ≡ some d → get m d.icao24 ≡ some d
    held i d at = ground (arith, h.rows.reads d.icao24, h.rows.keyed i d at, at)

    same_slot : (i j : ℕ) → (i == j) ≡ true → slot idx.docs i ≡ slot idx.docs j
    same_slot i j e = ap (slot idx.docs) ((nat_eq.same_iff i j).0 e)

    -- No two slots hold documents of one aircraft.
    taken :
        (i j : ℕ) (d' d : FlightDocument Real)
        → slot idx.docs i ≡ some d'
        → slot idx.docs j ≡ some d
        → d'.icao24 ≡ d.icao24
        → (read : ℕ → Option Real) → is_some (read i) ≡ true
        → read j ≡ none
        → ⊥
    taken i j d' d at' at own read q gone =
        let same : some i ≡ some j =
          sym (h.rows.keyed i d' at') ∙ ap (get idx.by_key) own ∙ h.rows.keyed j d at in
        ground (arith, q, gone, same, ap read {x = i} {y = j})

    pub collect_hits_lem :
        (query : String) (scores : HashMap ℕ Real)
        → ((i : ℕ) (s : Real)
            → get scores i ≡ some s
            → (d : FlightDocument Real) × (slot idx.docs i ≡ some d) × (rate m d query ≡ some s))
        → Distinct scores
        → (hits : List (ScoredHit Real)) × (collect_hits a idx scores ≡ some hits)
          × All (IsRated m query) hits
          × ((i : ℕ) (d : FlightDocument Real)
              → is_some (get scores i) ≡ true
              → slot idx.docs i ≡ some d
              → any (names d.icao24) hits ≡ true)
          × ((k : String)
              → any (names k) hits ≡ true
              → (i : ℕ) × (d : FlightDocument Real) × (is_some (get scores i) ≡ true)
                × (slot idx.docs i ≡ some d)
                × (d.icao24 ≡ k))
          × IsOnce (λ (hit : ScoredHit Real). hit.score) (λ hit. hit.doc.icao24) exceeds hits
    unfolding collect_hits get any
    collect_hits_lem query [] r o = ([], refl, tt, (λ i d e. cc e), (λ k e. cc e), tt)
    collect_hits_lem query ((j, s) ∷ scores) r o =
        let (d, at, rated) = r j s (ground (arith, nat_eq.same_iff j j)) in
        let (hits, e, all, found_all, found_back, once) =
          collect_hits_lem query scores (λ i u p. r i u (ground (arith, get_same scores j i, o.0)))
            o.1 in
        (
          record { doc = d; score = s } ∷ hits,
          ground (arith, at, e),
          ((held j d at, rated), all),
          (λ i d' p q. elim (Bool-cases (j == i)) [
            | inl same ↦
                ground (arith, at, q, same_slot j i same, string_eq.same_iff d.icao24 d'.icao24)
            | inr other ↦ ground (arith, found_all i d')
          ]),
          (λ k p. elim (Bool-cases (d.icao24 == k)) [
            | inl same ↦ (
              j,
              d,
              ground (arith, nat_eq.same_iff j j),
              at,
              (string_eq.same_iff d.icao24 k).0 same,
            )
            | inr other ↦
                let (i, d', q, at', own) = found_back k (ground (arith, other, p)) in
                (i, d', ground (arith, q), at', own)
          ]),
          (
            elim (Bool-cases (any (names d.icao24) hits)) [
              | inl again ↦
                  let (i, d', q, at', own) = found_back d.icao24 again in
                  absurd (taken i j d' d at' at own (get scores) q o.0)
              | inr new ↦ new
            ],
            once,
          ),
        )
