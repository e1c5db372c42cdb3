-- ===== src/Index/Postings.antt =====
-- What the loops over the terms of a document do to the list of each term.
use aether_engine.Prelude.{
  ℕ, ◌+◌, ◌%◌, ◌^◌, ◌≡◌, refl, sym, String, true, not, List, [], ◌∷◌, ◌++◌, Option, none, some,
  if◌then◌else◌, unwrap_or, is_some, nat_eq, string_eq, list_eq, ◌==◌, is_empty, retain, arith,
  Option-cases, inl, inr,
}
use aether_engine.Prelude.HashMap
use aether_engine.Prelude.HashMap.{
  HashMap, get, Distinct, insert-Distinct, get-insert, get-remove, remove_absent, get_same,
}
use mathlib.Core.List.{append-nil}
use aether_engine.Filter.{FlightDocument}
use aether_engine.Tokens.{Term, tokenize}
use aether_engine.Index.{
  Analysis, Posting, list_of, drop_posting, drop_postings, push_postings, count_tokens, count_texts,
  count_fields, term_freqs, remove_postings, add_postings,
}

-- A posting as a list of none or one.
abbrev pub entry : ℕ → Option ℕ → List Posting
entry doc_id none = []
entry doc_id (some term_freq) = (doc_id, term_freq) ∷ []

retain-eq-remove : (m : List Posting) (k : ℕ) → retain (λ p. not (p.0 == k)) m ≡ HashMap.remove m k
unfolding retain HashMap.remove
retain-eq-remove [] k = refl
retain-eq-remove ((j, v) ∷ m) k = ground (arith, retain-eq-remove m k)

remove_twice :
    (m : List Posting) (k : ℕ) → HashMap.remove (HashMap.remove m k) k ≡ HashMap.remove m k
remove_twice m k = remove_absent (HashMap.remove m k) k (ground (arith, get-remove m k k))

pub is_empty_nil : {A : Type 0} (xs : List A) → is_empty xs ≡ true → xs ≡ []
is_empty_nil [] h = refl
is_empty_nil (x ∷ xs) h = cc h

list_of-drop_posting :
    (ps : HashMap Term (List Posting)) (id : ℕ) (t u : Term)
    → list_of (drop_posting ps id t) u
      ≡ (if t == u then HashMap.remove (list_of ps u) id else list_of ps u)
unfolding drop_posting HashMap.remove
list_of-drop_posting ps id t u = elim (Option-cases (get ps t)) [
  | inl e ↦ ground (arith, get_same ps t u)
  | inr (list, e) ↦
      let kept = HashMap.remove list id in
      ground (
        arith,
        e,
        retain-eq-remove list id,
        get_same ps t u,
        get-remove ps t u,
        get-insert ps t u kept,
        is_empty_nil kept,
      )
]

list_of-drop_postings :
    (ps : HashMap Term (List Posting)) (id : ℕ) (freqs : HashMap Term ℕ) (u : Term)
    → list_of (drop_postings ps id freqs) u
      ≡ (if is_some (get freqs u) then HashMap.remove (list_of ps u) id else list_of ps u)
unfolding drop_postings get
list_of-drop_postings ps id [] u = refl
list_of-drop_postings ps id ((t, f) ∷ freqs) u =
    let e = list_of-drop_postings (drop_posting ps id t) id freqs u in
    ground (arith, e, list_of-drop_posting ps id t u, remove_twice (list_of ps u) id)

list_of-push_postings :
    (ps : HashMap Term (List Posting)) (id : ℕ) (freqs : HashMap Term ℕ) (u : Term)
    → Distinct freqs
    → list_of (push_postings ps id freqs) u ≡ list_of ps u ++ entry id (get freqs u)
unfolding push_postings get
list_of-push_postings ps id [] u d = sym (append-nil (list_of ps u))
list_of-push_postings ps id ((t, f) ∷ freqs) u d =
    let e =
      list_of-push_postings (HashMap.insert ps t (list_of ps t ++ (id, f) ∷ [])) id freqs u d.1 in
    ground (
      arith,
      e,
      get-insert ps t u (list_of ps t ++ (id, f) ∷ []),
      get_same freqs t u,
      get_same ps t u,
      append-nil (list_of ps t ++ (id, f) ∷ []),
      d.0,
    )

pub get-append_entry :
    (m : List Posting) (id j : ℕ) (o : Option ℕ)
    → get m id ≡ none
    → get (m ++ entry id o) j ≡ (if id == j then o else get m j)
unfolding get
get-append_entry [] id j none h = ground arith
get-append_entry [] id j (some f) h = ground arith
get-append_entry ((k, v) ∷ m) id j o h = ground (arith, get-append_entry m id j o)

pub append_entry-Distinct :
    (m : List Posting) (id : ℕ) (o : Option ℕ)
    → get m id ≡ none
    → Distinct m
    → Distinct (m ++ entry id o)
unfolding get
append_entry-Distinct [] id none h d = tt
append_entry-Distinct [] id (some f) h d = (refl, tt)
append_entry-Distinct ((k, v) ∷ m) id o h d =
    ground (arith, append_entry-Distinct m id o, get-append_entry m id k o, d)

-- The term frequencies of a document list each term once.
count_tokens-Distinct :
    (freqs : HashMap Term ℕ) (ts : List Term) → Distinct freqs → Distinct (count_tokens freqs ts)
unfolding count_tokens
count_tokens-Distinct freqs [] d = d
count_tokens-Distinct freqs (t ∷ ts) d =
    let n = (unwrap_or (get freqs t) 0 + 1) % 2 ^ 32 in
    count_tokens-Distinct (HashMap.insert freqs t n) ts (insert-Distinct freqs t n d)

module _ (a : Analysis) where
  open a use {Real, letters}

  count_texts-Distinct :
      (freqs : HashMap Term ℕ) (texts : HashMap String String)
      → Distinct freqs
      → Distinct (count_texts a freqs texts)
  unfolding count_texts
  count_texts-Distinct freqs [] d = d
  count_texts-Distinct freqs ((field, value) ∷ texts) d =
      let ts = tokenize letters value in
      count_texts-Distinct (count_tokens freqs ts) texts (count_tokens-Distinct freqs ts d)

  count_fields-Distinct :
      (freqs : HashMap Term ℕ) (fields : List String)
      → Distinct freqs
      → Distinct (count_fields a freqs fields)
  unfolding count_fields
  count_fields-Distinct freqs [] d = d
  count_fields-Distinct freqs (field ∷ fields) d =
      let ts = tokenize letters field in
      count_fields-Distinct (count_tokens freqs ts) fields (count_tokens-Distinct freqs ts d)

  pub term_freqs-Distinct : (doc : FlightDocument Real) → Distinct (term_freqs a doc)
  unfolding term_freqs
  term_freqs-Distinct doc =
      let fields = doc.callsign ∷ doc.origin ∷ doc.destination ∷ doc.aircraft_type ∷ [] in
      count_texts-Distinct (count_fields a [] fields) doc.text (count_fields-Distinct [] fields tt)

  -- Where the postings of a slot are those of the document in it, they all go.
  pub list_of-remove_postings :
      (ps : HashMap Term (List Posting)) (id : ℕ) (doc : FlightDocument Real)
      → ((t : Term) → get (list_of ps t) id ≡ get (term_freqs a doc) t)
      → (t : Term) → list_of (remove_postings a ps id doc) t ≡ HashMap.remove (list_of ps t) id
  unfolding remove_postings
  list_of-remove_postings ps id doc h t = ground (
    arith,
    list_of-drop_postings ps id (term_freqs a doc) t,
    h t,
    remove_absent (list_of ps t) id,
  )

  pub list_of-add_postings :
      (ps : HashMap Term (List Posting)) (id : ℕ) (doc : FlightDocument Real) (t : Term)
      → list_of (add_postings a ps id doc) t ≡ list_of ps t ++ entry id (get (term_freqs a doc) t)
  unfolding add_postings
  list_of-add_postings ps id doc t =
      list_of-push_postings ps id (term_freqs a doc) t (term_freqs-Distinct doc)
