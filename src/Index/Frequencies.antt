-- ===== src/Index/Frequencies.antt =====
-- crates/shard-node/src/index.rs, `term_freqs`, against the number of times that a term stands in the
-- texts of a document.
use native.Mathlib.Nat.{zero-add}
use aether_engine.Prelude.{
  ℕ, ◌+◌, ◌%◌, ◌^◌, ◌≡◌, refl, ap, ◌∙◌, String, List, [], ◌∷◌, Option, none, some, if◌then◌else◌,
  unwrap_or, nat_eq, string_eq, list_eq, ◌==◌, length, arith,
}
use aether_engine.Prelude.HashMap
use aether_engine.Prelude.HashMap.{HashMap, get, get-insert, get_same, weigh, weight, weigh-insert}
use aether_engine.Filter.{FlightDocument}
use aether_engine.Tokens.{Term, tokenize}
use aether_engine.Index.{
  Analysis, count_tokens, count_texts, count_fields, sum_freqs, term_freqs, doc_length,
}

abbrev pub occurrences : Term → List Term → ℕ
occurrences t [] = 0
occurrences t (u ∷ us) = (if u == t then 1 else 0) + occurrences t us

-- What a map of frequencies has for a term that was met some times.
abbrev counted : ℕ → Option ℕ
counted n = if n == 0 then none else some (n % 2 ^ 32)

get-count_tokens :
    (freqs : HashMap Term ℕ) (ts : List Term) (t : Term) (n : ℕ)
    → get freqs t ≡ counted n
    → get (count_tokens freqs ts) t ≡ counted (n + occurrences t ts)
unfolding count_tokens
get-count_tokens freqs [] t n h = h ∙ ap counted (omega arith)
get-count_tokens freqs (u ∷ us) t n h =
    let m = if u == t then 1 else 0 in
    let next = (unwrap_or (get freqs u) 0 + 1) % 2 ^ 32 in
    let met : get (HashMap.insert freqs u next) t ≡ counted (n + m) =
      ground (arith, h, get-insert freqs u t next, get_same freqs u t) in
    let e : n + m + occurrences t us ≡ n + (m + occurrences t us) = omega arith in
    get-count_tokens (HashMap.insert freqs u next) us t (n + m) met ∙ ap counted e

sum_freqs-weigh : (freqs : HashMap Term ℕ) → sum_freqs freqs ≡ weigh (λ n. n) freqs
unfolding sum_freqs weigh
sum_freqs-weigh [] = refl
sum_freqs-weigh ((t, n) ∷ freqs) = omega (arith, sum_freqs-weigh freqs)

sum-count_tokens :
    (freqs : HashMap Term ℕ) (ts : List Term)
    → weigh (λ n. n) (count_tokens freqs ts) % 2 ^ 32 ≡ (weigh (λ n. n) freqs + length ts) % 2 ^ 32
unfolding count_tokens
sum-count_tokens freqs [] = omega arith
sum-count_tokens freqs (u ∷ us) =
    let next = (unwrap_or (get freqs u) 0 + 1) % 2 ^ 32 in
    let known : weight (λ n. n) (get freqs u) ≡ unwrap_or (get freqs u) 0 = ground arith in
    omega (
      arith,
      sum-count_tokens (HashMap.insert freqs u next) us,
      weigh-insert (λ n. n) freqs u next,
      known,
    )

module _ (a : Analysis) where
  open a use {Real, letters}

  abbrev pub field_count : Term → List String → ℕ
  field_count t [] = 0
  field_count t (field ∷ fields) = occurrences t (tokenize letters field) + field_count t fields

  abbrev pub text_count : Term → HashMap String String → ℕ
  text_count t [] = 0
  text_count t ((field, value) ∷ texts) =
      occurrences t (tokenize letters value) + text_count t texts

  -- How often a term stands in a document: in its callsign, its airports, its type and its own texts.
  abbrev pub count_in : Term → FlightDocument Real → ℕ
  count_in t d =
      field_count t (d.callsign ∷ d.origin ∷ d.destination ∷ d.aircraft_type ∷ [])
      + text_count t d.text

  abbrev pub field_length : List String → ℕ
  field_length [] = 0
  field_length (field ∷ fields) = length (tokenize letters field) + field_length fields

  abbrev pub text_length : HashMap String String → ℕ
  text_length [] = 0
  text_length ((field, value) ∷ texts) = length (tokenize letters value) + text_length texts

  -- How many words a document has, as a `u32`.
  abbrev pub word_count : FlightDocument Real → ℕ
  word_count d =
      (field_length (d.callsign ∷ d.origin ∷ d.destination ∷ d.aircraft_type ∷ [])
        + text_length d.text)
      % 2 ^ 32

  get-count_fields :
      (freqs : HashMap Term ℕ) (fields : List String) (t : Term) (n : ℕ)
      → get freqs t ≡ counted n
      → get (count_fields a freqs fields) t ≡ counted (n + field_count t fields)
  unfolding count_fields
  get-count_fields freqs [] t n h = h ∙ ap counted (omega arith)
  get-count_fields freqs (f ∷ fields) t n h =
      let ts = tokenize letters f in
      let e : n + occurrences t ts + field_count t fields ≡ n + field_count t (f ∷ fields) =
        omega arith in
      get-count_fields (count_tokens freqs ts) fields t (n + occurrences t ts)
        (get-count_tokens freqs ts t n h)
      ∙ ap counted e

  get-count_texts :
      (freqs : HashMap Term ℕ) (texts : HashMap String String) (t : Term) (n : ℕ)
      → get freqs t ≡ counted n
      → get (count_texts a freqs texts) t ≡ counted (n + text_count t texts)
  unfolding count_texts
  get-count_texts freqs [] t n h = h ∙ ap counted (omega arith)
  get-count_texts freqs ((k, v) ∷ texts) t n h =
      let ts = tokenize letters v in
      let e : n + occurrences t ts + text_count t texts ≡ n + text_count t ((k, v) ∷ texts) =
        omega arith in
      get-count_texts (count_tokens freqs ts) texts t (n + occurrences t ts)
        (get-count_tokens freqs ts t n h)
      ∙ ap counted e

  pub get-term_freqs :
      (d : FlightDocument Real) (t : Term)
      → get (term_freqs a d) t ≡ (if count_in t d == 0 then none else some (count_in t d % 2 ^ 32))
  unfolding term_freqs get
  get-term_freqs d t =
      let fields = d.callsign ∷ d.origin ∷ d.destination ∷ d.aircraft_type ∷ [] in
      get-count_texts (count_fields a [] fields) d.text t (field_count t fields)
        (get-count_fields [] fields t 0 refl ∙ ap counted (zero-add (field_count t fields)))

  sum-count_fields :
      (freqs : HashMap Term ℕ) (fields : List String)
      → weigh (λ n. n) (count_fields a freqs fields) % 2 ^ 32
        ≡ (weigh (λ n. n) freqs + field_length fields) % 2 ^ 32
  unfolding count_fields
  sum-count_fields freqs [] = omega arith
  sum-count_fields freqs (f ∷ fields) =
      let ts = tokenize letters f in
      omega (arith, sum-count_fields (count_tokens freqs ts) fields, sum-count_tokens freqs ts)

  sum-count_texts :
      (freqs : HashMap Term ℕ) (texts : HashMap String String)
      → weigh (λ n. n) (count_texts a freqs texts) % 2 ^ 32
        ≡ (weigh (λ n. n) freqs + text_length texts) % 2 ^ 32
  unfolding count_texts
  sum-count_texts freqs [] = omega arith
  sum-count_texts freqs ((k, v) ∷ texts) =
      let ts = tokenize letters v in
      omega (arith, sum-count_texts (count_tokens freqs ts) texts, sum-count_tokens freqs ts)

  pub doc_length-eq-word_count : (d : FlightDocument Real) → doc_length a d ≡ word_count d
  unfolding doc_length term_freqs weigh
  doc_length-eq-word_count d =
      let fields = d.callsign ∷ d.origin ∷ d.destination ∷ d.aircraft_type ∷ [] in
      let freqs = count_fields a [] fields in
      let sum : sum_freqs (term_freqs a d) ≡ weigh (λ n. n) (count_texts a freqs d.text) =
        sum_freqs-weigh (term_freqs a d) in
      omega (arith, sum, sum-count_texts freqs d.text, sum-count_fields [] fields)
