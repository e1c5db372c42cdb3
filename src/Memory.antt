-- ===== src/Memory.antt =====
-- crates/memory/src/lib.rs: the governed store of agent memories. Ids are `u64` and times are
-- milliseconds; a `String` is trimmed and tokenized by the Unicode tables of `Letters`.
pub mod Quota
pub mod Recall
pub mod Tests
use aether_engine.Prelude.{
  ℕ, ◌+◌, ◌-◌, ◌*◌, ◌%◌, ◌^◌, ◌<◌, String, Bool, true, false, not, ◌&&◌, ◌||◌, List, [], ◌∷◌, ◌++◌,
  map, Option, none, some, if◌then◌else◌, unwrap_or, nat_eq, string_eq, list_eq, ◌==◌, ltb, leb,
  length, take, is_empty, retain, all,
}
use aether_engine.Prelude.Text.{codes}
use aether_engine.Prelude.HashMap
use aether_engine.Prelude.HashMap.{HashMap}
use aether_engine.Prelude.HashSet.{contains}
use aether_engine.Prelude.Result.{Result, ok, err}
use aether_engine.Prelude.Sort.{sort}
use aether_engine.Tokens.{Letters, Term, tokenize}

pub record MemoryEntry : Type 0 where
  pub id : ℕ
  pub namespace : String
  pub text : String
  pub writer : String
  pub created_ms : ℕ
  pub ttl_secs : ℕ

-- The sum and the product are those of `u64`.
unfoldable pub expired_at : MemoryEntry → ℕ → Bool
expired_at e now_ms =
    not (e.ttl_secs == 0) && leb ((e.created_ms + e.ttl_secs * 1000 % 2 ^ 64) % 2 ^ 64) now_ms

pub data Missing : Type 0 where
  namespace_required text_required writer_required : Missing

pub data WriteError : Type 0 where
  quota_exceeded : String → ℕ → WriteError
  malformed : Missing → WriteError

pub record MemoryStore : Type 0 where
  pub by_ns : HashMap String (List MemoryEntry)
  pub next_id : ℕ
  pub quota_per_writer : ℕ

unfoldable pub new : ℕ → MemoryStore
new quota_per_writer = record { by_ns = []; next_id = 0; quota_per_writer = quota_per_writer }

abbrev pub live : ℕ → List MemoryEntry → List MemoryEntry
live now_ms = retain (λ e. not (expired_at e now_ms))

-- The entries that `writer` wrote.
abbrev pub written_by : String → List MemoryEntry → List MemoryEntry
written_by writer = retain (λ e. e.writer == writer)

unfoldable pub sweep_namespace : MemoryStore → String → ℕ → MemoryStore × ℕ
sweep_namespace s ns now_ms = elim (HashMap.get s.by_ns ns) [
  | none ↦ (s, 0)
  | some v ↦ (
    record s { by_ns = HashMap.insert s.by_ns ns (live now_ms v) },
    length v - length (live now_ms v),
  )
]

-- The fold of `sweep` over the names of the map.
unfoldable pub sweep_all : MemoryStore → List String → ℕ → MemoryStore × ℕ
unfolding sweep_namespace
sweep_all s [] now_ms = (s, 0)
sweep_all s (ns ∷ names) now_ms =
    let (s', dropped) = sweep_namespace s ns now_ms in
    let (s'', rest) = sweep_all s' names now_ms in (s'', dropped + rest)

unfoldable pub sweep : MemoryStore → ℕ → MemoryStore × ℕ
unfolding sweep_all
sweep s now_ms = sweep_all s (map (λ entry. entry.0) s.by_ns) now_ms

-- The live entries of a namespace, counted.
unfoldable pub len : MemoryStore → String → ℕ → ℕ
len s ns now_ms = length (live now_ms (unwrap_or (HashMap.get s.by_ns ns) []))

-- What `remember` does once the request has all its parts.
unfoldable pub write :
    MemoryStore → String → String → String → ℕ → ℕ → MemoryStore × Result WriteError ℕ
unfolding sweep_namespace
write s ns text writer ttl_secs now_ms =
    let s' = (sweep_namespace s ns now_ms).0 in
    let v = unwrap_or (HashMap.get s'.by_ns ns) [] in
    if leb s'.quota_per_writer (length (written_by writer v))
    then (s', err (quota_exceeded writer s'.quota_per_writer))
    else (
      record s' {
        next_id = (s'.next_id + 1) % 2 ^ 64;
        by_ns = HashMap.insert s'.by_ns ns (
            v
            ++ record {
              id = s'.next_id;
              namespace = ns;
              text = text;
              writer = writer;
              created_ms = now_ms;
              ttl_secs = ttl_secs;
            }
              ∷ []);
      },
      ok s'.next_id,
    )

-- The comparison of `sort_by` is not `Greater`.
unfoldable pub fresher : ℕ × MemoryEntry → ℕ × MemoryEntry → Bool
fresher a b =
    if ltb b.0 a.0 then true else if ltb a.0 b.0 then false else leb b.1.created_ms a.1.created_ms

module _ (letters : Letters) where
  -- `trim().is_empty()`.
  unfoldable pub is_blank : String → Bool
  is_blank s = all letters.is_whitespace (codes s)

  unfoldable pub remember :
      MemoryStore → String → String → String → ℕ → ℕ → MemoryStore × Result WriteError ℕ
  unfolding is_blank write
  remember s ns text writer ttl_secs now_ms =
      if is_blank ns
      then (s, err (malformed namespace_required))
      else if is_blank text
      then (s, err (malformed text_required))
      else if is_blank writer
      then (s, err (malformed writer_required))
      else write s ns text writer ttl_secs now_ms

  -- How many terms of the query the entry has.
  unfoldable pub overlap : List Term → MemoryEntry → ℕ
  unfolding retain
  overlap terms e = length (retain (contains (tokenize letters e.text)) terms)

  -- The two filters of `recall`, with the overlap kept.
  unfoldable pub candidates : List Term → ℕ → List MemoryEntry → List (ℕ × MemoryEntry)
  unfolding overlap
  candidates terms now_ms [] = []
  candidates terms now_ms (e ∷ es) =
      let rest = candidates terms now_ms es in
      if not (expired_at e now_ms) && (is_empty terms || ltb 0 (overlap terms e))
      then (overlap terms e, e) ∷ rest
      else rest

  unfoldable pub recall : MemoryStore → String → String → ℕ → ℕ → List MemoryEntry
  unfolding candidates
  recall s ns query limit now_ms =
      let v = unwrap_or (HashMap.get s.by_ns ns) [] in
      let hits = candidates (tokenize letters query) now_ms v in
      let out = map (λ hit. hit.1) (sort fresher hits) in
      if not (limit == 0) && ltb limit (length out) then take limit out else out
