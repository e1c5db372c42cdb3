-- ===== src/Memory/Recall.antt =====
-- What recall shows: nothing else than what was written to the namespace, whatever is swept elsewhere.
use aether_engine.Prelude.{
  ℕ, ◌≤◌, ◌≡◌, refl, sym, ap, ◌∙◌, String, true, not, ◌&&◌, List, [], ◌∷◌, ◌++◌, map, if◌then◌else◌,
  nat_eq, string_eq, ◌==◌, leb, ltb, length, retain, All, take, arith, Bool-cases, Option-cases,
  inl, inr,
}
use mathlib.Core.List.{append-nil, append_assoc}
use aether_engine.Prelude.HashMap.{get, get-insert, get_same}
use aether_engine.Prelude.Result.{Result, ok, err}
use aether_engine.Prelude.Sort.{sort}
use aether_engine.Tokens.{Letters, Term, tokenize}
use aether_engine.Memory.{
  MemoryEntry, MemoryStore, WriteError, live, written_by, new, expired_at, sweep_namespace,
  sweep_all, sweep, write, remember, candidates, fresher, recall,
}
use aether_engine.Memory.Quota.{entries, Call, remembering, sweeping, step, run}

-- What has expired stays so.
expired_later :
    (e : MemoryEntry) (now later : ℕ)
    → now ≤ later
    → expired_at e now ≡ true
    → expired_at e later ≡ true
unfolding expired_at
expired_later e now later b h = ground arith

-- What a reaping of the expired leaves of a namespace.
entries-sweep_namespace :
    (s : MemoryStore) (ns other : String) (now : ℕ)
    → entries (sweep_namespace s ns now).0 other
      ≡ (if ns == other then live now (entries s other) else entries s other)
unfolding sweep_namespace retain
entries-sweep_namespace s ns other now = elim (Option-cases (get s.by_ns ns)) [
  | inl e ↦ ground (arith, e, get_same s.by_ns ns other)
  | inr (v, e) ↦
      ground (arith, e, get-insert s.by_ns ns other (live now v), get_same s.by_ns ns other)
]

abbrev ranked : ℕ → List (ℕ × MemoryEntry) → List MemoryEntry
ranked limit hits =
    let out = map (λ hit. hit.1) (sort fresher hits) in
    if not (limit == 0) && ltb limit (length out) then take limit out else out

-- A store that holds a list of entries in one namespace.
abbrev pub archive : String → List MemoryEntry → MemoryStore
archive ns v = record { by_ns = (ns, v) ∷ []; next_id = 0; quota_per_writer = 0 }

entries-archive : (ns : String) (v : List MemoryEntry) → entries (archive ns v) ns ≡ v
unfolding get
entries-archive ns v = ground (arith, string_eq.same_iff ns ns)

module _ (letters : Letters) where
  candidates-live :
      (terms : List Term) (now later : ℕ) (v : List MemoryEntry)
      → now ≤ later
      → candidates letters terms later (live now v) ≡ candidates letters terms later v
  unfolding candidates retain
  candidates-live terms now later [] b = refl
  candidates-live terms now later (e ∷ es) b =
      ground (arith, candidates-live terms now later es b, expired_later e now later b)

  candidates-append :
      (terms : List Term) (later : ℕ) (v w : List MemoryEntry)
      → candidates letters terms later (v ++ w)
        ≡ candidates letters terms later v ++ candidates letters terms later w
  unfolding candidates
  candidates-append terms later [] w = refl
  candidates-append terms later (e ∷ es) w = ground (arith, candidates-append terms later es w)

  -- The time of a call, and the entry that it adds to a namespace, if it does.
  abbrev pub time : Call → ℕ
  time (remembering ns text writer ttl_secs now_ms) = now_ms
  time (sweeping now_ms) = now_ms

  abbrev pub stamped : String → String → String → ℕ → ℕ → ℕ → MemoryEntry
  stamped ns text writer ttl_secs now_ms id = record {
    id = id;
    namespace = ns;
    text = text;
    writer = writer;
    created_ms = now_ms;
    ttl_secs = ttl_secs;
  }

  abbrev pub accepted :
      String → String → String → ℕ → ℕ → Result WriteError ℕ → String → List MemoryEntry
  accepted ns text writer ttl_secs now_ms (err e) other = []
  accepted ns text writer ttl_secs now_ms (ok id) other =
      if ns == other then stamped ns text writer ttl_secs now_ms id ∷ [] else []

  abbrev pub added : MemoryStore → Call → String → List MemoryEntry
  added s (remembering ns text writer ttl_secs now_ms) other =
      accepted ns text writer ttl_secs now_ms (remember letters s ns text writer ttl_secs now_ms).1
        other
  added s (sweeping now_ms) other = []

  -- The entries that a history wrote to the namespace, none of them swept.
  abbrev pub ledger : String → MemoryStore → List Call → List MemoryEntry
  ledger ns s [] = []
  ledger ns s (call ∷ calls) = added s call ns ++ ledger ns (step letters s call) calls

  module _ (terms : List Term) (later : ℕ) (other : String) where
    abbrev seen : MemoryStore → List (ℕ × MemoryEntry)
    seen s = candidates letters terms later (entries s other)

    seen-sweep_namespace :
        (s : MemoryStore) (ns : String) (now : ℕ)
        → now ≤ later
        → seen (sweep_namespace s ns now).0 ≡ seen s
    seen-sweep_namespace s ns now b = elim (Bool-cases (ns == other)) [
      | inl same ↦
          ap (candidates letters terms later) (entries-sweep_namespace s ns other now ∙ rw same)
          ∙ candidates-live terms now later (entries s other) b
      | inr differ ↦
          ap (candidates letters terms later) (entries-sweep_namespace s ns other now ∙ rw differ)
    ]

    seen-sweep_all :
        (s : MemoryStore) (names : List String) (now : ℕ)
        → now ≤ later
        → seen (sweep_all s names now).0 ≡ seen s
    unfolding sweep_all
    seen-sweep_all s [] now b = refl
    seen-sweep_all s (ns ∷ names) now b =
        seen-sweep_all (sweep_namespace s ns now).0 names now b ∙ seen-sweep_namespace s ns now b

    -- Nothing accepted, nothing more to see.
    seen-nothing :
        (s' s : MemoryStore)
        → seen s' ≡ seen s
        → seen s' ≡ seen s ++ candidates letters terms later []
    unfolding candidates
    seen-nothing s' s e = e ∙ sym (append-nil (seen s))

    seen-write :
        (s : MemoryStore) (ns text writer : String) (ttl_secs now : ℕ)
        → now ≤ later
        → let r = write s ns text writer ttl_secs now in
          seen r.0
          ≡ seen s
            ++ candidates letters terms later (accepted ns text writer ttl_secs now r.1 other)
    unfolding write
    seen-write s ns text writer ttl_secs now b =
        let s' = (sweep_namespace s ns now).0 in
        let v = entries s' ns in
        let swept = seen-sweep_namespace s ns now b in
        elim (Bool-cases (leb s'.quota_per_writer (length (written_by writer v)))) [
          | inl full ↦ rw (full, write) (seen-nothing s' s swept)
          | inr room ↦
              let e = stamped ns text writer ttl_secs now s'.next_id in
              let reads = get-insert s'.by_ns ns other (v ++ e ∷ []) in
              elim (Bool-cases (ns == other)) [
                | inl same ↦
                    rw (room, write, same)
                      (ap (candidates letters terms later)
                          (ground (arith, reads, same, get_same s'.by_ns ns other))
                        ∙ candidates-append terms later (entries s' other) (e ∷ [])
                        ∙ ap (λ l. l ++ candidates letters terms later (e ∷ [])) swept)
                | inr differ ↦
                    rw (room, write, differ)
                      (ap (candidates letters terms later) (ground (arith, reads, differ))
                        ∙ seen-nothing s' s swept)
              ]
        ]

    seen-step :
        (s : MemoryStore) (call : Call)
        → time call ≤ later
        → seen (step letters s call) ≡ seen s ++ candidates letters terms later (added s call other)
    unfolding step remember
    seen-step s (remembering ns text writer ttl_secs now) b =
        ground (arith, seen-nothing s s refl, seen-write s ns text writer ttl_secs now b)
    seen-step s (sweeping now) b =
        unfold sweep in
        seen-nothing (sweep s now).0 s (seen-sweep_all s (map (λ entry. entry.0) s.by_ns) now b)

    seen-run :
        (s : MemoryStore) (calls : List Call)
        → All (λ call. time call ≤ later) calls
        → seen (run letters s calls)
          ≡ seen s ++ candidates letters terms later (ledger other s calls)
    unfolding run
    seen-run s [] b = seen-nothing s s refl
    seen-run s (call ∷ calls) b =
        seen-run (step letters s call) calls b.1
        ∙ ap (λ l. l ++ candidates letters terms later (ledger other (step letters s call) calls))
            (seen-step s call b.0)
        ∙ append_assoc (seen s) (candidates letters terms later (added s call other))
            (candidates letters terms later (ledger other (step letters s call) calls))
        ∙ ap (λ l. seen s ++ l)
            (sym (
              candidates-append terms later (added s call other)
                (ledger other (step letters s call) calls)))

  -- What a namespace recalls after a history, at its end or later, is what it would recall had nothing
  -- been swept and nothing been written to other namespaces: the entries accepted there, in order.
  pub recall-ledger :
      (quota : ℕ) (calls : List Call) (ns query : String) (limit now_ms : ℕ)
      → All (λ call. time call ≤ now_ms) calls
      → recall letters (run letters (new quota) calls) ns query limit now_ms
        ≡ recall letters (archive ns (ledger ns (new quota) calls)) ns query limit now_ms
  unfolding recall get
  recall-ledger quota calls ns query limit now_ms b =
      let v = ledger ns (new quota) calls in
      let search = candidates letters (tokenize letters query) now_ms in
      let runs : search (entries (run letters (new quota) calls) ns) ≡ search v =
        unfold new candidates in seen-run (tokenize letters query) now_ms ns (new quota) calls b in
      ap (ranked limit) (runs ∙ ap search (sym (entries-archive ns v)))
