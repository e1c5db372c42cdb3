-- ===== src/Memory/Quota.antt =====
-- The quota, the isolation of namespaces and the stamps, over all histories of the store.
use aether_engine.Prelude.{
  ℕ, ◌+◌, ◌<◌, ◌≤◌, ◌≡◌, refl, ap, ◌∙◌, String, Bool, not, List, [], ◌∷◌, ◌++◌, map, unwrap_or,
  nat_eq, string_eq, ◌==◌, leb, length, retain, All, All-append, retain-All, arith, Bool-cases,
  Option-cases, inl, inr,
}
use aether_engine.Prelude.HashMap.{get, AllEntries, get-AllEntries, insert-AllEntries}
use aether_engine.Tokens.{Letters}
use aether_engine.Memory.{
  MemoryEntry, MemoryStore, live, written_by, new, expired_at, sweep_namespace, sweep_all, sweep,
  write, remember,
}

length-retain-append :
    {A : Type 0} (p : A → Bool) (xs ys : List A)
    → length (retain p (xs ++ ys)) ≡ length (retain p xs) + length (retain p ys)
unfolding retain
length-retain-append p [] ys = omega arith
length-retain-append p (x ∷ xs) ys = ground (arith, length-retain-append p xs ys)

length-retain-retain_le :
    {A : Type 0} (p q : A → Bool) (xs : List A)
    → length (retain p (retain q xs)) ≤ length (retain p xs)
unfolding retain
length-retain-retain_le p q [] = omega arith
length-retain-retain_le p q (x ∷ xs) = ground (arith, length-retain-retain_le p q xs)

-- An entry stands in its namespace.
abbrev pub InNamespace : String → MemoryEntry → Type 0
InNamespace ns e = e.namespace ≡ ns

-- No writer holds more than the quota in a namespace, and all entries there are its own.
abbrev pub IsWithin : ℕ → String → List MemoryEntry → Type 0
IsWithin quota ns v =
    ((writer : String) → length (written_by writer v) ≤ quota) × All (InNamespace ns) v

abbrev pub IsGoverned : MemoryStore → Type 0
IsGoverned s = AllEntries (IsWithin s.quota_per_writer) s.by_ns

live-IsWithin :
    (quota now_ms : ℕ) (ns : String) (v : List MemoryEntry)
    → IsWithin quota ns v
    → IsWithin quota ns (live now_ms v)
live-IsWithin quota now_ms ns v w = (
  λ writer. omega (
    arith,
    w.0 writer,
    length-retain-retain_le (λ e. e.writer == writer) (λ e. not (expired_at e now_ms)) v,
  ),
  retain-All (InNamespace ns) (λ e. not (expired_at e now_ms)) v w.1,
)

-- The list of a namespace, empty if it has none.
abbrev pub entries : MemoryStore → String → List MemoryEntry
entries s ns = unwrap_or (get s.by_ns ns) []

entries-IsWithin :
    (s : MemoryStore) (ns : String) → IsGoverned s → IsWithin s.quota_per_writer ns (entries s ns)
entries-IsWithin s ns g = elim (Option-cases (get s.by_ns ns)) [
  | inl e ↦ rw e ((λ writer. unfold retain in omega arith), tt)
  | inr (v, e) ↦ rw e (get-AllEntries (IsWithin s.quota_per_writer) s.by_ns ns v g e)
]

sweep_namespace-IsGoverned :
    (s : MemoryStore) (ns : String) (now_ms : ℕ)
    → IsGoverned s
    → IsGoverned (sweep_namespace s ns now_ms).0
unfolding sweep_namespace
sweep_namespace-IsGoverned s ns now_ms g = elim (Option-cases (get s.by_ns ns)) [
  | inl e ↦ rw (e, sweep_namespace) g
  | inr (v, e) ↦
      let within = get-AllEntries (IsWithin s.quota_per_writer) s.by_ns ns v g e in
      let kept = live-IsWithin s.quota_per_writer now_ms ns v within in
      rw (e, sweep_namespace)
        (insert-AllEntries (IsWithin s.quota_per_writer) s.by_ns ns (live now_ms v) g kept)
]

quota-sweep_namespace :
    (s : MemoryStore) (ns : String) (now_ms : ℕ)
    → (sweep_namespace s ns now_ms).0.quota_per_writer ≡ s.quota_per_writer
unfolding sweep_namespace
quota-sweep_namespace s ns now_ms = ground arith

quota-sweep_all :
    (s : MemoryStore) (names : List String) (now_ms : ℕ)
    → (sweep_all s names now_ms).0.quota_per_writer ≡ s.quota_per_writer
unfolding sweep_all
quota-sweep_all s [] now_ms = refl
quota-sweep_all s (ns ∷ names) now_ms =
    quota-sweep_all (sweep_namespace s ns now_ms).0 names now_ms ∙ quota-sweep_namespace s ns now_ms

sweep_all-IsGoverned :
    (s : MemoryStore) (names : List String) (now_ms : ℕ)
    → IsGoverned s
    → IsGoverned (sweep_all s names now_ms).0
unfolding sweep_all
sweep_all-IsGoverned s [] now_ms g = g
sweep_all-IsGoverned s (ns ∷ names) now_ms g =
    sweep_all-IsGoverned (sweep_namespace s ns now_ms).0 names now_ms
      (sweep_namespace-IsGoverned s ns now_ms g)

added-IsWithin :
    (quota : ℕ) (ns : String) (v : List MemoryEntry) (e : MemoryEntry)
    → IsWithin quota ns v
    → e.namespace ≡ ns
    → length (written_by e.writer v) < quota
    → IsWithin quota ns (v ++ e ∷ [])
added-IsWithin quota ns v e w own room = (
  λ writer.
      let grown = length-retain-append (λ (x : MemoryEntry). x.writer == writer) v (e ∷ []) in
      elim (Bool-cases (e.writer == writer)) [
        | inl same ↦
            let k =
              ap (λ n. length (written_by n v)) ((string_eq.same_iff e.writer writer).0 same) in
            unfold retain in ground (arith, grown, k)
        | inr other ↦ unfold retain in ground (arith, grown, w.0 writer)
      ],
  All-append (InNamespace ns) v (e ∷ []) w.1 (own, tt),
)

write-IsGoverned :
    (s : MemoryStore) (ns text writer : String) (ttl_secs now_ms : ℕ)
    → IsGoverned s
    → IsGoverned (write s ns text writer ttl_secs now_ms).0
unfolding write
write-IsGoverned s ns text writer ttl_secs now_ms g =
    let s' = (sweep_namespace s ns now_ms).0 in
    let g' = (sweep_namespace-IsGoverned s ns now_ms g) in
    let v = entries s' ns in
    elim (Bool-cases (leb s'.quota_per_writer (length (written_by writer v)))) [
      | inl full ↦ rw (full, write) g'
      | inr room ↦
          let e : MemoryEntry = record {
            id = s'.next_id;
            namespace = ns;
            text = text;
            writer = writer;
            created_ms = now_ms;
            ttl_secs = ttl_secs;
          } in
          rw (room, write)
            (insert-AllEntries (IsWithin s'.quota_per_writer) s'.by_ns ns (v ++ e ∷ []) g' (
              added-IsWithin s'.quota_per_writer ns v e (entries-IsWithin s' ns g') refl
                (ground arith)))
    ]

-- What clients do to the store.
pub data Call : Type 0 where
  remembering : String → String → String → ℕ → ℕ → Call
  sweeping : ℕ → Call

module _ (letters : Letters) where
  unfoldable pub step : MemoryStore → Call → MemoryStore
  step s (remembering ns text writer ttl_secs now_ms) =
      (remember letters s ns text writer ttl_secs now_ms).0
  step s (sweeping now_ms) = (sweep s now_ms).0

  unfoldable pub run : MemoryStore → List Call → MemoryStore
  unfolding step
  run s [] = s
  run s (call ∷ calls) = run (step s call) calls

  step-IsGoverned : (s : MemoryStore) (call : Call) → IsGoverned s → IsGoverned (step s call)
  unfolding step remember
  step-IsGoverned s (remembering ns text writer ttl_secs now_ms) g =
      ground (arith, g, write-IsGoverned s ns text writer ttl_secs now_ms g)
  step-IsGoverned s (sweeping now_ms) g =
      unfold sweep in sweep_all-IsGoverned s (map (λ entry. entry.0) s.by_ns) now_ms g

  quota-step : (s : MemoryStore) (call : Call) → (step s call).quota_per_writer ≡ s.quota_per_writer
  unfolding step remember write
  quota-step s (remembering ns text writer ttl_secs now_ms) =
      ground (arith, quota-sweep_namespace s ns now_ms)
  quota-step s (sweeping now_ms) =
      unfold sweep in quota-sweep_all s (map (λ entry. entry.0) s.by_ns) now_ms

  quota-run :
      (s : MemoryStore) (calls : List Call) → (run s calls).quota_per_writer ≡ s.quota_per_writer
  unfolding run
  quota-run s [] = refl
  quota-run s (call ∷ calls) = quota-run (step s call) calls ∙ quota-step s call

  run_from-IsGoverned :
      (s : MemoryStore) (calls : List Call) → IsGoverned s → IsGoverned (run s calls)
  unfolding run
  run_from-IsGoverned s [] g = g
  run_from-IsGoverned s (call ∷ calls) g =
      run_from-IsGoverned (step s call) calls (step-IsGoverned s call g)

  -- After any history of writes and sweeps, no writer holds more entries in a namespace than the quota,
  -- and every entry stands in the namespace that it was written to.
  pub run-IsGoverned :
      (quota : ℕ) (calls : List Call)
      → IsGoverned (run (new quota) calls) × ((run (new quota) calls).quota_per_writer ≡ quota)
  unfolding new
  run-IsGoverned quota calls =
      (run_from-IsGoverned (new quota) calls tt, quota-run (new quota) calls)
