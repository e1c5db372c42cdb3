-- ===== src/Memory/Tests.antt =====
-- Runs of the memory store with a quota of two.
use aether_engine.Prelude.{
  ◌+◌, ◌≡◌, refl, ◌&&◌, ◌||◌, List, [], ◌∷◌, map, if◌then◌else◌, nat_eq, ◌==◌, leb, all, arith,
  string_eq,
}
use aether_engine.Prelude.HashMap.{get, insert}
use aether_engine.Prelude.Sort.{sort}
use aether_engine.Prelude.HashSet.{contains}
use aether_engine.Tokens.{Letters, tokenize}
use aether_engine.Memory.{new, remember, recall, sweep, expired_at}
use aether_engine.Memory.Quota.{Call, remembering, sweeping, run, IsGoverned, run-IsGoverned}
use aether_engine.Memory.Recall.{ledger, archive, recall-ledger}

abbrev ascii : Letters
ascii = record {
  is_alphanumeric = λ c. leb 48 c && leb c 57 || leb 65 c && leb c 90 || leb 97 c && leb c 122;
  is_whitespace = λ c. c == 32;
  to_lowercase = map (λ c. if leb 65 c && leb c 90 then c + 32 else c);
}

-- The third write meets the quota; the fourth does not, since the first two have expired.
abbrev calls : List Call
calls =
    remembering "ns" "user prefers Metric units" "w" 1 0
    ∷ remembering "ns" "two" "w" 1 0
    ∷ remembering "ns" "three" "w" 1 0
    ∷ remembering "other" "metric" "w" 0 0
    ∷ sweeping 2000
    ∷ remembering "ns" "metric later" "w" 0 2000
    ∷ []

run-IsGoverned_example :
    IsGoverned (run ascii (new 2) calls) × ((run ascii (new 2) calls).quota_per_writer ≡ 2)
run-IsGoverned_example = run-IsGoverned ascii 2 calls

recall-ledger_example :
    recall ascii (run ascii (new 2) calls) "ns" "metric" 5 2500
    ≡ recall ascii (archive "ns" (ledger ascii "ns" (new 2) calls)) "ns" "metric" 5 2500
recall-ledger_example = recall-ledger ascii 2 calls "ns" "metric" 5 2500 (omega arith)

texts_recalled :
    map (λ e. e.text) (recall ascii (run ascii (new 2) calls) "ns" "METRIC" 5 2500)
    ≡ "metric later" ∷ []
unfolding run recall sort get remember all sweep new insert expired_at tokenize contains
texts_recalled = refl
