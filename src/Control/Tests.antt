-- ===== src/Control/Tests.antt =====
-- Runs of the coordinator state group: two replicas with other views of the nodes, one log.
use aether_engine.Prelude.{◌≡◌, refl, List, [], ◌∷◌, none, some, true, ◌⊎◌, inl, inr}
use aether_engine.Registry.State.{Registry, new, with_vshards, with_replicated_authority, leader}
use aether_engine.Registry.Members.{RegisterNodeRequest}
use aether_engine.Control.{Command, reassign, drain_node, Authority, Bincode}
use aether_engine.Control.Replicas.{
  SameAuthority, register, reap, promote, Event, own, commit, run, commits, replicas_agree,
}

abbrev fresh : Registry
fresh = with_replicated_authority (with_vshards (new 2) 4)

abbrev node_a : RegisterNodeRequest
node_a = record { node_id = "a"; address = "host:1"; shard_id = 0; role = leader }

-- The one replica hears node a, drains it and reaps it; the other has heard of no node.
abbrev seen : List Event
seen =
    own (register node_a 0)
    ∷ commit (some (drain_node "a"))
    ∷ own (reap 20000 15000)
    ∷ commit (some (reassign 1 0))
    ∷ commit none
    ∷ []

abbrev unseen : List Event
unseen =
    commit (some (drain_node "a")) ∷ commit (some (reassign 1 0)) ∷ own promote ∷ commit none ∷ []

fresh-replicated : fresh.authority_replicated ≡ true
unfolding with_replicated_authority
fresh-replicated = refl

same_commits : commits seen ≡ commits unseen
unfolding commits
same_commits = refl

replicas_agree_example : SameAuthority (run fresh seen) (run fresh unseen)
replicas_agree_example =
    replicas_agree fresh fresh seen unseen
      (record { count = refl; table = refl; drains = λ id. refl }) fresh-replicated fresh-replicated
      same_commits

-- A lossless encoding: the values themselves.
abbrev plain : Bincode
plain = record {
  Bytes = Command ⊎ Authority;
  command_bytes = inl;
  command_of = λ bytes. elim bytes [ inl c ↦ some c | inr a ↦ none ];
  authority_bytes = inr;
  authority_of = λ bytes. elim bytes [ inl c ↦ none | inr a ↦ some a ];
  command_of_bytes = λ c. refl;
  authority_of_bytes = λ a. refl;
}

two_groups : fresh.shard_count ≡ (new 2).shard_count
unfolding with_replicated_authority with_vshards new
two_groups = refl
