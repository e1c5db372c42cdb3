-- ===== src/Registry/Registration.antt =====
-- `register_at`: who is let in, and what a registration changes.
use aether_engine.Prelude.{
  ℕ, ◌+◌, ◌≤◌, ◌<◌, ◌≡◌, ◌≢◌, ◌↔◌, refl, ap, ◌∙◌, true, false, none, some, List, [], ◌∷◌, inl, inr,
  unwrap_or, arith, nat_eq, string_eq, Bool-cases, Option-cases, leb, lt→leb_false,
}
use text.Mathlib.TextEquality.{eq_iff}
use aether_engine.Prelude.HashMap
use aether_engine.Prelude.HashMap.{get, insert-insert, get-insert_self, get-insert_ne}
use aether_engine.Registry.State.{Registry, NodeInfo, NodeRole, leader, follower, unspecified}
use aether_engine.Registry.Members.{
  RegisterNodeRequest, RegisterNodeResponse, register_at, admit, upsert, info_of, blocking_leader,
}

-- The leader entry of the request's shard belongs to another node that was seen within the window.
abbrev pub IsContested : Registry → RegisterNodeRequest → ℕ → NodeInfo → Type 0
IsContested r req now current =
    (get r.leaders req.shard_id ≡ some current)
    × (now ≤ current.last_seen + r.liveness_timeout)
    × (current.node_id ≢ req.node_id)

-- A node that claims a shard whose leader is another node, seen within the liveness window, is
-- refused, and the registry stays as it was.
pub takeover_refused :
    (r : Registry) (req : RegisterNodeRequest) (now : ℕ) (current : NodeInfo)
    → req.role ≡ leader
    → IsContested r req now current
    → ((register_at r req now).1.accepted ≡ false) × ((register_at r req now).0 ≡ r)
unfolding register_at
takeover_refused r req now current e c =
    ground (arith, eq_iff current.node_id req.node_id, c.0, c.1, c.2)

-- A refused registration changes nothing, and N is reported in every response.
pub refused_unchanged :
    (r : Registry) (req : RegisterNodeRequest) (now : ℕ)
    → ((register_at r req now).1.accepted ≡ false → (register_at r req now).0 ≡ r)
      × ((register_at r req now).1.cluster_size ≡ r.shard_count)
unfolding register_at
refused_unchanged r req now = ground arith

unblocked :
    (r : Registry) (req : RegisterNodeRequest) (now : ℕ)
    → (req.role ≡ leader → (current : NodeInfo) → ¬ IsContested r req now current)
    → blocking_leader r req now ≡ none
unfolding blocking_leader
unblocked r req now free = elim (Option-cases (get r.leaders req.shard_id)) [
  | inl e ↦ ground arith
  | inr (current, e) ↦
      ground (arith, eq_iff current.node_id req.node_id, λ (l : req.role ≡ leader). free l current)
]

admitted :
    (r : Registry) (req : RegisterNodeRequest) (now : ℕ)
    → req.role ≢ unspecified
    → (admit r req now).1.accepted ≡ true
unfolding admit
admitted r req now k = ground arith

-- A registration is accepted exactly when its shard lies below N, its role is given and, for the
-- role of leader, no other live node leads the shard.
pub register_at-accepted :
    (r : Registry) (req : RegisterNodeRequest) (now : ℕ)
    → ((register_at r req now).1.accepted ≡ true) ↔ (
        (req.shard_id < r.shard_count)
        × (req.role ≢ unspecified)
        × (req.role ≡ leader → (current : NodeInfo) → ¬ IsContested r req now current))
unfolding register_at
register_at-accepted r req now = (forth, back)
  where
    forth :
        (register_at r req now).1.accepted ≡ true
        → (req.shard_id < r.shard_count)
          × (req.role ≢ unspecified)
          × (req.role ≡ leader → (current : NodeInfo) → ¬ IsContested r req now current)
    forth a = (
      ground arith,
      ground arith,
      λ e current c. cc (a, (takeover_refused r req now current e c).0),
    )

    back :
        (req.shard_id < r.shard_count)
          × (req.role ≢ unspecified)
          × (req.role ≡ leader → (current : NodeInfo) → ¬ IsContested r req now current)
        → (register_at r req now).1.accepted ≡ true
    back (h, k, free) =
        rw (lt→leb_false _ _ h, unblocked r req now free, register_at) (admitted r req now k)

upsert-upsert :
    (ns : List NodeInfo) (a b : NodeInfo)
    → a.node_id ≡ b.node_id
    → upsert (upsert ns a) b ≡ upsert ns b
unfolding upsert
upsert-upsert [] a b e = ground (arith, eq_iff a.node_id b.node_id)
upsert-upsert (n ∷ ns) a b e = ground (
  arith,
  upsert-upsert ns a b e,
  eq_iff a.node_id b.node_id,
  eq_iff n.node_id a.node_id,
  eq_iff n.node_id b.node_id,
)

-- The entry of a leader that has registered does not block its own next registration.
own_entry :
    (r : Registry) (req : RegisterNodeRequest) (t t' : ℕ)
    → blocking_leader
        (record r { leaders = HashMap.insert r.leaders req.shard_id (info_of req t) })
        req
        t'
      ≡ none
unfolding blocking_leader
own_entry r req t t' =
    ground (
      arith,
      get-insert_self r.leaders req.shard_id (info_of req t),
      eq_iff req.node_id req.node_id,
    )

-- Who is not blocked stays so while the leader is not heard of.
unblocked_later :
    (r : Registry) (req : RegisterNodeRequest) (t t' : ℕ)
    → t ≤ t'
    → blocking_leader r req t ≡ none
    → blocking_leader r req t' ≡ none
unfolding blocking_leader
unblocked_later r req t t' h e = ground arith

admit_twice :
    (r : Registry) (req : RegisterNodeRequest) (t t' : ℕ)
    → req.shard_id < r.shard_count
    → blocking_leader r req t' ≡ none
    → register_at (admit r req t).0 req t' ≡ register_at r req t'
unfolding register_at admit
admit_twice r req t t' h free = go req.role refl
  where
    go :
        (role : NodeRole)
        → req.role ≡ role
        → register_at (admit r req t).0 req t' ≡ register_at r req t'
    go leader e = ground (
      arith,
      own_entry r req t t',
      insert-insert r.leaders req.shard_id (info_of req t) (info_of req t'),
    )
    go follower e =
        let old = unwrap_or (get r.followers req.shard_id) [] in
        ground (
          arith,
          get-insert_self r.followers req.shard_id (upsert old (info_of req t)),
          insert-insert r.followers req.shard_id (upsert old (info_of req t))
              (upsert old (info_of req t')),
          upsert-upsert old (info_of req t) (info_of req t') refl,
        )
    go unspecified e = ground arith

-- Registration is idempotent: a node that registers again with the same request, later or at the same
-- time, gets the answer and leaves the registry that the later call alone would give.
pub register_at_again :
    (r : Registry) (req : RegisterNodeRequest) (t t' : ℕ)
    → t ≤ t'
    → register_at (register_at r req t).0 req t' ≡ register_at r req t'
unfolding register_at
register_at_again r req t t' h = elim (Bool-cases (leb r.shard_count req.shard_id)) [
  | inl out ↦ ap again (out_of_range out)
  | inr within ↦ elim (Option-cases (blocking_leader r req t)) [
    | inr (current, e) ↦ ap again (blocked within current e)
    | inl e ↦
        ap again (let_in within e)
        ∙ admit_twice r req t t' (ground arith) (unblocked_later r req t t' h e)
  ]
]
  where
    again : Registry → Registry × RegisterNodeResponse
    again s = register_at s req t'

    out_of_range : leb r.shard_count req.shard_id ≡ true → (register_at r req t).0 ≡ r
    out_of_range out = rw (out, register_at)

    blocked :
        leb r.shard_count req.shard_id ≡ false
        → (current : NodeInfo) → blocking_leader r req t ≡ some current
        → (register_at r req t).0 ≡ r
    blocked within current e = rw (within, e, register_at)

    let_in :
        leb r.shard_count req.shard_id ≡ false
        → blocking_leader r req t ≡ none
        → (register_at r req t).0 ≡ (admit r req t).0
    let_in within e = rw (within, e, register_at)
