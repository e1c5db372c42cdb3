-- ===== src/Store/Members.antt =====
-- Members of a shard's raft group: what the committed commands make of a store, and what a snapshot
-- of it brings to another member.
use aether_engine.Prelude.{
  ℕ, ◌+◌, ◌%◌, ◌^◌, ◌≤◌, ◌≡◌, refl, sym, ap, ◌∙◌, subst, String, Bool, false, List, [], ◌∷◌, Option,
  none, some, nat_eq, string_eq, ◌==◌, length, arith, if◌then◌else◌,
}
use aether_engine.Prelude.HashMap
use aether_engine.Prelude.HashMap.{HashMap, get, get-insert}
use aether_engine.Index as Index
use aether_engine.Index.{Analysis, flatten}
use aether_engine.Index.Gather.{collect, collect-flatten}
use aether_engine.Vectors as Vectors
use aether_engine.Vectors.{Space}
use aether_engine.Store.{
  Doc, ShardStore, ShardCommand, batch, evict, unset, Prost, new, documents, insert_all,
  replace_all, apply_command, snapshot_bytes, restore, with_quantized,
}
use aether_engine.Store.Agreement.{Agrees, new-Agrees, insert_all-Agrees, slots_used, key_of}
use aether_engine.Store.Eviction.{leaves, evict_vshard-Agrees}
use aether_engine.Store.Contents.{
  Contents, nothing, put_all, effect, effects, added, size, SameDocument, SameContents,
  SameCommands, length-SameMessages, put_all-Same, effects-Same, size-SameCommands,
}

module _ (a : Analysis) (space : Space a.Real) where
  -- Both indexes of the store hold the contents, and nothing else.
  pub record Represents (s : ShardStore a space) (c : Contents a space) : Type 0 where
    pub map : HashMap String (Doc a space)
    pub agrees : Agrees a space s map
    pub reads : (k : String) → get map k ≡ c k

  unfoldable pub run :
      ShardStore a space → List (ShardCommand (Doc a space)) → Option (ShardStore a space)
  run s [] = some s
  run s (cmd ∷ cmds) = elim (apply_command a space s cmd) [
    | none ↦ none
    | some (s', count) ↦ run s' cmds
  ]

  collect-put_all :
      (docs : List (Doc a space)) (m : HashMap String (Doc a space)) (c : Contents a space)
      → ((k : String) → get m k ≡ c k)
      → (k : String) → get (collect (key_of a space) m docs) k ≡ put_all a space c docs k
  collect-put_all [] m c e k = e k
  collect-put_all (d ∷ docs) m c e k =
      collect-put_all docs (HashMap.insert m d.icao24 d)
        (λ j. if d.icao24 == j then some d else c j)
        (λ j. get-insert m d.icao24 j d ∙ ap (λ o. if d.icao24 == j then some d else o) (e j)) k

  insert_all-Represents :
      (s : ShardStore a space) (c : Contents a space) (docs : List (Doc a space))
      → Represents s c
      → slots_used a space s + length docs ≤ 2 ^ 32
      → (s' : ShardStore a space) × (insert_all a space s docs ≡ some s')
        × Represents s' (put_all a space c docs)
        × (slots_used a space s' ≤ slots_used a space s + length docs)
  insert_all-Represents s c docs r b =
      let (s', e, agrees, grown) = insert_all-Agrees a space docs s r.map r.agrees b in
      (
        s',
        e,
        record {
          map = collect (key_of a space) r.map docs;
          agrees = agrees;
          reads = collect-put_all docs r.map c r.reads;
        },
        grown,
      )

  command-Represents :
      (s : ShardStore a space) (c : Contents a space) (cmd : ShardCommand (Doc a space))
      → Represents s c
      → slots_used a space s + added a space cmd ≤ 2 ^ 32
      → (s' : ShardStore a space) × (count : ℕ) × (apply_command a space s cmd ≡ some (s', count))
        × Represents s' (effect a space c cmd)
        × (slots_used a space s' ≤ slots_used a space s + added a space cmd)
  unfolding apply_command
  command-Represents s c unset r b = (s, 0, refl, r, omega arith)
  command-Represents s c (batch docs) r b =
      let (s', e, holds, grown) = insert_all-Represents s c docs r (omega (arith, b)) in
      (s', length docs % 2 ^ 32, ground (arith, e), holds, omega (arith, grown))
  command-Represents s c (evict vshard v) r b =
      let (s', n, m', e, agrees, reads, counted, same) =
        evict_vshard-Agrees a space s r.map r.agrees vshard v in
      (
        s',
        n % 2 ^ 32,
        ground (arith, e),
        record {
          map = m';
          agrees = agrees;
          reads = λ k. reads k ∙ ap (λ o. if leaves vshard v k then none else o) (r.reads k);
        },
        omega (arith, same),
      )

  run-Represents :
      (cmds : List (ShardCommand (Doc a space))) (s : ShardStore a space) (c : Contents a space)
      → Represents s c
      → slots_used a space s + size a space cmds ≤ 2 ^ 32
      → (s' : ShardStore a space) × (run s cmds ≡ some s')
        × Represents s' (effects a space c cmds)
        × (slots_used a space s' ≤ slots_used a space s + size a space cmds)
  unfolding run
  run-Represents [] s c r b = (s, refl, r, omega arith)
  run-Represents (cmd ∷ cmds) s c r b =
      let (s1, count, e1, r1, grown) = command-Represents s c cmd r (omega (arith, b)) in
      let (s', e, r', more) =
        run-Represents cmds s1 (effect a space c cmd) r1 (omega (arith, b, grown)) in
      (s', ground (arith, e1, e), r', omega (arith, grown, more))

  abbrev pub empty : Bool → ShardStore a space
  empty on = with_quantized a space (new a space) on

  new-Represents : (on : Bool) → Represents (empty on) (nothing a space)
  unfolding get
  new-Represents on = record { map = []; agrees = new-Agrees a space on; reads = λ k. refl }

  slots_new : (on : Bool) → slots_used a space (empty on) ≡ 0
  unfolding new with_quantized Index.new
  slots_new on = refl

  -- What a shard holds is decided by the committed commands: from an empty store on, whatever the mode
  -- of its vector index, no list of commands with at most 2^32 documents panics, and both indexes then
  -- hold exactly the contents that the commands come to.
  pub run-new-Represents :
      (on : Bool) (cmds : List (ShardCommand (Doc a space)))
      → size a space cmds ≤ 2 ^ 32
      → (s : ShardStore a space) × (run (empty on) cmds ≡ some s)
        × Represents s (effects a space (nothing a space) cmds)
  run-new-Represents on cmds b =
      let (s, e, r, grown) =
        run-Represents cmds (empty on) (nothing a space) (new-Represents on)
          (omega (arith, b, slots_new on)) in
      (s, e, r)

  length-flatten_le : (docs : List (Option (Doc a space))) → length (flatten docs) ≤ length docs
  unfolding flatten
  length-flatten_le [] = omega arith
  length-flatten_le (none ∷ docs) = omega (arith, length-flatten_le docs)
  length-flatten_le (some d ∷ docs) = omega (arith, length-flatten_le docs)

  new_plain : empty false ≡ new a space
  unfolding new with_quantized Vectors.new Vectors.set_quantized
  new_plain = refl

  get-nothing : (k : String) → get [] k ≡ (nothing a space) k
  unfolding get
  get-nothing k = refl

  module _ (prost : Prost a.Real) where
    -- The store that a snapshot brings holds what the one that it was taken of holds.
    restore-Represents :
        (s : ShardStore a space) (c : Contents a space)
        → Represents s c
        → slots_used a space s ≤ 2 ^ 32
        → (s' : ShardStore a space) × (count : ℕ) × (held : Contents a space) × (restore a space
              prost
              (snapshot_bytes a space prost s)
            ≡ some (s', count))
          × Represents s' held
          × SameContents a space c held
          × (slots_used a space s' ≤ slots_used a space s)
    unfolding restore snapshot_bytes replace_all documents Index.documents
    restore-Represents s c r b =
        let docs = flatten s.keyword.docs in
        let (docs', decoded, same) = prost.decode_encode docs in
        let fits = length-flatten_le s.keyword.docs in
        let as_many = length-SameMessages a space docs docs' same in
        let none_used = ap (slots_used a space) (sym new_plain) ∙ slots_new false in
        let (s', e, agrees, grown) =
          insert_all-Agrees a space docs' (new a space) []
            (subst (λ n. Agrees a space n []) new_plain (new-Agrees a space false))
            (omega (arith, b, fits, as_many, none_used)) in
        (
          s',
          length docs' % 2 ^ 32,
          put_all a space (nothing a space) docs',
          ground (arith, decoded, e),
          record {
            map = collect (key_of a space) [] docs';
            agrees = agrees;
            reads = collect-put_all docs' [] (nothing a space) get-nothing;
          },
          λ k.
              subst (λ o. SameDocument a space o (put_all a space (nothing a space) docs' k))
                (sym (collect-put_all docs [] (nothing a space) get-nothing k)
                  ∙ collect-flatten r.agrees.keyword.rows k
                  ∙ r.reads k)
                (put_all-Same a space docs docs' (nothing a space) (nothing a space) same (λ j. tt)
                  k),
          omega (arith, grown, fits, as_many, none_used),
        )

    -- From an empty store on, where all batches together have at most 2^32 documents: a member that is
    -- restored from a snapshot of another member, and then applies the commands that follow it, as it
    -- decodes them, comes to hold the documents that the other member holds after them, the same
    -- messages under the same names; nothing on the way panics. The entries of a document's maps may
    -- come in another order.
    pub restored_catches_up :
        (on : Bool) (early late late' : List (ShardCommand (Doc a space)))
        → SameCommands a space late late'
        → size a space early + size a space late ≤ 2 ^ 32
        → (s : ShardStore a space) × (ahead : ShardStore a space) × (fresh : ShardStore a space)
          × (count : ℕ) × (caught_up : ShardStore a space) × (held : Contents a space) × (run
                (empty on)
                early
              ≡ some s)
          × (run s late ≡ some ahead)
          × (restore a space prost (snapshot_bytes a space prost s) ≡ some (fresh, count))
          × (run fresh late' ≡ some caught_up)
          × Represents ahead (effects a space (effects a space (nothing a space) early) late)
          × Represents caught_up held
          × SameContents a space
              (effects a space (effects a space (nothing a space) early) late)
              held
    restored_catches_up on early late late' same b =
        let sizes = size-SameCommands a space late late' same in
        let (s, e, r, grown) =
          run-Represents early (empty on) (nothing a space) (new-Represents on)
            (omega (arith, b, slots_new on)) in
        let (ahead, e_ahead, r_ahead, more) =
          run-Represents late s (effects a space (nothing a space) early) r
            (omega (arith, b, grown, slots_new on)) in
        let (fresh, count, brought, e_fresh, r_fresh, alike, less) =
          restore-Represents s (effects a space (nothing a space) early) r
            (omega (arith, b, grown, slots_new on)) in
        let (caught_up, e_caught, r_caught, rest) =
          run-Represents late' fresh brought r_fresh
            (omega (arith, b, grown, less, sizes, slots_new on)) in
        (
          s,
          ahead,
          fresh,
          count,
          caught_up,
          effects a space brought late',
          e,
          e_ahead,
          e_fresh,
          e_caught,
          r_ahead,
          r_caught,
          effects-Same a space late late' (effects a space (nothing a space) early) brought same
              alike,
        )
