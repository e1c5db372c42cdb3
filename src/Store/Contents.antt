-- ===== src/Store/Contents.antt =====
-- The contents of a shard in the abstract, and what commands do to them.
use aether_engine.Prelude.{
  ℕ, ◌+◌, ◌≡◌, refl, ap, String, Bool, true, false, List, [], ◌∷◌, Option, none, some, string_eq,
  ◌==◌, length, arith, if◌then◌else◌, subst,
}
use aether_engine.Index.{Analysis}
use aether_engine.Vectors.{Space}
use aether_engine.Store.{Doc, ShardCommand, batch, evict, unset, SameMessage, SameMessages}
use aether_engine.Store.Eviction.{leaves}

module _ (a : Analysis) (space : Space a.Real) where
  -- The contents of a shard, in the abstract: the document of each aircraft that has one.
  abbrev pub Contents : Type 0
  Contents = String → Option (Doc a space)

  abbrev pub nothing : Contents
  nothing icao24 = none

  abbrev pub put_all : Contents → List (Doc a space) → Contents
  put_all c [] = c
  put_all c (d ∷ docs) = put_all (λ k. if d.icao24 == k then some d else c k) docs

  -- What a command does to the contents.
  abbrev pub effect : Contents → ShardCommand (Doc a space) → Contents
  effect c (batch docs) = put_all c docs
  effect c (evict vshard v) = λ k. if leaves vshard v k then none else c k
  effect c unset = c

  abbrev pub effects : Contents → List (ShardCommand (Doc a space)) → Contents
  effects c [] = c
  effects c (cmd ∷ cmds) = effects (effect c cmd) cmds

  -- How many documents the batches of some commands have.
  abbrev pub added : ShardCommand (Doc a space) → ℕ
  added (batch docs) = length docs
  added (evict vshard v) = 0
  added unset = 0

  abbrev pub size : List (ShardCommand (Doc a space)) → ℕ
  size [] = 0
  size (cmd ∷ cmds) = added cmd + size cmds

  -- The same message, or none.
  abbrev pub SameDocument : Option (Doc a space) → Option (Doc a space) → Type 0
  SameDocument none none = Unit
  SameDocument none (some e) = ⊥
  SameDocument (some d) none = ⊥
  SameDocument (some d) (some e) = SameMessage d e

  abbrev pub SameContents : Contents → Contents → Type 0
  SameContents c c' = (k : String) → SameDocument (c k) (c' k)

  -- One command, decoded by two members.
  abbrev pub SameCommand : ShardCommand (Doc a space) → ShardCommand (Doc a space) → Type 0
  SameCommand (batch docs) (batch docs') = SameMessages docs docs'
  SameCommand (batch docs) (evict vshard v) = ⊥
  SameCommand (batch docs) unset = ⊥
  SameCommand (evict vshard v) (batch docs) = ⊥
  SameCommand (evict vshard v) (evict vshard' v') = (vshard ≡ vshard') × (v ≡ v')
  SameCommand (evict vshard v) unset = ⊥
  SameCommand unset (batch docs) = ⊥
  SameCommand unset (evict vshard v) = ⊥
  SameCommand unset unset = Unit

  abbrev pub SameCommands :
      List (ShardCommand (Doc a space)) → List (ShardCommand (Doc a space)) → Type 0
  SameCommands [] [] = Unit
  SameCommands [] (cmd ∷ cmds) = ⊥
  SameCommands (cmd ∷ cmds) [] = ⊥
  SameCommands (cmd ∷ cmds) (cmd' ∷ cmds') = SameCommand cmd cmd' × SameCommands cmds cmds'

  pub length-SameMessages :
      (docs docs' : List (Doc a space)) → SameMessages docs docs' → length docs' ≡ length docs
  length-SameMessages [] [] s = refl
  length-SameMessages [] (e ∷ es) s = elim s [ ]
  length-SameMessages (d ∷ ds) [] s = elim s [ ]
  length-SameMessages (d ∷ ds) (e ∷ es) s = omega (arith, length-SameMessages ds es s.1)

  added-SameCommand :
      (cmd cmd' : ShardCommand (Doc a space)) → SameCommand cmd cmd' → added cmd' ≡ added cmd
  added-SameCommand (batch docs) (batch docs') s = length-SameMessages docs docs' s
  added-SameCommand (batch docs) (evict vshard v) s = elim s [ ]
  added-SameCommand (batch docs) unset s = elim s [ ]
  added-SameCommand (evict vshard v) (batch docs) s = elim s [ ]
  added-SameCommand (evict vshard v) (evict vshard' v') s = refl
  added-SameCommand (evict vshard v) unset s = elim s [ ]
  added-SameCommand unset (batch docs) s = elim s [ ]
  added-SameCommand unset (evict vshard v) s = elim s [ ]
  added-SameCommand unset unset s = refl

  pub size-SameCommands :
      (cmds cmds' : List (ShardCommand (Doc a space)))
      → SameCommands cmds cmds'
      → size cmds' ≡ size cmds
  size-SameCommands [] [] s = refl
  size-SameCommands [] (cmd ∷ cmds) s = elim s [ ]
  size-SameCommands (cmd ∷ cmds) [] s = elim s [ ]
  size-SameCommands (cmd ∷ cmds) (cmd' ∷ cmds') s =
      omega (arith, added-SameCommand cmd cmd' s.0, size-SameCommands cmds cmds' s.1)

  put-Same :
      (d e : Doc a space) (c c' : Contents)
      → SameMessage d e
      → SameContents c c'
      → SameContents
          (λ k. if d.icao24 == k then some d else c k)
          (λ k. if e.icao24 == k then some e else c' k)
  put-Same d e c c' s t k =
      subst
        (λ n.
          SameDocument (if d.icao24 == k then some d else c k) (if n == k then some e else c' k))
        (ap (λ (x : Doc a space). x.icao24) s.0) (chosen (d.icao24 == k))
    where
      chosen : (b : Bool) → SameDocument (if b then some d else c k) (if b then some e else c' k)
      chosen true = s
      chosen false = t k

  pub put_all-Same :
      (docs docs' : List (Doc a space)) (c c' : Contents)
      → SameMessages docs docs'
      → SameContents c c'
      → SameContents (put_all c docs) (put_all c' docs')
  put_all-Same [] [] c c' s t = t
  put_all-Same [] (e ∷ es) c c' s t = elim s [ ]
  put_all-Same (d ∷ ds) [] c c' s t = elim s [ ]
  put_all-Same (d ∷ ds) (e ∷ es) c c' s t =
      put_all-Same ds es (λ k. if d.icao24 == k then some d else c k)
        (λ k. if e.icao24 == k then some e else c' k) s.1 (put-Same d e c c' s.0 t)

  effect-Same :
      (cmd cmd' : ShardCommand (Doc a space)) (c c' : Contents)
      → SameCommand cmd cmd'
      → SameContents c c'
      → SameContents (effect c cmd) (effect c' cmd')
  effect-Same (batch docs) (batch docs') c c' s t = put_all-Same docs docs' c c' s t
  effect-Same (batch docs) (evict vshard v) c c' s t = elim s [ ]
  effect-Same (batch docs) unset c c' s t = elim s [ ]
  effect-Same (evict vshard v) (batch docs) c c' s t = elim s [ ]
  effect-Same (evict vshard v) (evict vshard' v') c c' (p, q) t = λ k.
      subst (λ n. SameDocument (effect c (evict vshard v) k) (effect c' (evict n v') k)) p
        (subst (λ n. SameDocument (effect c (evict vshard v) k) (effect c' (evict vshard n) k)) q
          (kept k (leaves vshard v k)))
    where
      kept :
          (k : String) (b : Bool)
          → SameDocument (if b then none else c k) (if b then none else c' k)
      kept k true = tt
      kept k false = t k
  effect-Same (evict vshard v) unset c c' s t = elim s [ ]
  effect-Same unset (batch docs) c c' s t = elim s [ ]
  effect-Same unset (evict vshard v) c c' s t = elim s [ ]
  effect-Same unset unset c c' s t = t

  pub effects-Same :
      (cmds cmds' : List (ShardCommand (Doc a space))) (c c' : Contents)
      → SameCommands cmds cmds'
      → SameContents c c'
      → SameContents (effects c cmds) (effects c' cmds')
  effects-Same [] [] c c' s t = t
  effects-Same [] (cmd ∷ cmds) c c' s t = elim s [ ]
  effects-Same (cmd ∷ cmds) [] c c' s t = elim s [ ]
  effects-Same (cmd ∷ cmds) (cmd' ∷ cmds') c c' s t =
      effects-Same cmds cmds' (effect c cmd) (effect c' cmd') s.1 (effect-Same cmd cmd' c c' s.0 t)
