-- ===== src/StateMachine/Boot.antt =====
-- A boot from the S3 tier: a snapshot that a member uploaded brings another one up as that member was.
use aether_engine.Prelude.{
  ℕ, ◌≡◌, refl, sym, ap, ◌∙◌, Bool, true, false, [], Option, none, some, subst, arith,
}
use aether_engine.Prelude.HashMap.{HashMap}
use aether_engine.StateMachine.{
  App, Raft, Format, File, StateMachineStore, start, install_meta, load_latest, persist,
  with_snapshot_dir, open_durable, build_snapshot, install_snapshot,
}
use aether_engine.StateMachine.Replay.{SameMachine}
use aether_engine.StateMachine.Restart.{
  Recovers, persist_unwritten, persist_written, received-Recovers, opened-Recovers,
}

module _ (app : App) (raft : Raft app.Data) where
  open app use {State, config, restore_snapshot}
  open raft use {Bytes}

  module _ (format : Format (File app raft) Bytes) where
    persist_dir :
        (sm : StateMachineStore app raft) (f : File app raft) (w : Bool)
        → (d : Option (HashMap ℕ Bytes)) × (persist app raft format sm f w
            ≡ record sm { snap_dir = d })
    unfolding persist
    persist_dir sm f false = (sm.snap_dir, persist_unwritten app raft format sm f)
    persist_dir sm f true = stored sm.snap_dir refl
      where
        stored :
            (o : Option (HashMap ℕ Bytes))
            → sm.snap_dir ≡ o
            → (d : Option (HashMap ℕ Bytes)) × (persist app raft format sm f true
                ≡ record sm { snap_dir = d })
        stored none e = (sm.snap_dir, ground (arith, e))
        stored (some files) e = (_, persist_written app raft format sm f files e)

    persist-SameMachine :
        (a b : StateMachineStore app raft) (f g : File app raft) (v w : Bool)
        → SameMachine app raft a b
        → SameMachine app raft (persist app raft format a f v) (persist app raft format b g w)
    persist-SameMachine a b f g v w s =
        rw ((persist_dir a f v).1, (persist_dir b g w).1)
          (record { state = s.state; last_applied = s.last_applied; membership = s.membership })

    unread :
        (fresh : State) (files : HashMap ℕ Bytes)
        → load_latest app raft format files ≡ none
        → with_snapshot_dir app raft format fresh files ≡ start app raft fresh (some files)
    unfolding with_snapshot_dir
    unread fresh files e = rw (with_snapshot_dir, e) refl

    booted :
        (fresh : State) (files : HashMap ℕ Bytes) (f : File app raft) (written : Bool)
        → load_latest app raft format files ≡ none
        → open_durable app raft format fresh files (some (format.serialize f)) written
          ≡ install_snapshot app raft format
              (with_snapshot_dir app raft format fresh files)
              f
              written
    unfolding install_snapshot open_durable
    booted fresh files f written e =
        rw (open_durable, unread fresh files e, format.deserialize_serialize f)
          (ap (λ m. persist app raft format (install_meta app raft m f) f written)
            (unread fresh files e))

    -- A member without a readable local snapshot boots from an object that a member uploaded after it
    -- built a snapshot: it comes up as that member was, and, where its disk takes the file, it comes
    -- up so again from the directory alone.
    pub cold_boot :
        (fresh : State) (files : HashMap ℕ Bytes) (sm : StateMachineStore app raft) (kept : Bool)
        → load_latest app raft format files ≡ none
        → config sm.state ≡ config fresh
        → let (sm', f) = build_snapshot app raft format sm kept in
          let boot = open_durable app raft format fresh files (some (format.serialize f)) in
          ((written : Bool) → SameMachine app raft (boot written) sm')
          × Recovers app raft format fresh (boot true) []
    unfolding build_snapshot
    cold_boot fresh files sm kept e n =
        let f = (build_snapshot app raft format sm kept).1 in
        let local = opened-Recovers app raft format fresh files in
        (
          λ written.
              subst (λ m. SameMachine app raft m (build_snapshot app raft format sm kept).0)
                (sym (booted fresh files f written e))
                (unfold install_snapshot install_meta in
                  persist-SameMachine _ _ f f written kept (record {
                    state = restore_snapshot sm.state _ (n ∙ sym local.peer);
                    last_applied = refl;
                    membership = refl;
                  })),
          subst (λ m. Recovers app raft format fresh m []) (sym (booted fresh files f true e))
              (received-Recovers app raft format fresh _ [] local f),
        )
