-- ===== src/Daemon/Session.antt =====
-- crates/montre-daemon/src/state.rs: `Command` and `run`, the commands of a session one by one.
pub mod Invariant
pub mod Steps
pub mod Links
pub mod Reached
pub mod Consumed
pub mod Idle
use montre.Prelude.{ℕ, Option, some, none, Text, List, [], ◌∷◌}
use montre.Index.Corpus.{Corpus}
use montre.Query.Sequence.Hits.{Hit}
use montre.Daemon.Protocol.{
  Interest, CouplerKind, Coupler, ProcessInfo, RegisterParams, RosterFilter, ResultMetadata, Topic,
  ShutdownReason, ProtocolError,
}
use montre.Daemon.State.{
  State, ResultEntry, Outcome, done, failed, Send, register, update_label, roster_snapshot,
  subscribe, unsubscribe, initiate_shutdown, check_idle_timeout,
}
use montre.Daemon.Couplers.{coupler_remove, coupler_list, unregister}
use montre.Daemon.Interests.{publish_interest, coupler_create_and_tell}
use montre.Daemon.Command.{Command, Reply}
use montre.Daemon.Results.{
  LoadOutcome, Disk, insert_result, save_result, materialize_result, load_named,
  install_replayed_result, list_named, delete_named, discard_handle,
}

-- What the world gives to a command: the clock, the time as a text, a new handle, and the disk.
pub record World : Type 0 where
  pub now : ℕ
  pub now_rfc3339 : Text
  pub generate_handle : Text
  pub persists : Disk

abbrev pub Answer : Type 0
Answer = State × Reply × List Send

-- An error leaves the state as it was, and sends nothing.
abbrev pub answered : {A : Type 0} → State → Outcome A → (A → Answer) → Answer
answered state (done a) f = f a
answered state (failed e) f = (state, Reply.refused e, [])

module _ {B : Type 0} (corpus : Corpus B) where
  unfoldable pub handle : World → State → Command → Answer
  unfolding register unregister update_label roster_snapshot publish_interest insert_result
      save_result materialize_result load_named install_replayed_result list_named delete_named
      discard_handle coupler_create_and_tell coupler_remove coupler_list subscribe unsubscribe
      initiate_shutdown check_idle_timeout
  handle world state (Command.register params) =
      answered state (register state params) λ (id, next, sends). (next, Reply.process id, sends)
  handle world state (Command.unregister pid) =
      let (next, sends) = unregister state pid world.now in (next, Reply.ok, sends)
  handle world state (Command.update_label pid label) =
      answered state (update_label state pid label) λ (next, sends). (next, Reply.ok, sends)
  handle world state (Command.roster filter) =
      (state, Reply.processes (roster_snapshot state filter), [])
  handle world state (Command.publish_interest pid interest) =
      let (next, sends) = publish_interest corpus state pid interest in
      (next, Reply.no_reply, sends)
  handle world state (Command.insert_result cql hits) =
      let (next, metadata) = insert_result state world.generate_handle world.now_rfc3339 cql hits in
      (next, Reply.metadata metadata, [])
  handle world state (Command.save_result result name) =
      answered state (save_result world.persists state result name)
        λ (metadata, next, sends). (next, Reply.metadata metadata, sends)
  handle world state (Command.materialize_result name) =
      answered state (materialize_result state world.now_rfc3339 name)
        λ (metadata, next, sends). (next, Reply.metadata metadata, sends)
  handle world state (Command.load_named name) =
      answered state (load_named state name) λ loaded. (state, Reply.loaded loaded, [])
  handle world state (Command.install_replayed_result entry) =
      (install_replayed_result state entry, Reply.ok, [])
  handle world state Command.list_named = (state, Reply.listed (list_named state), [])
  handle world state (Command.delete_named name) =
      answered state (delete_named world.persists state name)
        λ (next, sends). (next, Reply.ok, sends)
  handle world state (Command.discard_handle result) = (discard_handle state result, Reply.ok, [])
  handle world state (Command.coupler_create master follower kind) =
      answered state (coupler_create_and_tell corpus state master follower kind)
        λ (id, next, sends). (next, Reply.coupler id, sends)
  handle world state (Command.coupler_remove id) =
      answered state (coupler_remove state id) λ next. (next, Reply.ok, [])
  handle world state (Command.coupler_list filter) =
      (state, Reply.couplers (coupler_list state filter), [])
  handle world state (Command.subscribe pid topic) =
      answered state (subscribe state pid topic) λ next. (next, Reply.ok, [])
  handle world state (Command.unsubscribe pid topic) = (unsubscribe state pid topic, Reply.ok, [])
  handle world state (Command.initiate_shutdown reason) =
      let (next, sends) = initiate_shutdown state reason in (next, Reply.ok, sends)
  handle world state Command.timed_out =
      let (next, sends) = check_idle_timeout state world.now in (next, Reply.no_reply, sends)

  -- `run`: the commands in the order in which they came.
  unfoldable pub run : List (World × Command) → State → State
  unfolding handle
  run [] state = state
  run ((world, c) ∷ rest) state = run rest (handle world state c).0
