-- ===== src/Daemon/Command.antt =====
-- crates/montre-daemon/src/state.rs: `Command`, and the replies.
use montre.Prelude.{ℕ, Option, Text, List}
use montre.Query.Sequence.Hits.{Hit}
use montre.Daemon.Protocol.{
  Interest, CouplerKind, Coupler, ProcessInfo, RegisterParams, RosterFilter, ResultMetadata, Topic,
  ShutdownReason, ProtocolError,
}
use montre.Daemon.State.{ResultEntry}
use montre.Daemon.Results.{LoadOutcome}

-- The commands, and the time at which no command came.
pub data Command : Type 0 where
  register : RegisterParams → Command
  unregister : ℕ → Command
  update_label : ℕ → Option Text → Command
  roster : Option RosterFilter → Command
  publish_interest : ℕ → Interest → Command
  insert_result : Text → List Hit → Command
  save_result : Text → Text → Command
  materialize_result load_named : Text → Command
  install_replayed_result : ResultEntry → Command
  list_named : Command
  delete_named discard_handle : Text → Command
  coupler_create : ℕ → ℕ → CouplerKind → Command
  coupler_remove : ℕ → Command
  coupler_list : Option ℕ → Command
  subscribe unsubscribe : ℕ → Topic → Command
  initiate_shutdown : ShutdownReason → Command
  timed_out : Command

-- What a command is answered.
pub data Reply : Type 0 where
  ok no_reply : Reply
  refused : ProtocolError → Reply
  process : ℕ → Reply
  processes : List ProcessInfo → Reply
  metadata : ResultMetadata → Reply
  loaded : LoadOutcome → Reply
  listed : List ResultMetadata → Reply
  coupler : ℕ → Reply
  couplers : List Coupler → Reply
