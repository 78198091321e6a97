-- ===== src/Daemon/State.antt =====
-- crates/montre-daemon/src/state.rs: the state of the daemon, its processes and its subscriptions.
use montre.Prelude.{
  ℕ, ◌+◌, ◌%◌, ◌==◌, leb, ◌-◌, not, if◌then◌else◌, Bool, true, false, Option, some, none, Text,
  List, [], ◌∷◌, map, any, keep,
}
use montre.Query.Sequence.Hits.{Hit}
use montre.Daemon.Protocol.{
  ProcessInfo, Coupler, Topic, Notification, RosterEvent, ShutdownReason, ResultMetadata,
  RegisterParams, RosterFilter, ProtocolError, protocol_version_mismatch, process_not_found,
  filter_matches,
}

pub record ResultEntry : Type 0 where
  pub cql : Text
  pub hits : List Hit
  pub metadata : ResultMetadata

pub record NamedResultRecord : Type 0 where
  pub handle : Text
  pub cql : Text
  pub hit_count : ℕ
  pub created_at : Text

-- A hash map is a list of its entries, one for each key. `results` is the table of the corpus handle,
-- which this thread alone writes, and `shutting_down` the mark of the shutdown coordinator. Instants
-- are numbers of a clock.
pub record State : Type 0 where
  pub daemon_epoch : ℕ
  pub corpus_id : Text
  pub shutting_down : Bool
  pub roster : List ProcessInfo
  pub couplers : List Coupler
  pub subscriptions : Topic → List ℕ
  pub named_results : List (Text × NamedResultRecord)
  pub results : List (Text × ResultEntry)
  pub idle_timeout : Option ℕ
  pub roster_emptied_at : Option ℕ
  pub next_process_id : ℕ
  pub next_coupler_id : ℕ

pub data Outcome (A : Type 0) : Type 0 where
  done : A → Outcome A
  failed : ProtocolError → Outcome A

-- A notification that is offered to the queue of a process. A queue that is full drops it.
pub record Send : Type 0 where
  pub recipient : ℕ
  pub notification : Notification

-- `State::new`.
abbrev pub new : ℕ → Text → ℕ → State
new epoch corpus_id now = record {
  daemon_epoch = epoch;
  corpus_id = corpus_id;
  shutting_down = false;
  roster = [];
  couplers = [];
  subscriptions = λ _. [];
  named_results = [];
  results = [];
  idle_timeout = none;
  roster_emptied_at = some now;
  next_process_id = 1;
  next_coupler_id = 1;
}

abbrev pub set_idle_timeout : State → Option ℕ → State
set_idle_timeout state timeout = record state { idle_timeout = timeout }

-- `replay_named_results`, with the records that the disk holds.
abbrev pub replay_named_results : State → List (Text × NamedResultRecord) → State
replay_named_results state loaded = record state { named_results = loaded }

-- `allocate_coupler_id` and `allocate_process_id`: an id is a `u32`, and wraps.
abbrev pub next_id : ℕ → ℕ
next_id n = (n + 1) % 4294967296

unfoldable pub find_process : ℕ → List ProcessInfo → Option ProcessInfo
find_process id [] = none
find_process id (p ∷ ps) = if p.id == id then some p else find_process id ps

abbrev pub is_registered : ℕ → List ProcessInfo → Bool
is_registered id roster = any (λ p. p.id == id) roster

-- `broadcast`: to the subscribers that are still there.
unfoldable pub broadcast : State → Topic → Notification → List Send
broadcast state topic notification =
    map (λ pid. record { recipient = pid; notification = notification })
      (keep (λ pid. is_registered pid state.roster) (state.subscriptions topic))

abbrev pub notify_roster : State → RosterEvent → ProcessInfo → List Send
notify_roster state event info =
    broadcast state Topic.roster_changed (Notification.roster_changed event info)

abbrev pub registered_info : ℕ → RegisterParams → ProcessInfo
registered_info id params = record {
  id = id;
  kind = params.kind;
  label = params.label;
  provides = params.provides;
  consumes = params.consumes;
  current_interest = none;
}

-- `register`, with the id that the reply holds.
unfoldable pub register : State → RegisterParams → Outcome (ℕ × State × List Send)
unfolding broadcast
register state params =
    if not (params.protocol_version == 1)
    then failed protocol_version_mismatch
    else (let id = state.next_process_id in
        let info = registered_info id params in
        let next = record state {
          roster = info ∷ keep (λ p. not (p.id == id)) state.roster;
          roster_emptied_at = none;
          next_process_id = next_id id;
        } in
        done (id, next, notify_roster next RosterEvent.registered info))

abbrev pub with_label : Option Text → ProcessInfo → ProcessInfo
with_label label p = record p { label = label }

-- The value of a key, changed.
abbrev pub update_process : ℕ → (ProcessInfo → ProcessInfo) → List ProcessInfo → List ProcessInfo
update_process id f [] = []
update_process id f (p ∷ ps) = if p.id == id then f p ∷ ps else p ∷ update_process id f ps

unfoldable pub update_label : State → ℕ → Option Text → Outcome (State × List Send)
unfolding find_process broadcast
update_label state id label = elim (find_process id state.roster) [
  | none ↦ failed process_not_found
  | some p ↦
      let next = record state { roster = update_process id (with_label label) state.roster } in
      done (next, notify_roster next RosterEvent.label_updated (with_label label p))
]

unfoldable pub roster_snapshot : State → Option RosterFilter → List ProcessInfo
unfolding filter_matches
roster_snapshot state none = state.roster
roster_snapshot state (some filter) = keep (filter_matches filter) state.roster

abbrev pub topic_eq : Topic → Topic → Bool
topic_eq Topic.roster_changed Topic.roster_changed = true
topic_eq Topic.named_results_changed Topic.named_results_changed = true
topic_eq _ _ = false

-- The subscribers of a topic, changed.
abbrev pub with_subscribers : State → Topic → List ℕ → State
with_subscribers state topic pids = record state {
  subscriptions = λ t. if topic_eq t topic then pids else state.subscriptions t;
}

unfoldable pub subscribe : State → ℕ → Topic → Outcome State
subscribe state pid topic =
    if is_registered pid state.roster
    then done (
        with_subscribers state topic (pid ∷ keep (λ q. not (q == pid)) (state.subscriptions topic)))
    else failed process_not_found

unfoldable pub unsubscribe : State → ℕ → Topic → State
unsubscribe state pid topic =
    with_subscribers state topic (keep (λ q. not (q == pid)) (state.subscriptions topic))

-- `initiate_shutdown` and `notify_shutdown`, up to the thread that closes the streams.
unfoldable pub initiate_shutdown : State → ShutdownReason → State × List Send
initiate_shutdown state reason = if state.shutting_down then (state, []) else (
  record state { shutting_down = true },
  map (λ p. record { recipient = p.id; notification = Notification.shutdown reason }) state.roster,
)

unfoldable pub check_idle_timeout : State → ℕ → State × List Send
unfolding initiate_shutdown
check_idle_timeout state now = elim state.idle_timeout [
  | none ↦ (state, [])
  | some timeout ↦ elim state.roster_emptied_at [
    | none ↦ (state, [])
    | some emptied_at ↦
        if leb timeout (now - emptied_at)
        then initiate_shutdown state ShutdownReason.idle_timeout
        else (state, [])
  ]
]
