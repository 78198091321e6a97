-- ===== src/Daemon/Results.antt =====
-- crates/montre-daemon/src/state.rs: the results of queries, and their names.
pub mod Named
use montre.Prelude.{
  if◌then◌else◌, Bool, true, false, Option, some, none, Text, text_eq, List, [], ◌∷◌, ◌++◌, map,
  length,
}
use montre.Index.Corpus.{lookup}
use montre.Index.Maps.{remove_key, insert_key, contains_key}
use montre.Query.Sequence.Hits.{Hit}
use montre.Daemon.Protocol.{
  ResultForm, ResultMetadata, Topic, Notification, NamedResultsEvent, result_handle_invalid,
  named_result_already_exists, named_result_not_found, result_already_materialized, internal,
}
use montre.Daemon.State.{
  State, ResultEntry, NamedResultRecord, Outcome, done, failed, Send, broadcast,
}

abbrev pub notify_named_results :
    State → NamedResultsEvent → Text → Option ResultMetadata → List Send
notify_named_results state event name metadata =
    broadcast state Topic.named_results_changed
      (Notification.named_results_changed event name metadata)

-- `insert_result`, with the handle that was generated and the time.
unfoldable pub insert_result : State → Text → Text → Text → List Hit → State × ResultMetadata
unfolding remove_key
insert_result state handle now cql hits =
    let metadata : ResultMetadata = record {
      handle = handle;
      query = cql;
      created_at = now;
      materialized_at = none;
      hit_count = length hits;
      corpus_id = state.corpus_id;
      name = none;
      form = ResultForm.session;
    } in
    (
      record state {
        results =
            insert_key handle (record { cql = cql; hits = hits; metadata = metadata })
              state.results;
      },
      metadata,
    )

abbrev pub promote : Text → ResultEntry → ResultEntry
promote name entry = record entry {
  metadata = record entry.metadata { name = some name; form = ResultForm.query_backed };
}

abbrev pub record_of : Text → ResultEntry → NamedResultRecord
record_of handle entry = record {
  handle = handle;
  cql = entry.cql;
  hit_count = entry.metadata.hit_count;
  created_at = entry.metadata.created_at;
}

-- `storage::persist_named_results` of the records, on a disk that may refuse.
abbrev pub Disk : Type 0
Disk = List (Text × NamedResultRecord) → Bool

unfoldable pub save_result :
    Disk → State → Text → Text → Outcome (ResultMetadata × State × List Send)
unfolding lookup remove_key broadcast
save_result persists state handle name =
    if contains_key name state.named_results
    then failed named_result_already_exists
    else elim (lookup handle state.results) [
      | none ↦ failed result_handle_invalid
      | some existing ↦
          let entry = promote name existing in
          let saved = record_of handle entry in
          if persists (state.named_results ++ (name, saved) ∷ [])
          then (let next = record state {
            results = insert_key handle entry state.results;
            named_results = insert_key name saved state.named_results;
          } in
              done (
                entry.metadata,
                next,
                notify_named_results next NamedResultsEvent.saved name (some entry.metadata),
              ))
          else failed internal
    ]

abbrev pub is_form : ResultForm → ResultForm → Bool
is_form ResultForm.session ResultForm.session = true
is_form ResultForm.query_backed ResultForm.query_backed = true
is_form ResultForm.materialized ResultForm.materialized = true
is_form _ _ = false

abbrev pub materialize : Text → ResultEntry → ResultEntry
materialize now entry = record entry {
  metadata = record entry.metadata { form = ResultForm.materialized; materialized_at = some now };
}

unfoldable pub materialize_result :
    State → Text → Text → Outcome (ResultMetadata × State × List Send)
unfolding lookup remove_key broadcast
materialize_result state now name = elim (lookup name state.named_results) [
  | none ↦ failed named_result_not_found
  | some saved ↦ elim (lookup saved.handle state.results) [
    | none ↦ failed result_handle_invalid
    | some existing ↦
        if is_form existing.metadata.form ResultForm.materialized
        then failed result_already_materialized
        else (let entry = materialize now existing in
            let next = record state { results = insert_key saved.handle entry state.results } in
            done (
              entry.metadata,
              next,
              notify_named_results next NamedResultsEvent.saved name (some entry.metadata),
            ))
  ]
]

pub data LoadOutcome : Type 0 where
  realized : ResultMetadata → LoadOutcome
  pending : Text → Text → Text → LoadOutcome

unfoldable pub load_named : State → Text → Outcome LoadOutcome
unfolding lookup
load_named state name = elim (lookup name state.named_results) [
  | none ↦ failed named_result_not_found
  | some saved ↦ elim (lookup saved.handle state.results) [
    | some entry ↦ done (realized entry.metadata)
    | none ↦ done (pending saved.handle saved.cql saved.created_at)
  ]
]

unfoldable pub install_replayed_result : State → ResultEntry → State
unfolding remove_key
install_replayed_result state entry = record state {
  results = insert_key entry.metadata.handle entry state.results;
}

-- The metadata of a name: that of the result, or what is known of one that is not there.
unfoldable pub listed : State → Text × NamedResultRecord → ResultMetadata
unfolding lookup
listed state (name, saved) = elim (lookup saved.handle state.results) [
  | some entry ↦ entry.metadata
  | none ↦ record {
    handle = saved.handle;
    query = saved.cql;
    created_at = saved.created_at;
    materialized_at = none;
    hit_count = saved.hit_count;
    corpus_id = state.corpus_id;
    name = some name;
    form = ResultForm.query_backed;
  }
]

unfoldable pub list_named : State → List ResultMetadata
unfolding listed
list_named state = map (listed state) state.named_results

unfoldable pub delete_named : Disk → State → Text → Outcome (State × List Send)
unfolding lookup remove_key broadcast
delete_named persists state name = elim (lookup name state.named_results) [
  | none ↦ failed named_result_not_found
  | some saved ↦
      if persists (remove_key name state.named_results)
      then (let next = record state {
        named_results = remove_key name state.named_results;
        results = remove_key saved.handle state.results;
      } in
          done (next, notify_named_results next NamedResultsEvent.deleted name none))
      else failed internal
]

unfoldable pub discard_handle : State → Text → State
unfolding lookup remove_key
discard_handle state handle = elim (lookup handle state.results) [
  | none ↦ state
  | some entry ↦
      if is_form entry.metadata.form ResultForm.session
      then record state { results = remove_key handle state.results }
      else state
]
