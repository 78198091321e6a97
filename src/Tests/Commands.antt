-- ===== src/Tests/Commands.antt =====
-- A session, command by command.
use montre.Prelude.{
  ℕ, ap, Text, text_eq, codes, some, none, true, [], ◌∷◌, ◌∈◌, List, arith, ◌≡◌, ◌≢◌, ◌↔◌, refl,
  inl,
}
use montre.Index.Corpus.{lookup}
use montre.Daemon.Protocol.{
  InterestKind, ProcessKind, Interest, RegisterParams, Topic, ResultMetadata, ResultForm,
  conllu_view, sentence_mirror, coupler_update, named_result_not_found,
}
use montre.Daemon.State.{
  State, replay_named_results, ResultEntry, NamedResultRecord, Send, new, done, failed,
  check_idle_timeout,
}
use montre.Daemon.Interests.{publish_interest}
use montre.Daemon.Results.{
  insert_result, save_result, load_named, delete_named, realized, pending, listed,
}
use montre.Query.Sequence.Hits.{hit}
use montre.Daemon.Results.Named.{named_metadata, save_result-loads, delete_named-shared}
use montre.Daemon.Command.{Command}
use montre.Daemon.Session.{World, run}
use montre.Daemon.Session.Invariant.{IsSession}
use montre.Daemon.Session.Reached.{run-IsSession}
use montre.Daemon.Session.Consumed.{Consumed, publish_interest-Consumed}
use montre.Daemon.Session.Idle.{IsIdle, check_idle_timeout-IsIdle}
use montre.Tests.Samples.{corpus}

abbrev world : World
world = record {
  now = 7;
  now_rfc3339 = codes "2024";
  generate_handle = codes "r-1";
  persists = λ records. true;
}

abbrev params : RegisterParams
params = record {
  protocol_version = 1;
  kind = ProcessKind.reader;
  label = none;
  provides = InterestKind.sentence ∷ [];
  consumes = InterestKind.sentence ∷ [];
}

abbrev commands : List (World × Command)
commands =
    (world, Command.register params)
    ∷ (world, Command.register params)
    ∷ (world, Command.subscribe 1 Topic.roster_changed)
    ∷ (world, Command.coupler_create 1 2 conllu_view)
    ∷ (world, Command.publish_interest 1 (Interest.sentence 0 0))
    ∷ (world, Command.unregister 2)
    ∷ []

run-IsSession_example : IsSession (run corpus commands (new 1 [] 0))
run-IsSession_example = run-IsSession corpus 1 [] 0 commands (omega arith)

-- Two processes, the second of which mirrors the first.
abbrev mirrored : List (World × Command)
mirrored =
    (world, Command.register params)
    ∷ (world, Command.register params)
    ∷ (world, Command.coupler_create 1 2 sentence_mirror)
    ∷ []

abbrev mirror_session : State
mirror_session = run corpus mirrored (new 1 [] 0)

abbrev mirrored_update : Send
mirrored_update = record { recipient = 2; notification = coupler_update 1 (Interest.sentence 0 0) }

is_sent : mirrored_update ∈ (publish_interest corpus mirror_session 1 (Interest.sentence 0 0)).1
unfolding run publish_interest
is_sent = inl refl

publish_interest-Consumed_example :
    Consumed (publish_interest corpus mirror_session 1 (Interest.sentence 0 0)).0 1 mirrored_update
publish_interest-Consumed_example =
    publish_interest-Consumed corpus mirror_session 1 (Interest.sentence 0 0)
      (run-IsSession corpus 1 [] 0 mirrored (omega arith)) mirrored_update is_sent

-- A state without processes, which is to stop after ten ticks.
abbrev idle_state : State
idle_state = record (new 1 [] 5) { idle_timeout = some 10 }

idle_state-IsSession : IsSession idle_state
unfolding run
idle_state-IsSession = run-IsSession corpus 1 [] 5 [] (omega arith)

check_idle_timeout-IsIdle_example :
    ((check_idle_timeout idle_state 15).0.shutting_down ≡ true)
    ↔ IsIdle idle_state.roster idle_state.roster_emptied_at 10 15
check_idle_timeout-IsIdle_example =
    check_idle_timeout-IsIdle idle_state 10 15 idle_state-IsSession refl refl

-- A result with the handle r-1, which two names share at the end.
abbrev one_result : State
unfolding insert_result
one_result =
    (insert_result (new 1 [] 0) (codes "r-1") (codes "2024") (codes "[]") (hit 0 1 [] ∷ [])).0

abbrev metadata_of : Text → ResultMetadata
metadata_of name = record {
  handle = codes "r-1";
  query = codes "[]";
  created_at = codes "2024";
  materialized_at = none;
  hit_count = 1;
  corpus_id = [];
  name = some name;
  form = ResultForm.query_backed;
}

abbrev entry_of : Text → ResultEntry
entry_of name = record { cql = codes "[]"; hits = hit 0 1 [] ∷ []; metadata = metadata_of name }

abbrev saved : NamedResultRecord
saved = record { handle = codes "r-1"; cql = codes "[]"; hit_count = 1; created_at = codes "2024" }

abbrev saved_once : State
saved_once = record one_result {
  results = (codes "r-1", entry_of (codes "a")) ∷ [];
  named_results = (codes "a", saved) ∷ [];
}

abbrev saved_twice : State
saved_twice = record one_result {
  results = (codes "r-1", entry_of (codes "b")) ∷ [];
  named_results = (codes "b", saved) ∷ (codes "a", saved) ∷ [];
}

abbrev deleted : State
deleted = record one_result { results = []; named_results = (codes "b", saved) ∷ [] }

is_saved :
    save_result (λ _. true) one_result (codes "r-1") (codes "a")
    ≡ done (metadata_of (codes "a"), saved_once, [])
unfolding save_result insert_result text_eq
is_saved = refl

is_saved_again :
    save_result (λ _. true) saved_once (codes "r-1") (codes "b")
    ≡ done (metadata_of (codes "b"), saved_twice, [])
unfolding save_result insert_result text_eq
is_saved_again = refl

is_deleted : delete_named (λ _. true) saved_twice (codes "a") ≡ done (deleted, [])
unfolding delete_named insert_result text_eq
is_deleted = refl

no_results : lookup (codes "r-1") (new 2 [] 0).results ≡ none
unfolding lookup
no_results = refl

save_result-loads_example :
    let again = replay_named_results (new 2 [] 0) saved_once.named_results in
    (existing : ResultEntry) × (lookup (codes "r-1") one_result.results ≡ some existing)
    × (load_named one_result (codes "a") ≡ failed named_result_not_found)
    × (metadata_of (codes "a") ≡ named_metadata (codes "a") existing.metadata)
    × (load_named saved_once (codes "a") ≡ done (realized (metadata_of (codes "a"))))
    × (lookup (codes "r-1") saved_once.results
        ≡ some (record {
          cql = existing.cql;
          hits = existing.hits;
          metadata = metadata_of (codes "a");
        }))
    × ((other : Text)
        → other ≢ codes "a"
        → lookup other saved_once.named_results ≡ lookup other one_result.named_results)
    × ((other : Text)
        → other ≢ codes "r-1"
        → lookup other saved_once.results ≡ lookup other one_result.results)
    × (load_named again (codes "a")
        ≡ done (pending (codes "r-1") existing.cql existing.metadata.created_at))
    × ((r : NamedResultRecord) × (lookup (codes "a") again.named_results ≡ some r)
        × ((listed again (codes "a", r)).hit_count ≡ existing.metadata.hit_count))
save_result-loads_example =
    save_result-loads (λ _. true) one_result saved_once (new 2 [] 0) (codes "r-1") (codes "a")
      (metadata_of (codes "a")) [] is_saved no_results

found_a : lookup (codes "a") saved_twice.named_results ≡ some saved
unfolding lookup text_eq
found_a = refl

found_b : lookup (codes "b") saved_twice.named_results ≡ some saved
unfolding lookup text_eq
found_b = refl

abbrev first : Text → ℕ
first [] = 0
first (c ∷ s) = c

apart : ¬ (first (codes "b") ≡ first (codes "a"))
apart e = omega (arith, e)

delete_named-shared_example :
    (load_named deleted (codes "a") ≡ failed named_result_not_found)
    × (load_named deleted (codes "b") ≡ done (pending (codes "r-1") (codes "[]") (codes "2024")))
delete_named-shared_example =
    delete_named-shared (λ _. true) saved_twice deleted (codes "a") (codes "b") [] saved saved
      (λ e. apart (ap first e)) found_a found_b refl is_deleted
