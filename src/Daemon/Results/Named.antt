-- ===== src/Daemon/Results/Named.antt =====
-- The names of results, in crates/montre-daemon/src/state.rs: what is saved is found again.
use montre.Prelude.{
  ◌≡◌, ◌≢◌, refl, sym, ap, ◌∙◌, subst, some, none, some-eq-some, Text, Option-split, List, [], ◌∷◌,
  ◌++◌,
}
use montre.Index.Corpus.{lookup}
use montre.Index.Maps.{
  remove_key, contains_key, lookup-insert_key, lookup-remove_key, lookup-remove_key_other,
  lookup-insert_key_other, contains_key-none,
}
use montre.Daemon.Protocol.{ResultMetadata, ResultForm, named_result_not_found}
use montre.Daemon.State.{
  State, replay_named_results, ResultEntry, NamedResultRecord, done, failed, Send,
}
use montre.Daemon.Results.{
  Disk, remove_key, contains_key, promote, record_of, save_result, load_named, delete_named,
  realized, pending, listed,
}
use montre.Daemon.Session.Steps.{Holds, Holds-done, Holds-failed, Holds-if}

-- The metadata of a result under a name, field by field.
abbrev pub named_metadata : Text → ResultMetadata → ResultMetadata
named_metadata name m = record {
  handle = m.handle;
  query = m.query;
  created_at = m.created_at;
  materialized_at = m.materialized_at;
  hit_count = m.hit_count;
  corpus_id = m.corpus_id;
  name = some name;
  form = ResultForm.query_backed;
}

-- What is kept on the disk of a result.
abbrev pub kept_record : Text → ResultEntry → NamedResultRecord
kept_record handle existing = record {
  handle = handle;
  cql = existing.cql;
  hit_count = existing.metadata.hit_count;
  created_at = existing.metadata.created_at;
}

-- The name was free and the handle had a result; the name has it now, with the hits and the query
-- that it had, and every other name and handle has what it had.
abbrev Saved : State → Text → Text → ResultMetadata × State × List Send → Type 0
Saved state handle name (metadata, next, sends) =
    (existing : ResultEntry) × (lookup handle state.results ≡ some existing)
    × (lookup name state.named_results ≡ none)
    × (metadata ≡ named_metadata name existing.metadata)
    × (load_named next name ≡ done (realized metadata))
    × (lookup handle next.results
        ≡ some (record { cql = existing.cql; hits = existing.hits; metadata = metadata }))
    × (lookup name next.named_results ≡ some (kept_record handle existing))
    × ((other : Text)
        → other ≢ name
        → lookup other next.named_results ≡ lookup other state.named_results)
    × ((other : Text) → other ≢ handle → lookup other next.results ≡ lookup other state.results)

load_named-realized :
    (state : State) (name : Text) (saved : NamedResultRecord) (entry : ResultEntry)
    → lookup name state.named_results ≡ some saved
    → lookup saved.handle state.results ≡ some entry
    → load_named state name ≡ done (realized entry.metadata)
unfolding load_named
load_named-realized state name saved entry e f = rw (e, f, load_named) refl

load_named-pending :
    (state : State) (name : Text) (saved : NamedResultRecord)
    → lookup name state.named_results ≡ some saved
    → lookup saved.handle state.results ≡ none
    → load_named state name ≡ done (pending saved.handle saved.cql saved.created_at)
unfolding load_named
load_named-pending state name saved e f = rw (e, f, load_named) refl

load_named-absent :
    (state : State) (name : Text)
    → lookup name state.named_results ≡ none
    → load_named state name ≡ failed named_result_not_found
unfolding load_named
load_named-absent state name e = rw (e, load_named) refl

save_result-Saved :
    (persists : Disk) (state : State) (handle name : Text)
    → Holds (Saved state handle name) (save_result persists state handle name)
unfolding save_result
save_result-Saved persists state handle name =
    Holds-if (contains_key name state.named_results) (λ _. Holds-failed)
      λ absent.
        Option-split (Holds (Saved state handle name)) (lookup handle state.results)
          (λ _. Holds-failed)
          λ existing found.
            let entry = promote name existing in
            let saved = record_of handle entry in
            Holds-if (persists (state.named_results ++ (name, saved) ∷ []))
              (λ _. Holds-done (
                existing,
                found,
                contains_key-none name state.named_results absent,
                refl,
                load_named-realized _ name saved entry
                    (lookup-insert_key name saved state.named_results)
                    (lookup-insert_key handle entry state.results),
                lookup-insert_key handle entry state.results,
                lookup-insert_key name saved state.named_results,
                λ other apart. lookup-insert_key_other other name saved state.named_results apart,
                λ other apart. lookup-insert_key_other other handle entry state.results apart,
              ))
              (λ _. Holds-failed)

-- If save_result succeeds, the name was free and the handle had a result. Afterwards the name loads
-- the metadata of that result, with the name and the form `query_backed` set and every other field
-- as before, which is also what was returned; the handle has the same query and hits; the other
-- names keep their records and the other handles their results. In a daemon that is started again
-- with the records, and has no result under the handle, the name loads as pending, with the handle,
-- the query and the time of that result, and is listed with its number of hits.
pub save_result-loads :
    (persists : Disk) (state next fresh : State) (handle name : Text) (metadata : ResultMetadata)
    (sends : List Send)
    → save_result persists state handle name ≡ done (metadata, next, sends)
    → lookup handle fresh.results ≡ none
    → let again = replay_named_results fresh next.named_results in
      (existing : ResultEntry) × (lookup handle state.results ≡ some existing)
      × (load_named state name ≡ failed named_result_not_found)
      × (metadata ≡ named_metadata name existing.metadata)
      × (load_named next name ≡ done (realized metadata))
      × (lookup handle next.results
          ≡ some (record { cql = existing.cql; hits = existing.hits; metadata = metadata }))
      × ((other : Text)
          → other ≢ name
          → lookup other next.named_results ≡ lookup other state.named_results)
      × ((other : Text) → other ≢ handle → lookup other next.results ≡ lookup other state.results)
      × (load_named again name ≡ done (pending handle existing.cql existing.metadata.created_at))
      × ((r : NamedResultRecord) × (lookup name again.named_results ≡ some r)
          × ((listed again (name, r)).hit_count ≡ existing.metadata.hit_count))
unfolding listed
save_result-loads persists state next fresh handle name metadata sends e gone =
    let (existing, found, absent, same, loads, entry, kept, names, handles) =
      (subst (Holds (Saved state handle name)) e
        (save_result-Saved persists state handle name)).outcome in
    let r = kept_record handle existing in
    let again = replay_named_results fresh next.named_results in
    (
      existing,
      found,
      load_named-absent state name absent,
      same,
      loads,
      entry,
      names,
      handles,
      load_named-pending again name r kept gone,
      (r, kept, rw (listed, gone) refl),
    )

-- What is left of a name that shares its handle with the deleted one.
abbrev Shared : Text → Text → NamedResultRecord → State × List Send → Type 0
Shared name other shared (next, sends) =
    (load_named next name ≡ failed named_result_not_found)
    × (load_named next other ≡ done (pending shared.handle shared.cql shared.created_at))

delete_named-Shared :
    (persists : Disk) (state : State) (name other : Text) (shared : NamedResultRecord)
    → other ≢ name
    → lookup other state.named_results ≡ some shared
    → ((saved : NamedResultRecord)
        → lookup name state.named_results ≡ some saved
        → shared.handle ≡ saved.handle)
    → Holds (Shared name other shared) (delete_named persists state name)
unfolding delete_named
delete_named-Shared persists state name other shared apart f same =
    Option-split (Holds (Shared name other shared)) (lookup name state.named_results)
      (λ _. Holds-failed)
      λ saved e.
        Holds-if (persists (remove_key name state.named_results))
          (λ _. Holds-done (
            load_named-absent _ name (lookup-remove_key name state.named_results),
            load_named-pending _ other shared
                (lookup-remove_key_other other name state.named_results apart ∙ f)
                (subst (λ handle. lookup handle (remove_key saved.handle state.results) ≡ none)
                  (sym (same saved e)) (lookup-remove_key saved.handle state.results)),
          ))
          (λ _. Holds-failed)

-- Where two names share a handle, deleting the one takes the result of the other away: it is still
-- there, but loads no more than what its query was.
pub delete_named-shared :
    (persists : Disk) (state next : State) (name other : Text) (sends : List Send)
    (saved shared : NamedResultRecord)
    → other ≢ name
    → lookup name state.named_results ≡ some saved
    → lookup other state.named_results ≡ some shared
    → shared.handle ≡ saved.handle
    → delete_named persists state name ≡ done (next, sends)
    → (load_named next name ≡ failed named_result_not_found)
      × (load_named next other ≡ done (pending shared.handle shared.cql shared.created_at))
delete_named-shared persists state next name other sends saved shared apart e f same h =
    let one : (r : NamedResultRecord)
        → lookup name state.named_results ≡ some r
        → shared.handle ≡ r.handle =
      λ r g. same ∙ ap (λ (x : NamedResultRecord). x.handle) (some-eq-some (sym e ∙ g)) in
    (subst (Holds (Shared name other shared)) h
      (delete_named-Shared persists state name other shared apart f one)).outcome
