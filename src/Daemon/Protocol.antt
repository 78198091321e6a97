-- ===== src/Daemon/Protocol.antt =====
-- crates/montre-daemon/src/protocol.rs: what processes and the daemon say to one another; and, from
-- state.rs, which couplers fit which processes.
use montre.Prelude.{
  ℕ, Text, List, [], ◌∷◌, Option, Bool, true, false, ◌&&◌, not, ◌==◌, any, if◌then◌else◌,
}

pub data ProcessKind : Type 0 where
  reader kwic conllu docs vocab results external : ProcessKind

pub data InterestKind : Type 0 where
  position span sentence hit results document : InterestKind

-- A handle is a text. The numbers are a document and positions, as in the source.
pub data Interest : Type 0 where
  position : ℕ → ℕ → Interest
  span : ℕ → ℕ → ℕ → Interest
  sentence : ℕ → ℕ → Interest
  hit : Text → ℕ → Interest
  results : Text → Interest
  document : ℕ → Interest

-- `Interest::kind`.
abbrev pub interest_kind : Interest → InterestKind
interest_kind (Interest.position doc at) = InterestKind.position
interest_kind (Interest.span doc start end) = InterestKind.span
interest_kind (Interest.sentence doc sent) = InterestKind.sentence
interest_kind (Interest.hit result index) = InterestKind.hit
interest_kind (Interest.results handle) = InterestKind.results
interest_kind (Interest.document doc) = InterestKind.document

pub data CouplerKind : Type 0 where
  sentence_mirror : CouplerKind
  alignment : Text → CouplerKind
  kwic_selection doc_picker_selection named_results_selection conllu_view : CouplerKind

pub record Coupler : Type 0 where
  pub id : ℕ
  pub master_id : ℕ
  pub follower_id : ℕ
  pub kind : CouplerKind

pub record ProcessInfo : Type 0 where
  pub id : ℕ
  pub kind : ProcessKind
  pub label : Option Text
  pub provides : List InterestKind
  pub consumes : List InterestKind
  pub current_interest : Option Interest

pub data ResultForm : Type 0 where
  session query_backed materialized : ResultForm

pub record ResultMetadata : Type 0 where
  pub handle : Text
  pub query : Text
  pub created_at : Text
  pub materialized_at : Option Text
  pub hit_count : ℕ
  pub corpus_id : Text
  pub name : Option Text
  pub form : ResultForm

pub record RegisterParams : Type 0 where
  pub protocol_version : ℕ
  pub kind : ProcessKind
  pub label : Option Text
  pub provides : List InterestKind
  pub consumes : List InterestKind

pub data Topic : Type 0 where
  roster_changed named_results_changed : Topic

pub data ShutdownReason : Type 0 where
  idle_timeout signal fatal_error requested : ShutdownReason

pub data RosterEvent : Type 0 where
  registered unregistered label_updated : RosterEvent

pub data NamedResultsEvent : Type 0 where
  saved deleted : NamedResultsEvent

-- The notifications, by their method.
pub data Notification : Type 0 where
  coupler_update : ℕ → Interest → Notification
  roster_changed : RosterEvent → ProcessInfo → Notification
  named_results_changed : NamedResultsEvent → Text → Option ResultMetadata → Notification
  shutdown : ShutdownReason → Notification

-- The codes of the errors; the message and the data of an error are left out.
pub data ProtocolError : Type 0 where
  protocol_version_mismatch result_handle_invalid named_result_already_exists : ProtocolError
  named_result_not_found result_already_materialized alignment_not_found : ProtocolError
  span_outside_alignment coupler_incompatible coupler_not_found coupler_cycle : ProtocolError
  process_not_found internal : ProtocolError

-- The derived equality of the kinds, by their number.
abbrev pub number : InterestKind → ℕ
number InterestKind.position = 0
number InterestKind.span = 1
number InterestKind.sentence = 2
number InterestKind.hit = 3
number InterestKind.results = 4
number InterestKind.document = 5

unfoldable pub accepted_in : CouplerKind → List InterestKind
accepted_in sentence_mirror = InterestKind.position ∷ InterestKind.span ∷ InterestKind.sentence ∷ []
accepted_in (alignment name) = InterestKind.sentence ∷ InterestKind.span ∷ []
accepted_in kwic_selection = InterestKind.hit ∷ []
accepted_in doc_picker_selection = InterestKind.document ∷ []
accepted_in named_results_selection = InterestKind.results ∷ []
accepted_in conllu_view = InterestKind.sentence ∷ []

unfoldable pub produced_out : CouplerKind → List InterestKind
produced_out sentence_mirror = InterestKind.sentence ∷ []
produced_out (alignment name) = InterestKind.span ∷ []
produced_out kwic_selection = InterestKind.span ∷ []
produced_out doc_picker_selection = InterestKind.document ∷ []
produced_out named_results_selection = InterestKind.results ∷ []
produced_out conllu_view = InterestKind.sentence ∷ []

-- `a.iter().any(|k| b.contains(k))`
unfoldable pub overlap : List InterestKind → List InterestKind → Bool
overlap a b = any (λ k. any (λ j. number j == number k) b) a

unfoldable pub coupler_kind_compat : CouplerKind → List InterestKind → List InterestKind → Bool
unfolding overlap accepted_in produced_out
coupler_kind_compat kind provides consumes =
    overlap (accepted_in kind) provides && overlap (produced_out kind) consumes

abbrev pub contains : List InterestKind → InterestKind → Bool
contains kinds k = any (λ j. number j == number k) kinds

abbrev pub process_number : ProcessKind → ℕ
process_number ProcessKind.reader = 0
process_number ProcessKind.kwic = 1
process_number ProcessKind.conllu = 2
process_number ProcessKind.docs = 3
process_number ProcessKind.vocab = 4
process_number ProcessKind.results = 5
process_number ProcessKind.external = 6

pub record RosterFilter : Type 0 where
  pub provides_any_of : List InterestKind
  pub consumes_any_of : List InterestKind
  pub kinds : List ProcessKind

abbrev is_empty : {A : Type 0} → List A → Bool
is_empty [] = true
is_empty (a ∷ rest) = false

unfoldable pub filter_matches : RosterFilter → ProcessInfo → Bool
unfolding overlap
filter_matches filter info =
    if not (is_empty filter.kinds)
      && not (any (λ k. process_number k == process_number info.kind) filter.kinds)
    then false
    else if not (is_empty filter.provides_any_of)
        && not (overlap filter.provides_any_of info.provides)
    then false
    else if not (is_empty filter.consumes_any_of)
        && not (overlap filter.consumes_any_of info.consumes)
    then false
    else true
