-- ===== src/Daemon/Interests.antt =====
-- crates/montre-daemon/src/state.rs and handlers/alignment.rs: what a master process is interested in,
-- and what its followers are told of it.
pub mod Projection
use montre.Prelude.{
  ℕ, ◌+◌, ◌-◌, ◌==◌, leb, ltb, not, if◌then◌else◌, Bool, true, false, ◌&&◌, Option, some, none,
  Text, codes, List, [], ◌∷◌, ◌++◌, map, flat_map, any, keep, get_elem?,
}
use montre.Core.{as_u32, Span}
use montre.Index.Corpus.{
  Corpus, lookup, spans, document_for_position, first_sentence_of_document,
  last_sentence_of_document,
}
use montre.Core.{span_containing}
use montre.Query.Sequence.Hits.{Hit}
use montre.Daemon.Protocol.{
  Interest, interest_kind, InterestKind, CouplerKind, Coupler, ProcessInfo, Notification,
  accepted_in, contains, coupler_update, sentence_mirror, alignment, kwic_selection,
  doc_picker_selection, named_results_selection, conllu_view,
}
use montre.Daemon.State.{
  State, ResultEntry, Outcome, done, failed, Send, find_process, update_process, is_registered,
}
use montre.Daemon.Couplers.{coupler_create}
use montre.Daemon.Interests.Projection.{project_alignment}

abbrev pub with_interest : Interest → ProcessInfo → ProcessInfo
with_interest interest p = record p { current_interest = some interest }

abbrev pub current_interest_of : State → ℕ → Option Interest
current_interest_of state pid = elim (find_process pid state.roster) [
  | none ↦ none
  | some p ↦ p.current_interest
]

module _ {B : Type 0} (corpus : Corpus B) where
  -- The difference of two 64-bit numbers wraps in a release build.
  unfoldable pub widen_position_to_sentence : ℕ → ℕ → List Interest
  unfolding document_for_position spans span_containing first_sentence_of_document
  widen_position_to_sentence doc position = elim (document_for_position corpus position) [
    | none ↦ []
    | some d ↦ if not (d == doc) then [] else elim (spans corpus (codes "sentence")) [
      | none ↦ []
      | some sents ↦ elim (span_containing sents position) [
        | none ↦ []
        | some global ↦ elim (first_sentence_of_document corpus doc) [
          | none ↦ []
          | some first ↦ Interest.sentence doc (as_u32 (global + 18446744073709551616 - first)) ∷ []
        ]
      ]
    ]
  ]

  unfoldable pub sentence_to_span : ℕ → ℕ → Option Span
  unfolding spans first_sentence_of_document last_sentence_of_document
  sentence_to_span doc sent = elim (first_sentence_of_document corpus doc) [
    | none ↦ none
    | some first ↦ elim (last_sentence_of_document corpus doc) [
      | none ↦ none
      | some last ↦
          if ltb last (first + sent) then none else elim (spans corpus (codes "sentence")) [
            | none ↦ none
            | some sents ↦ get_elem? sents (first + sent)
          ]
    ]
  ]

  -- The spans that an alignment leads to; an error leaves none.
  abbrev pub aligned : Text → ℕ → ℕ → ℕ → List Interest
  aligned name doc start end = elim (project_alignment corpus name doc start end) [
    | done targets ↦ map (λ (d, s, e). Interest.span d s e) targets
    | failed _ ↦ []
  ]

  -- The arms of `transform_interest`, by kind of coupler.
  abbrev pub mirror : Interest → List Interest
  mirror (Interest.sentence doc sent) = Interest.sentence doc sent ∷ []
  mirror (Interest.position doc position) = widen_position_to_sentence doc position
  mirror (Interest.span doc start end) = widen_position_to_sentence doc start
  mirror _ = []

  abbrev pub align : Text → Interest → List Interest
  align name (Interest.sentence doc sent) = elim (sentence_to_span doc sent) [
    | none ↦ []
    | some s ↦ aligned name doc s.start s.end
  ]
  align name (Interest.span doc start end) = aligned name doc start end
  align name _ = []

  abbrev pub select_hit : List (Text × ResultEntry) → Interest → List Interest
  select_hit results (Interest.hit result index) = elim (lookup result results) [
    | none ↦ []
    | some entry ↦ elim (get_elem? entry.hits index) [
      | none ↦ []
      | some hit ↦ Interest.span hit.document_index hit.span.start hit.span.end ∷ []
    ]
  ]
  select_hit results _ = []

  abbrev pub transform_by : List (Text × ResultEntry) → Interest → CouplerKind → List Interest
  transform_by results interest sentence_mirror = mirror interest
  transform_by results interest (alignment name) = align name interest
  transform_by results interest kwic_selection = select_hit results interest
  transform_by results interest doc_picker_selection = []
  transform_by results interest named_results_selection = []
  transform_by results interest conllu_view = []

  unfoldable pub transform_interest :
      List (Text × ResultEntry) → Interest → CouplerKind → List Interest
  unfolding accepted_in widen_position_to_sentence sentence_to_span project_alignment lookup
  transform_interest results interest kind =
      if contains (accepted_in kind) (interest_kind interest)
      then transform_by results interest kind
      else []

  -- The updates of one coupler, if its follower is still there.
  abbrev pub coupler_updates : State → Interest → ℕ → ℕ → CouplerKind → List Send
  coupler_updates state interest id follower kind =
      if is_registered follower state.roster
      then map
          (λ derived. record { recipient = follower; notification = coupler_update id derived })
          (transform_interest state.results interest kind)
      else []

  -- An interest of a kind that the process does not provide is dropped.
  unfoldable pub publish_interest : State → ℕ → Interest → State × List Send
  unfolding find_process transform_interest
  publish_interest state pid interest = elim (find_process pid state.roster) [
    | none ↦ (state, [])
    | some p ↦
        if not (contains p.provides (interest_kind interest))
        then (state, [])
        else (let next = record state {
          roster = update_process pid (with_interest interest) state.roster;
        } in
            (
              next,
              flat_map (λ (c : Coupler). coupler_updates next interest c.id c.follower_id c.kind)
                  (keep (λ (c : Coupler). c.master_id == pid) next.couplers),
            ))
  ]

  -- The whole of `coupler_create`: the follower is told of the interest that the master has.
  unfoldable pub coupler_create_and_tell :
      State → ℕ → ℕ → CouplerKind → Outcome (ℕ × State × List Send)
  unfolding coupler_create find_process transform_interest
  coupler_create_and_tell state master follower kind =
      elim (coupler_create state master follower kind) [
        | failed e ↦ failed e
        | done (id, next) ↦ elim (current_interest_of next master) [
          | none ↦ done (id, next, [])
          | some interest ↦ done (id, next, coupler_updates next interest id follower kind)
        ]
      ]
