-- ===== src/Query/Filter.antt =====
-- crates/montre-query/src/executor.rs: what each node of a plan does to the hits of its inner node.
pub mod Names
pub mod Kept
use montre.Prelude.{
  ℕ, ◌+◌, leb, ltb, ◌==◌, if◌then◌else◌, Bool, true, false, ◌&&◌, some, none, Text, codes, text_eq,
  List, [], ◌∷◌, map, flat_map, any, keep, get_elem?, sort_dedup,
}
use montre.Core.{Span, UnitId, span_containing}
use montre.Index.Corpus.{Corpus, ComponentMeta, spans, component, alignment_meta, alignment_edges}
use montre.Query.{Result, ok, err, execution}
use montre.Query.Ast.{GlobalConstraint}
use montre.Query.Constraint.{collect_attr_keys, evaluate_constraints}
use montre.Query.Alignment.{
  EdgeMap, build_edge_map, targets_of, find_doc_and_sent, resolve_target_span, unit_eq,
}
use montre.Query.Sequence.Hits.{Hit, hit, sort_hits}

abbrev pub start_of : Hit → ℕ
start_of h = h.span.start

-- `Hit::new(Span::new(pos, pos + 1))` for each position.
abbrev pub hits_at : List ℕ → List Hit
hits_at ps = map (λ p. hit p (p + 1) []) ps

abbrev pub contains_pos : List ℕ → ℕ → Bool
contains_pos ps p = any (λ q. p == q) ps

-- `existing.intersection(&positions)` over all nodes, sorted; of no node, nothing.
unfoldable pub intersect_sets : List ℕ → List (List ℕ) → List ℕ
intersect_sets existing [] = existing
intersect_sets existing (positions ∷ rest) =
    intersect_sets (keep (contains_pos positions) existing) rest

unfoldable pub intersect_all : List (List ℕ) → List ℕ
unfolding intersect_sets sort_dedup
intersect_all [] = []
intersect_all (positions ∷ rest) = sort_dedup (intersect_sets positions rest)

unfoldable pub union_all : List (List ℕ) → List ℕ
unfolding sort_dedup
union_all sets = sort_dedup (flat_map (λ s. s) sets)

-- `skip_while(|p| p < start).take_while(|p| p < end)`
unfoldable pub skip_below : ℕ → List ℕ → List ℕ
skip_below start [] = []
skip_below start (p ∷ ps) = if ltb p start then skip_below start ps else p ∷ ps

unfoldable pub take_below : ℕ → List ℕ → List ℕ
take_below end [] = []
take_below end (p ∷ ps) = if ltb p end then p ∷ take_below end ps else []

abbrev pub in_range : ℕ → ℕ → List ℕ → List ℕ
in_range start end ps = keep (λ p. leb start p && ltb p end) ps

-- `spans[idx].end` bounds the hit: the part that the three filters share.
unfoldable pub ends_inside : List Span → (ℕ → Bool) → Hit → Bool
unfolding span_containing
ends_inside layer test h = elim (span_containing layer h.span.start) [
  | none ↦ false
  | some i ↦ elim (get_elem? layer i) [ none ↦ false | some s ↦ leb h.span.end s.end && test i ]
]

-- The indices of the documents with one of the names.
unfoldable pub matching_documents : ℕ → List Text → List Text → List ℕ
matching_documents i wanted [] = []
matching_documents i wanted (name ∷ names) =
    if any (λ d. text_eq d name) wanted
    then i ∷ matching_documents (i + 1) wanted names
    else matching_documents (i + 1) wanted names

module _ {B : Type 0} (corpus : Corpus B) where
  unfoldable pub filter_by_span_hits : Text → List Hit → List Hit
  unfolding ends_inside spans
  filter_by_span_hits layer hits = elim (spans corpus layer) [
    | none ↦ hits
    | some ss ↦ keep (ends_inside ss (λ i. true)) hits
  ]

  -- The metadata of the named components that exist.
  unfoldable pub named_components : List Text → List ComponentMeta
  unfolding component
  named_components [] = []
  named_components (name ∷ names) = elim (component corpus name) [
    | none ↦ named_components names
    | some m ↦ m ∷ named_components names
  ]

  abbrev pub has_document : List ComponentMeta → ℕ → Bool
  has_document metas doc = any (λ m. leb m.first_document doc && ltb doc m.past_document) metas

  unfoldable pub filter_by_component_hits : List Text → List Hit → List Hit
  unfolding ends_inside spans named_components
  filter_by_component_hits names hits = elim (named_components names) [
    | [] ↦ []
    | m ∷ ms ↦ elim (spans corpus (codes "document")) [
      | none ↦ []
      | some docs ↦ keep (ends_inside docs (has_document (m ∷ ms))) hits
    ]
  ]

  unfoldable pub filter_by_document_hits : List Text → List Hit → List Hit
  unfolding ends_inside spans matching_documents
  filter_by_document_hits names hits = elim (spans corpus (codes "document")) [
    | none ↦ []
    | some docs ↦ elim (matching_documents 0 names corpus.document_names) [
      | [] ↦ []
      | d ∷ ds ↦ keep (ends_inside docs (contains_pos (d ∷ ds))) hits
    ]
  ]

  unfoldable pub constrained_hits : List GlobalConstraint → List Hit → List Hit
  unfolding evaluate_constraints collect_attr_keys
  constrained_hits cs hits =
      keep (λ h. evaluate_constraints corpus.forward h cs (collect_attr_keys cs)) hits

-- `seen_targets` and `result_hits`, the latter as the spans of the hits, last first.
pub record Projection : Type 0 where
  pub seen : List UnitId
  pub found : List Span

module _ (docs target_sents : List Span) (target_comp : ComponentMeta) where
  unfoldable pub project_target : Projection → UnitId → Projection
  unfolding resolve_target_span
  project_target p unit =
      if any (unit_eq unit) p.seen
      then p
      else elim (resolve_target_span unit.0 unit.1 docs target_sents target_comp) [
        | none ↦ record p { seen = unit ∷ p.seen }
        | some s ↦ record { seen = unit ∷ p.seen; found = s ∷ p.found }
      ]

  unfoldable pub project_targets : Projection → List UnitId → Projection
  unfolding project_target
  project_targets p [] = p
  project_targets p (unit ∷ units) = project_targets (project_target p unit) units

  -- The loop over the source hits.
  unfoldable pub project_hits :
      List Span → ComponentMeta → EdgeMap → Projection → List Hit → Projection
  unfolding project_targets targets_of find_doc_and_sent
  project_hits sents source_comp edges p [] = p
  project_hits sents source_comp edges p (h ∷ hits) =
      project_hits sents source_comp edges
        (elim (find_doc_and_sent h.span docs sents source_comp) [
          | none ↦ p
          | some unit ↦ project_targets p (targets_of unit edges)
        ])
        hits

abbrev pub start_le : Hit → Hit → Bool
start_le h k = leb h.span.start k.span.start

abbrev pub hits_of_spans : List Span → List Hit → List Hit
hits_of_spans [] hits = hits
hits_of_spans (s ∷ found) hits = hits_of_spans found (hit s.start s.end [] ∷ hits)

-- `ProjectAlignment`. The messages are those of the source, without the name that ends them.
unfoldable pub project_alignment_hits :
    {B : Type 0} → Corpus B → Text → List Hit → Result (List Hit)
unfolding project_hits build_edge_map sort_hits alignment_edges alignment_meta component spans
project_alignment_hits corpus name hits = elim (alignment_edges corpus name) [
  | none ↦ err (execution (codes "Alignment not found: "))
  | some edges ↦ elim (alignment_meta corpus name) [
    | none ↦ err (execution (codes "Alignment metadata not found: "))
    | some meta ↦ elim (component corpus meta.source_component) [
      | none ↦ err (execution (codes "Source component not found: "))
      | some source ↦ elim (component corpus meta.target_component) [
        | none ↦ err (execution (codes "Target component not found: "))
        | some target ↦ elim (spans corpus (codes "document")) [
          | none ↦ ok []
          | some docs ↦ elim (spans corpus meta.source_layer) [
            | none ↦ ok []
            | some sents ↦ elim (spans corpus meta.target_layer) [
              | none ↦ ok []
              | some target_sents ↦
                  let p =
                    project_hits docs target_sents target sents source (build_edge_map edges)
                      (record { seen = []; found = [] }) hits in
                  ok (sort_hits start_le (hits_of_spans p.found []))
            ]
          ]
        ]
      ]
    ]
  ]
]
