-- ===== src/Daemon/Session/Consumed.antt =====
-- What followers are sent, in crates/montre-daemon/src/state.rs: interests of kinds that they consume.
use montre.Prelude.{
  ℕ, ◌==◌, ==→≡, ◌≡◌, refl, sym, ap, subst, inl, inr, arith, true, not, some, Text, codes,
  Option-split, Bool-split, List, [], ◌∷◌, ◌∈◌, keep, map, mem-keep, mem-map, get_elem?, flat_map,
  mem-flat_map,
}
use montre.Core.{span_containing}
use montre.Index.Corpus.{Corpus, lookup, spans, document_for_position, first_sentence_of_document}
use montre.Daemon.Protocol.{
  Interest, InterestKind, interest_kind, CouplerKind, Coupler, ProcessInfo, coupler_update,
  accepted_in, produced_out, contains, overlap, coupler_kind_compat, sentence_mirror, alignment,
  kwic_selection, doc_picker_selection, named_results_selection, conllu_view,
}
use montre.Daemon.State.{
  State, ResultEntry, Send, Outcome, done, failed, find_process, is_registered,
}
use montre.Daemon.Interests.Projection.{Target, project_alignment}
use montre.Daemon.Interests.{
  widen_position_to_sentence, sentence_to_span, aligned, mirror, align, select_hit, transform_by,
  transform_interest, coupler_updates, publish_interest,
}
use montre.Daemon.Session.Steps.{publish_interest-Kept}
use montre.Daemon.Session.Invariant.{IsSession}

-- Every interest of the list is of the kind.
abbrev Only : InterestKind → List Interest → Type 0
Only k interests = (j : Interest) → j ∈ interests → interest_kind j ≡ k

nothing : {k : InterestKind} → Only k []
nothing j m = absurd m

Only-one : (j : Interest) → Only (interest_kind j) (j ∷ [])
Only-one j i (inl e) = ap interest_kind e
Only-one j i (inr m) = absurd m

-- The kind that a coupler produces.
abbrev product : CouplerKind → InterestKind
product sentence_mirror = InterestKind.sentence
product (alignment name) = InterestKind.span
product kwic_selection = InterestKind.span
product doc_picker_selection = InterestKind.document
product named_results_selection = InterestKind.results
product conllu_view = InterestKind.sentence

module _ {B : Type 0} (corpus : Corpus B) where
  widen_position_to_sentence-Only :
      (doc position : ℕ)
      → Only InterestKind.sentence (widen_position_to_sentence corpus doc position)
  unfolding widen_position_to_sentence
  widen_position_to_sentence-Only doc position =
      Option-split (Only InterestKind.sentence) (document_for_position corpus position)
        (λ _. nothing)
        λ d _.
          Bool-split (Only InterestKind.sentence) (not (d == doc)) (λ _. nothing)
            λ _.
              Option-split (Only InterestKind.sentence) (spans corpus (codes "sentence"))
                (λ _. nothing)
                λ sents _.
                  Option-split (Only InterestKind.sentence) (span_containing sents position)
                    (λ _. nothing)
                    λ global _.
                      Option-split (Only InterestKind.sentence)
                        (first_sentence_of_document corpus doc) (λ _. nothing)
                        λ first _. Only-one (Interest.sentence doc _)

  aligned-Only :
      (name : Text) (doc start end : ℕ) → Only InterestKind.span (aligned corpus name doc start end)
  aligned-Only name doc start end = go (project_alignment corpus name doc start end)
    where
      go :
          (o : Outcome (List Target))
          → Only InterestKind.span (elim o [
            | done targets ↦ map (λ (d, s, e). Interest.span d s e) targets
            | failed _ ↦ []
          ])
      go (failed _) j m = absurd m
      go (done targets) j m = let (t, _, e) = mem-map _ j targets m in ap interest_kind e

  mirror-Only : (i : Interest) → Only InterestKind.sentence (mirror corpus i)
  mirror-Only (Interest.sentence doc sent) = Only-one (Interest.sentence doc sent)
  mirror-Only (Interest.position doc position) = widen_position_to_sentence-Only doc position
  mirror-Only (Interest.span doc start end) = widen_position_to_sentence-Only doc start
  mirror-Only (Interest.hit result index) = nothing
  mirror-Only (Interest.results handle) = nothing
  mirror-Only (Interest.document doc) = nothing

  align-Only : (name : Text) (i : Interest) → Only InterestKind.span (align corpus name i)
  align-Only name (Interest.sentence doc sent) =
      Option-split (Only InterestKind.span) (sentence_to_span corpus doc sent) (λ _. nothing)
        (λ s _. aligned-Only name doc s.start s.end)
  align-Only name (Interest.span doc start end) = aligned-Only name doc start end
  align-Only name (Interest.position doc position) = nothing
  align-Only name (Interest.hit result index) = nothing
  align-Only name (Interest.results handle) = nothing
  align-Only name (Interest.document doc) = nothing

  select_hit-Only :
      (results : List (Text × ResultEntry)) (i : Interest)
      → Only InterestKind.span (select_hit corpus results i)
  select_hit-Only results (Interest.hit result index) =
      Option-split (Only InterestKind.span) (lookup result results) (λ _. nothing)
        λ entry _.
          Option-split (Only InterestKind.span) (get_elem? entry.hits index) (λ _. nothing)
            λ hit _. Only-one (Interest.span hit.document_index hit.span.start hit.span.end)
  select_hit-Only results (Interest.sentence doc sent) = nothing
  select_hit-Only results (Interest.span doc start end) = nothing
  select_hit-Only results (Interest.position doc position) = nothing
  select_hit-Only results (Interest.results handle) = nothing
  select_hit-Only results (Interest.document doc) = nothing

  transform_by-Only :
      (results : List (Text × ResultEntry)) (i : Interest) (kind : CouplerKind)
      → Only (product kind) (transform_by corpus results i kind)
  transform_by-Only results i sentence_mirror = mirror-Only i
  transform_by-Only results i (alignment name) = align-Only name i
  transform_by-Only results i kwic_selection = select_hit-Only results i
  transform_by-Only results i doc_picker_selection = nothing
  transform_by-Only results i named_results_selection = nothing
  transform_by-Only results i conllu_view = nothing

  transform_interest-Only :
      (results : List (Text × ResultEntry)) (i : Interest) (kind : CouplerKind)
      → Only (product kind) (transform_interest corpus results i kind)
  unfolding transform_interest
  transform_interest-Only results i kind =
      Bool-split (Only (product kind)) (contains (accepted_in kind) (interest_kind i))
        (λ _. transform_by-Only results i kind) (λ _. nothing)

-- A process that consumes what a coupler of the kind produces, where the kind fits.
compat-contains :
    (kind : CouplerKind) (provides consumes : List InterestKind)
    → coupler_kind_compat kind provides consumes ≡ true
    → contains consumes (product kind) ≡ true
unfolding coupler_kind_compat produced_out overlap
compat-contains sentence_mirror provides consumes h = ground arith
compat-contains (alignment name) provides consumes h = ground arith
compat-contains kwic_selection provides consumes h = ground arith
compat-contains doc_picker_selection provides consumes h = ground arith
compat-contains named_results_selection provides consumes h = ground arith
compat-contains conllu_view provides consumes h = ground arith

-- A notification that a process of the state can use: an update with an interest that it consumes,
-- of a coupler that follows the master.
pub record Consumed (state : State) (master : ℕ) (s : Send) : Type 0 where
  pub c : Coupler
  pub follower : ProcessInfo
  pub update : Interest
  pub is_coupler : c ∈ state.couplers
  pub of_master : c.master_id ≡ master
  pub to_follower : s.recipient ≡ c.follower_id
  pub is_there : find_process c.follower_id state.roster ≡ some follower
  pub is_update : s.notification ≡ coupler_update c.id update
  pub consumes : contains follower.consumes (interest_kind update) ≡ true

module _ {B : Type 0} (corpus : Corpus B) where
  coupler_updates-Consumed :
      (state : State) (interest : Interest) (c : Coupler) (s : Send)
      → IsSession state
      → c ∈ state.couplers
      → s ∈ coupler_updates corpus state interest c.id c.follower_id c.kind
      → Consumed state c.master_id s
  coupler_updates-Consumed state interest c s good m k =
      let (_, w, _, there, fits) = good.linked c m in
      Bool-split (λ (xs : List Send). s ∈ xs → Consumed state c.master_id s)
        (is_registered c.follower_id state.roster)
        (λ _ k.
          let (j, l, e) = mem-map _ s (transform_interest corpus state.results interest c.kind) k in
          let same = transform_interest-Only corpus state.results interest c.kind j l in
          record {
            c = c;
            follower = w;
            update = j;
            is_coupler = m;
            of_master = refl;
            to_follower = ap (λ (x : Send). x.recipient) e;
            is_there = there;
            is_update = ap (λ (x : Send). x.notification) e;
            consumes =
                subst (λ t. contains w.consumes t ≡ true) (sym same)
                  (compat-contains c.kind _ w.consumes fits);
          })
        (λ _ k. absurd k) k

  -- In a session that keeps its invariant, what `publish_interest` sends are updates of couplers that
  -- follow the process, each to the follower of its coupler, which is there and consumes it.
  pub publish_interest-Consumed :
      (state : State) (pid : ℕ) (interest : Interest)
      → IsSession state
      → (s : Send) → s ∈ (publish_interest corpus state pid interest).1
      → Consumed (publish_interest corpus state pid interest).0 pid s
  unfolding publish_interest
  publish_interest-Consumed state pid interest good s m =
      Option-split Sent (find_process pid state.roster) (λ _ _ k. absurd k)
        (λ p _.
          Bool-split Sent (not (contains p.provides (interest_kind interest))) (λ _ _ k. absurd k)
            (λ _. sent))
        (publish_interest-Kept corpus state.next_process_id state pid interest
          (good, omega arith)).0
        m
    where
      Sent : State × List Send → Type 0
      Sent (next, sends) = IsSession next → s ∈ sends → Consumed next pid s

      sent :
          {next : State}
          → IsSession next
          → s
            ∈ flat_map
                (λ (c : Coupler). coupler_updates corpus next interest c.id c.follower_id c.kind)
                (keep (λ (c : Coupler). c.master_id == pid) next.couplers)
          → Consumed next pid s
      sent {next} good' k =
          let (c, l, w) = mem-flat_map _ s _ k in
          let (here, of_pid) =
            (mem-keep (λ (c : Coupler). c.master_id == pid) c next.couplers).0 l in
          subst (λ n. Consumed next n s) (==→≡ c.master_id pid of_pid)
            (coupler_updates-Consumed next interest c s good' here w)
