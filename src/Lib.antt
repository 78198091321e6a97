-- ===== src/Lib.antt =====
-- montre is a corpus query engine: corpora of annotated tokens, and queries over them in a CQL
-- dialect. This library models the query engine, the parts of the index that it reads, the
-- indexes in memory that a build fills and merges, and the state of the daemon that a session of
-- processes shares.
--
-- A query is parsed into a syntax tree, planned into a tree of scans, set operations, filters and
-- sequences, and executed against a corpus, which maps a value of a layer to its positions (inverted
-- index), a position to its values (forward store), and a layer to its spans (documents, sentences).
--
-- Core          crates/montre-core/src/lib.rs: `Span` and `span_containing`.
-- Index         the crates that the engine links (compressed bitmaps, regular expressions, the order
--               of a hash map), as a record of operations and laws, `Crates`.
-- Index.Corpus  crates/montre-index/src/corpus.rs and inverted.rs: `Corpus`, its lookups, and
--               those of the inverted index.
-- Index.Lexicon   crates/montre-index/src/lexicon.rs: `InMemoryLexicon`.
-- Index.Spans     crates/montre-index/src/spans.rs: `InMemorySpans`.
-- Index.Inverted  crates/montre-index/src/inverted.rs: `insert` and `merge_from`.
-- Index.Maps      a hash map as a list of entries.
-- Query         crates/montre-query/src/lib.rs: `QueryError` and the result type.
-- Query.Ast     crates/montre-query/src/ast.rs, type by type.
-- Query.Plan    crates/montre-query/src/planner.rs, `PlanNode` and `SequenceStep`; a vector of nodes
--               or of steps is a type of its own (`Nodes`, `Steps`).
-- Query.Planner crates/montre-query/src/planner.rs, `plan_node`, `plan_token` and the labels.
-- The other modules of Query model crates/montre-query/src/executor.rs:
--   Query.Run         `Run` and `RunIndex` (a list of runs), `spans_for_scan_all`.
--   Query.Sequence    `run_sequence_steps_unlabeled` and `run_sequence_steps_labeled`, one text for
--                     both; Query.Sequence.Hits: `Hit`, `execute_sequence`, `count_sequence`.
--   Query.Constraint  `collect_attr_keys`, `resolve_attrs`, `evaluate_constraints`.
--   Query.Alignment   `build_edge_map`, `find_doc_and_sent`, `resolve_target_span`.
--   Query.Filter      what `execute_node` does to the hits of inner nodes, node by node.
--   Query.Executor    `execute_node`, `get_matching_positions_in_range`, `build_run_indices`;
--                     Query.Executor.Count: `count_node`; Query.Context: `populate_context`.
-- Query.Parser  crates/montre-query/src/parser.rs: `Parser` with the input that remains at its byte
--               position, and what a call returns: a value, an error, a panic where a slice starts
--               inside a character, or no fuel. Query.Parser.Words, Patterns, Clauses and Grammar are
--               its functions from the small ones up to `parse`; Labels: `check_duplicate_labels`.
-- Daemon.Protocol  crates/montre-daemon/src/protocol.rs: processes, interests, couplers, notifications.
-- The other modules of Daemon model crates/montre-daemon/src/state.rs:
--   Daemon.State      `State`: register, update_label, subscriptions, shutdown; what is broadcast.
--   Daemon.Couplers   which process follows which, and `unregister`.
--   Daemon.Interests  `transform_interest`, `publish_interest`, the whole of `coupler_create`;
--                     Daemon.Interests.Projection: `project_alignment` of handlers/alignment.rs.
--   Daemon.Results    the results of queries and their names.
--   Daemon.Session    `run`: the commands (Daemon.Command) one by one.
-- The modules below these hold their proofs. Tests has concrete crates, a corpus and examples.
--
-- Positions and lengths are natural numbers: a corpus has fewer than 2 ^ 32 tokens, so that no sum
-- of two of them leaves 64 bits. Where the code cuts a number to 32 bits, so does the model
-- (`as_u32`). Texts are lists of code points. A hash map is a list of entries; the order in which
-- the program iterates over one is a parameter, any permutation, and the same for maps of the same
-- content: what is proved holds for each such order, but two runs of the program may have different
-- ones, and a theorem about two executions takes the same for both. Of the labelled matches with
-- the same span, of which the program keeps one after an unstable sort, the model keeps the first
-- found. The binary search of `span_containing` runs on fuel, one more than the number of spans,
-- which the search does not use up; the search for a cycle of couplers on two more than their
-- number, since each is pushed at most once. A query is executed sequentially: the ranges that the
-- program searches in parallel do not share anything.
--
-- The loops of the parser run on one more unit of fuel than characters are left, and each takes a
-- character; the nesting of parentheses and labels on one more than the length of the input. The
-- daemon handles one command at a time. What a command sends is a list of notifications with their
-- recipients; the queue of a recipient that is full drops them. The clock, new handles and the disk
-- are parameters of a command, its answers carry the code of an error without its message, and a hash
-- map of the state is the list of its entries.
--
-- Not modelled: reading and writing corpora (memory-mapped files, serialised indexes), the builder,
-- the sockets, threads and JSON of the daemon, its client and its files, the command line, and the
-- bindings for C and Python.
pub mod Prelude
pub mod Core
pub mod Index
pub mod Query
pub mod Daemon
mod Tests
