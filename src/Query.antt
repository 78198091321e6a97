-- ===== src/Query.antt =====
-- crates/montre-query/src/lib.rs: the errors of the query engine, and its modules.
pub mod Ast
pub mod Parser
pub mod Plan
pub mod Run
pub mod Sequence
pub mod Constraint
pub mod Alignment
pub mod Filter
pub mod Executor
pub mod Planner
pub mod Context
use montre.Prelude.{ℕ, Text, Bool, true, false}

pub data QueryError : Type 0 where
  -- `Parse { position, message }`
  parse : ℕ → Text → QueryError
  -- `Regex`, with the pattern that did not compile in place of the crate's error
  regex : Text → QueryError
  unknown_layer unknown_label execution : Text → QueryError

pub data Result {ℓ} (A : Type ℓ) : Type ℓ where
  ok : A → Result A
  err : QueryError → Result A

-- `?`: the rest of a function runs on a value, and an error returns.
infixl 5 ◌>>=◌ ◌>>◌
abbrev pub ◌>>=◌ {ℓ} : {A : Type ℓ} {B : Type ℓ} (first : Result A) (rest : A → Result B) → Result B
err failed >>= rest = err failed
ok value >>= rest = rest value

abbrev pub ◌>>◌ {ℓ} : {B : Type ℓ} (check : Result (Unit {ℓ})) (rest : Result B) → Result B
err failed >> rest = err failed
ok tt >> rest = rest

-- `unwrap_or_default` at a list.
abbrev pub or_empty {ℓ} : {A : Type ℓ} → Result A → A → A
or_empty (ok a) d = a
or_empty (err e) d = d
