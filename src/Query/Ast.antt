-- ===== src/Query/Ast.antt =====
-- The AST of crates/core/src/query.rs. `AndGroup` and `QueryNode` have one field each, a vector, and
-- are the lists themselves here. A float is its IEEE bit pattern.
use logdive.Prelude.{ℕ, ◌*◌, Bool}
use logdive.Bytes.{Bytes}
use logdive.Bytes.Number.{ℤ}

pub data CompareOp : Type 0 where
  eq not_eq gt lt : CompareOp

pub data QueryValue : Type 0 where
  string : Bytes → QueryValue
  integer : ℤ → QueryValue
  float : ℕ → QueryValue
  bool : Bool → QueryValue

pub data DurationUnit : Type 0 where
  minutes hours days : DurationUnit

pub record Duration : Type 0 where
  pub amount : ℕ
  pub unit : DurationUnit

-- `DurationUnit::seconds`
unfoldable pub seconds : DurationUnit → ℕ
seconds minutes = 60
seconds hours = 60 * 60
seconds days = 24 * 60 * 60

mutual
  pub data Clause : Type 0 where
    compare : Bytes → CompareOp → QueryValue → Clause
    contains : Bytes → Bytes → Clause
    last_duration : Duration → Clause
    since_datetime : Bytes → Clause
    group : QueryNode → Clause

  pub data AndGroup : Type 0 where
    no_clauses : AndGroup
    clauses : Clause → AndGroup → AndGroup

  pub data QueryNode : Type 0 where
    no_groups : QueryNode
    groups : AndGroup → QueryNode → QueryNode
