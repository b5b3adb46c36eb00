-- ===== src/Executor/Failure.antt =====
-- The errors of crates/core/src/error.rs that a query can meet, and the panic of a library call.
use logdive.Bytes.{Bytes}
use logdive.Prelude.{Option, ℕ}
use logdive.Bytes.Number.{ℤ}

pub data Failure : Type 0 where
  unsafe_field_name : Bytes → Failure
  invalid_datetime : Bytes → Failure
  panic : Failure

pub data SqlValue : Type 0 where
  text : Bytes → SqlValue
  integer : ℤ → SqlValue
  real : ℕ → SqlValue

pub record QueryOptions : Type 0 where
  pub limit : Option ℕ
  pub offset : Option ℕ
