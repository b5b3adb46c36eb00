-- ===== src/Executor/Chrono.antt =====
-- What crates/core/src/executor.rs and crates/cli/src/prune_cmd.rs use of chrono: values of its types,
-- and its functions. `parse_from_rfc3339` stands for the parse with the change to UTC behind it.
-- `seconds` is `chrono::Duration::seconds`, which panics out of its range: `none`.
use logdive.Bytes.{Bytes}
use logdive.Prelude.{Option, ℕ}

pub record Chrono : Type 1 where
  pub DateTime : Type 0
  pub NaiveDateTime : Type 0
  pub NaiveDate : Type 0
  pub Delta : Type 0
  pub parse_from_rfc3339 : Bytes → Option DateTime
  pub parse_naive_datetime : Bytes → Bytes → Option NaiveDateTime
  pub parse_naive_date : Bytes → Bytes → Option NaiveDate
  pub at_midnight : NaiveDate → NaiveDateTime
  pub from_utc_datetime : NaiveDateTime → DateTime
  pub to_rfc3339 : DateTime → Bytes
  pub seconds : ℕ → Option Delta
  pub checked_sub_signed : DateTime → Delta → Option DateTime
  pub unix_epoch : DateTime
