-- ===== src/Api/State.antt =====
-- `AppState::with_connection` of crates/api/src/state.rs: a read-only connection for each call, on a task of
-- its own, whose panic is an error. What the system answers is in `Server`.
use logdive.Prelude.{◌++◌, ℕ}
use logdive.Indexer.Stats.{Aggregates}
use logdive.Bytes.{Bytes, codes}
use logdive.Executor.Run.{Connection}
use logdive.Error.{LogdiveError, Outcome, io, panicked, raised, sqlite}
use logdive.Prelude.Result.{Result, err, ok, out_of_fuel}

-- An open index: what SQLite answers to queries, and to the three statements of `stats`.
pub record Index : Type 0 where
  pub connection : Connection
  pub aggregates : Aggregates

-- `Indexer::open_read_only`, the file's size, and the text of a `JoinError`.
pub record Server : Type 0 where
  pub db_path : Bytes
  pub opening : Result Bytes Index
  pub file_size : Result Bytes ℕ
  pub join_error : Bytes

-- The task: it opens the index and runs the closure.
unfoldable pub blocking : {A : Type 0} → Result Bytes Index → (Index → Outcome A) → Outcome A
blocking (ok index) f = f index
blocking (err detail) f = err (raised (sqlite detail))
blocking out_of_fuel f = out_of_fuel

unfoldable pub join : {A : Type 0} → Server → Outcome A → Result LogdiveError A
join s (ok a) = ok a
join s (err (raised e)) = err e
join s (err panicked) = err (io s.db_path (codes "blocking task failed: " ++ s.join_error))
join s out_of_fuel = out_of_fuel

unfoldable pub with_connection : {A : Type 0} → Server → (Index → Outcome A) → Result LogdiveError A
unfolding blocking join
with_connection s f = join s (blocking s.opening f)
