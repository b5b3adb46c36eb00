-- ===== src/Api/Origin.antt =====
-- Where the errors of the handlers of crates/api come from.
use logdive.Prelude.Result.{◌>>=◌, Result, err, ok, out_of_fuel}
use logdive.Api.AppError.{is_client_fault}
use logdive.Bytes.{Bytes}
use logdive.Executor.Run.{
  Connection, QueryAnswer, RowAnswer, decode_fields, got_row, read_answer, read_rows, refused,
  row_failed, rows, run, run_built,
}
use logdive.Executor.Failure.{Failure}
use logdive.Entry.{Fields, LogEntry}
use logdive.Executor.Sql.{Fragment}
use logdive.Api.State.{join, Index, Server, blocking}
use logdive.Prelude.{List, Option, [], false, none, refl, some, ◌∷◌, ◌≡◌}
use logdive.Error.{LogdiveError, Outcome, Thrown, from_failure, panicked, raised}

-- Where an error that a handler meets comes from: it is not the client's fault, or it is the failure `b` of
-- the translation of the query.
pub data Origin {A : Type 0} (b : Option Thrown) : Result LogdiveError A → Type 0 where
  got : {a : A} → Origin b (ok a)
  hidden : {e : LogdiveError} → is_client_fault e ≡ false → Origin b (err e)
  built : {e : LogdiveError} → b ≡ some (raised e) → Origin b (err e)
  starved : Origin b out_of_fuel

-- The failure of a translation.
abbrev pub failure_of : Result Failure Fragment → Option Thrown
failure_of (err e) = some (from_failure e)
failure_of _ = none

pub data RunOrigin {A : Type 0} (b : Option Thrown) : Outcome A → Type 0 where
  run_got : {a : A} → RunOrigin b (ok a)
  run_hidden : {e : LogdiveError} → is_client_fault e ≡ false → RunOrigin b (err (raised e))
  run_built_error : {x : Thrown} → b ≡ some x → RunOrigin b (err x)
  run_starved : RunOrigin b out_of_fuel

module _ (map_from_str : Bytes → Result Bytes Fields) (b : Option Thrown) where
  decode_then :
      {A : Type 0} (r : Result Bytes Fields) (k : Fields → Outcome A)
      → ((fs : Fields) → RunOrigin b (k fs))
      → RunOrigin b (decode_fields map_from_str r >>= k)
  unfolding decode_fields is_client_fault
  decode_then (ok fs) k h = h fs
  decode_then (err detail) k h = run_hidden refl
  decode_then out_of_fuel k h = run_starved

  cons_origin :
      (e : LogEntry) (r : Outcome (List LogEntry))
      → RunOrigin b r
      → RunOrigin b (do more ← r; ok (e ∷ more))
  cons_origin e _ run_got = run_got
  cons_origin e _ (run_hidden h) = run_hidden h
  cons_origin e _ (run_built_error h) = run_built_error h
  cons_origin e _ run_starved = run_starved

  read_rows-RunOrigin : (rs : List RowAnswer) → RunOrigin b (read_rows map_from_str rs)
  unfolding read_rows is_client_fault
  read_rows-RunOrigin [] = run_got
  read_rows-RunOrigin (row_failed detail ∷ more) = run_hidden refl
  read_rows-RunOrigin (got_row r ∷ more) =
      decode_then (map_from_str r.fields_json) _
        (λ fs. cons_origin _ (read_rows map_from_str more) (read_rows-RunOrigin more))

  read_answer-RunOrigin : (a : QueryAnswer) → RunOrigin b (read_answer map_from_str a)
  unfolding read_answer is_client_fault
  read_answer-RunOrigin (refused detail) = run_hidden refl
  read_answer-RunOrigin (rows rs) = read_rows-RunOrigin rs

pub run_built-RunOrigin :
    (map_from_str : Bytes → Result Bytes Fields) (conn : Connection) (r : Result Failure Fragment)
    → RunOrigin (failure_of r) (run_built map_from_str conn r)
unfolding run_built run
run_built-RunOrigin map_from_str conn (ok sql) =
    read_answer-RunOrigin map_from_str none (conn sql.0 sql.1)
run_built-RunOrigin map_from_str conn (err e) = run_built_error refl
run_built-RunOrigin map_from_str conn out_of_fuel = run_starved

pub blocking-RunOrigin :
    {A : Type 0} (b : Option Thrown) (o : Result Bytes Index) (f : Index → Outcome A)
    → ((i : Index) → RunOrigin b (f i))
    → RunOrigin b (blocking o f)
unfolding blocking is_client_fault
blocking-RunOrigin b (ok index) f h = h index
blocking-RunOrigin b (err detail) f h = run_hidden refl
blocking-RunOrigin b out_of_fuel f h = run_starved

pub join-Origin :
    {A : Type 0} (s : Server) (b : Option Thrown) (r : Outcome A)
    → RunOrigin b r
    → Origin b (join s r)
unfolding join is_client_fault
join-Origin s b (ok a) h = got
join-Origin s b (err (raised e)) (run_hidden h) = hidden h
join-Origin s b (err (raised e)) (run_built_error h) = built h
join-Origin s b (err panicked) h = hidden refl
join-Origin s b out_of_fuel h = starved
