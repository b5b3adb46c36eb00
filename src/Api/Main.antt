-- ===== src/Api/Main.antt =====
-- `main` of crates/api/src/main.rs with its health check: what it does in which order. What the system
-- answers, from the health check's connection to the end of `axum::serve`, is in `ServerWorld`.
use logdive.Prelude.{◌++◌, Bool, List, Option, if◌then◌else◌, ℕ, ◌∷◌}
use logdive.Bytes.{Bytes, codes}
use logdive.Api.Cors.{CorsLayer, CorsResult, build_cors_layer, parse_cors_origins}
use logdive.Indexer.Open.{Disk, OnDisk, OpenAnswers, db_path}
use logdive.Error.{Outcome, io, raised}
use logdive.Prelude.Result.{Result, err, ok, out_of_fuel, ◌>>=◌}
use logdive.Bytes.Decimal.{decimal}
use logdive.Api.Start.{ensure_index_exists}

pub record ServerArgs : Type 0 where
  pub db : Option Bytes
  pub port : ℕ
  pub host : Bytes
  pub cors_origins : Option Bytes
  pub health_check : Bool

pub record ServerWorld : Type 0 where
  pub home : Option Bytes
  pub connects : Bool
  pub disk : OpenAnswers
  pub parses_addr : Result Bytes Unit
  pub binds : Result Bytes Unit
  pub local_addr : Result Bytes Unit
  pub serves : Result Bytes Unit

-- How the process ends: `std::process::exit` with a code, at the health check or the origins; or `main`
-- returns before `axum::serve`, or after it. An error that `main` returns ends the process with code 1 too.
pub data ServerEnd : Type 0 where
  exited_early : ℕ → ServerEnd
  returned : Outcome Unit → ServerEnd
  served : Option CorsLayer → Outcome Unit → ServerEnd

-- `run_health_check`
unfoldable pub run_health_check : Bool → ServerEnd
run_health_check connects = if connects then exited_early 0 else exited_early 1

-- `io_at(&db, e)`
unfoldable pub at_db : Bytes → Result Bytes Unit → Outcome Unit
at_db db (ok _) = ok tt
at_db db (err detail) = err (raised (io db detail))
at_db db out_of_fuel = out_of_fuel

unfoldable pub host_port : ServerArgs → Bytes
unfolding decimal
host_port args = args.host ++ (b':' ∷ decimal args.port)

unfoldable pub parse_addr : Bytes → ServerArgs → Result Bytes Unit → Outcome Unit
unfolding host_port
parse_addr db args (ok _) = ok tt
parse_addr db args (err detail) =
    err
      (raised (io db (codes "invalid host:port `" ++ (host_port args ++ (codes "`: " ++ detail)))))
parse_addr db args out_of_fuel = out_of_fuel

-- The steps before `axum::serve`.
unfoldable pub bind_listener : Bytes → ServerArgs → ServerWorld → Outcome Unit
unfolding parse_addr at_db
bind_listener db args w = do
  _ ← parse_addr db args w.parses_addr
  _ ← at_db db w.binds
  at_db db w.local_addr

unfoldable pub serve : Bytes → List Bytes → ServerWorld → Outcome Unit → ServerEnd
unfolding build_cors_layer at_db
serve db origins w (ok _) = served (build_cors_layer origins) (at_db db w.serves)
serve db origins w (err e) = returned (err e)
serve db origins w out_of_fuel = returned out_of_fuel

unfoldable pub serve_index :
    Bytes → ServerArgs → List Bytes → ServerWorld → OnDisk Unit → ServerEnd × Disk
unfolding serve bind_listener
serve_index db args origins w (ok _, d) = (serve db origins w (bind_listener db args w), d)
serve_index db args origins w (err e, d) = (returned (err e), d)
serve_index db args origins w (out_of_fuel, d) = (returned out_of_fuel, d)

-- The origins before the index.
unfoldable pub with_origins : ServerArgs → ServerWorld → CorsResult → Disk → ServerEnd × Disk
unfolding serve_index ensure_index_exists
with_origins args w (err _) d = (exited_early 1, d)
with_origins args w out_of_fuel d = (returned out_of_fuel, d)
with_origins args w (ok origins) d =
    let db = db_path args.db w.home in
    serve_index db args origins w (ensure_index_exists db w.disk d)

unfoldable pub api_main : (Bytes → Bool) → ServerArgs → ServerWorld → Disk → ServerEnd × Disk
unfolding run_health_check with_origins parse_cors_origins db_path
api_main is_header_value args w d =
    if args.health_check
    then (run_health_check w.connects, d)
    else with_origins args w (parse_cors_origins is_header_value args.cors_origins) d
