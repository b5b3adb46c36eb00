-- ===== src/Api/Serving.antt =====
-- What the run of the server, `main` of crates/api/src/main.rs, does to the index, and whom it lets in.
use logdive.Prelude.{Option, some, true, ℕ, ◌↔◌, ◌≡◌}
use logdive.Bytes.{Bytes}
use logdive.Api.Cors.{CorsLayer}
use logdive.Indexer.Open.{Disk, rows_of}
use logdive.Api.Policy.{Names, allows}
use logdive.Error.{Outcome}
use logdive.Api.Main.{ServerEnd, exited_early, served}

-- The rows stay. A call of `std::process::exit` comes before the disk is touched. If it served, then an
-- index file with these rows, to the origins that the option names.
pub record IsSafe (raw : Option Bytes) (d : Disk) (r : ServerEnd × Disk) : Type 0 where
  pub keeps_rows : rows_of r.1.db ≡ rows_of d.db
  pub exits_before : (n : ℕ) → r.0 ≡ exited_early n → r.1 ≡ d
  pub has_index :
      (layer : Option CorsLayer) (o : Outcome Unit)
      → r.0 ≡ served layer o
      → r.1.db ≡ some (rows_of d.db)
  pub lets_in :
      (layer : Option CorsLayer) (o : Outcome Unit)
      → r.0 ≡ served layer o
      → (origin : Bytes) → (allows layer origin ≡ true) ↔ Names raw origin
