-- ===== src/Indexer/Stats.antt =====
-- `Indexer::stats` of crates/core/src/indexer.rs: three statements, of which the first that fails ends the
-- call. What SQLite answers to them is an argument.
use logdive.Bytes.{Bytes}
use logdive.Prelude.{List, Option, [], ℕ, ◌∷◌}
use logdive.Error.{Outcome, raised, sqlite}
use logdive.Prelude.Result.{Result, err, ok, out_of_fuel, ◌>>=◌}

pub record Stats : Type 0 where
  pub entries : ℕ
  pub min_timestamp : Option Bytes
  pub max_timestamp : Option Bytes
  pub tags : List (Option Bytes)

-- The answers to COUNT(*), to MIN and MAX, and to SELECT DISTINCT tag, row by row; an error with its text.
pub record Aggregates : Type 0 where
  pub count : Result Bytes ℕ
  pub bounds : Result Bytes (Option Bytes × Option Bytes)
  pub tag_rows : Result Bytes (List (Result Bytes (Option Bytes)))

unfoldable pub from_sqlite : {A : Type 0} → Result Bytes A → Outcome A
from_sqlite (ok a) = ok a
from_sqlite (err detail) = err (raised (sqlite detail))
from_sqlite out_of_fuel = out_of_fuel

-- The loop over the rows of tags.
unfoldable pub collect_tags : List (Result Bytes (Option Bytes)) → Outcome (List (Option Bytes))
unfolding from_sqlite
collect_tags [] = ok []
collect_tags (row ∷ more) = do tag ← from_sqlite row; tags ← collect_tags more; ok (tag ∷ tags)

unfoldable pub stats : Aggregates → Outcome Stats
unfolding from_sqlite collect_tags
stats a = do
  entries ← from_sqlite a.count
  (smallest, largest) ← from_sqlite a.bounds
  answers ← from_sqlite a.tag_rows
  tags ← collect_tags answers
  ok (record { entries = entries; min_timestamp = smallest; max_timestamp = largest; tags = tags })
