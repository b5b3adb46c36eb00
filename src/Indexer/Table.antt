-- ===== src/Indexer/Table.antt =====
-- The table `log_entries` of crates/core/src/indexer.rs as far as the program relies on SQLite: the rows
-- in the order of their ids, a UNIQUE column `raw_hash`, and INSERT OR IGNORE, DELETE and the aggregates on
-- them. The column `ingested_at` is SQLite's own.
use logdive.Prelude.{
  ◌&&◌, ◌+◌, ◌++◌, ◌==◌, Bool, List, Option, [], false, if◌then◌else◌, ltb, true, ◌||◌, ℕ, ◌∷◌,
}
use logdive.Bytes.{Bytes, equals}

pub record Row : Type 0 where
  pub timestamp : Bytes
  pub level : Option Bytes
  pub message : Option Bytes
  pub tag : Option Bytes
  pub fields_json : Bytes
  pub raw : Bytes
  pub raw_hash : Bytes

abbrev pub Table : Type 0
Table = List Row

unfoldable pub has_hash : Bytes → Table → Bool
has_hash h [] = false
has_hash h (r ∷ rs) = equals h r.raw_hash || has_hash h rs

-- The number of rows that the statement changed, with the table.
unfoldable pub insert_or_ignore : Row → Table → ℕ × Table
insert_or_ignore r t = if has_hash r.raw_hash t then (0, t) else (1, t ++ r ∷ [])

-- SQLite compares TEXT by its bytes.
unfoldable pub before : Bytes → Bytes → Bool
before [] [] = false
before [] (_ ∷ _) = true
before (_ ∷ _) [] = false
before (a ∷ s) (b ∷ t) = ltb a b || a == b && before s t

-- `DELETE … WHERE timestamp < ?1`
unfoldable pub delete_before : Bytes → Table → ℕ × Table
delete_before cutoff [] = (0, [])
delete_before cutoff (r ∷ rs) =
    let (n, left) = delete_before cutoff rs in
    if before r.timestamp cutoff then (n + 1, left) else (n, r ∷ left)
