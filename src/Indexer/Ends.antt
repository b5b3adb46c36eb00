-- ===== src/Indexer/Ends.antt =====
-- How calls of crates/core/src/indexer.rs end: what holds of the table after an error, and of the stats and
-- the table after a success.
use logdive.Prelude.{
  ◌+◌, ◌++◌, Bool-cases, List, [], false, inl, inr, none, refl, some, true, ◌∷◌, ◌≡◌, Option, sym,
}
use logdive.Bytes.{Bytes}
use logdive.Entry.{Fields, LogEntry}
use logdive.Indexer.Batch.{
  InsertStats, Sqlite, Stored, and_then, commit, count_changes, insert_entries, insert_one_chunk,
  no_stats, row_of, skip, SqlError, insert_timed,
}
use logdive.Indexer.Table.{Table, has_hash, insert_or_ignore}
use logdive.Prelude.Result.{err, ok}
use mathlib.Core.Path.{subst}

pub data Ends (Q : Table → Type 0) (P : InsertStats → Table → Type 0) : Stored → Type 0 where
  stored : {s : InsertStats} {t : Table} → P s t → Ends Q P (ok s, t)
  fails_at : {e : SqlError} {t : Table} → Q t → Ends Q P (err e, t)

module _ {Q : Table → Type 0} {P : InsertStats → Table → Type 0} where
  pub Ends-then :
      {R : InsertStats → Table → Type 0} {r : Stored} {more : InsertStats → Table → Stored}
      → Ends Q P r
      → ((s : InsertStats) (t : Table) → P s t → Ends Q R (more s t))
      → Ends Q R (and_then r more)
  Ends-then (stored {s} {t} h) k = k s t h
  Ends-then (fails_at h) k = fails_at h

  pub Ends-weaken :
      {S : Table → Type 0} {R : InsertStats → Table → Type 0} {r : Stored}
      → Ends Q P r
      → ((t : Table) → Q t → S t)
      → ((s : InsertStats) (t : Table) → P s t → R s t)
      → Ends S R r
  Ends-weaken (stored {s} {t} h) j k = stored (k s t h)
  Ends-weaken (fails_at {t} h) j k = fails_at (j t h)

  pub Ends-ok : {r : Stored} {s : InsertStats} → Ends Q P r → r.0 ≡ ok s → P s r.1
  Ends-ok (stored {s} {t} h) e = subst (λ u. P u t) (cc e) h
  Ends-ok (fails_at h) e = cc e

module _ {Q : Table → Type 0} {P : InsertStats → Table → Type 0} where
  pub Ends-err : {r : Stored} {e : SqlError} → Ends Q P r → r.0 ≡ err e → Q r.1
  Ends-err (stored h) e = cc e
  Ends-err (fails_at h) e = h

module _ {P : InsertStats → Table → Type 0} where
  -- After an error that rolled back, the table is what it was at the start.
  pub Ends-back :
      (Q : Table → Type 0) (start : Table) {r : Stored}
      → Q start
      → Ends (λ t. t ≡ start) P r
      → Ends Q P r
  Ends-back Q start h (stored k) = stored k
  Ends-back Q start h (fails_at e) = fails_at (subst Q (sym e) h)

abbrev pub AnyTable : Table → Type 0
AnyTable _ = Unit

abbrev pub deduplicate : InsertStats → InsertStats
deduplicate s = record s { deduplicated = s.deduplicated + 1 }

abbrev pub insert_one : InsertStats → InsertStats
insert_one s = record s { inserted = s.inserted + 1 }

module _ (hash : Bytes → Bytes) (to_json : Fields → Bytes) (sqlite : Sqlite) where
  -- An entry without a timestamp, one with a line that is there, one with a new line; or an error.
  pub insert_timed-Ends :
      {Q : Table → Type 0} {P : InsertStats → Table → Type 0} (o : Option Bytes) (e : LogEntry)
      (s : InsertStats) (t : Table)
      → (o ≡ none → P (skip s) t)
      → ((ts : Bytes) → o ≡ some ts → has_hash (hash e.raw) t ≡ true → P (deduplicate s) t)
      → ((ts : Bytes)
          → o ≡ some ts
          → has_hash (hash e.raw) t ≡ false
          → P (insert_one s) (t ++ row_of hash to_json ts e ∷ []))
      → Q t
      → Ends Q P (insert_timed hash to_json sqlite o e s t)
  unfolding insert_timed row_of count_changes insert_or_ignore
  insert_timed-Ends none e s t skipped_one old fresh_one h = stored (skipped_one refl)
  insert_timed-Ends (some ts) e s t skipped_one old fresh_one h =
      elim (Bool-cases (sqlite.accepts (row_of hash to_json ts e) t)) [
        | inl accepted ↦ rw accepted (elim (Bool-cases (has_hash (hash e.raw) t)) [
          | inl dup ↦ rw dup (stored (old ts refl dup))
          | inr fresh ↦ rw fresh (stored (fresh_one ts refl fresh))
        ])
        | inr failure ↦ rw failure (fails_at h)
      ]

  commit-Ends :
      {Q : Table → Type 0} {P : InsertStats → Table → Type 0} (start : Table) {r : Stored}
      → Ends Q P r
      → Ends (λ t. t ≡ start) P (commit hash to_json sqlite start r)
  unfolding commit
  commit-Ends start (stored {s} {t} h) = elim (Bool-cases (sqlite.commits t)) [
    | inl committed ↦ rw committed (stored h)
    | inr failure ↦ rw failure (fails_at refl)
  ]
  commit-Ends start (fails_at h) = fails_at refl

  -- A chunk that fails leaves the table as it was.
  pub insert_one_chunk-Ends :
      {Q : Table → Type 0} {P : InsertStats → Table → Type 0} (es : List LogEntry) (t : Table)
      → Ends Q P (insert_entries hash to_json sqlite es no_stats t)
      → Ends (λ t'. t' ≡ t) P (insert_one_chunk hash to_json sqlite es t)
  unfolding insert_one_chunk
  insert_one_chunk-Ends es t h = elim (Bool-cases (sqlite.begins t)) [
    | inl begun ↦ rw begun (commit-Ends t h)
    | inr failure ↦ rw failure (fails_at refl)
  ]
