-- ===== src/Cli/Account.antt =====
-- Every line that crates/cli/src/main.rs ingests is accounted for.
use logdive.Prelude.{
  ◌+◌, Bool-cases, List, Option, [], arith, if◌then◌else◌, inl, inr, leb, length, refl, ℕ, ◌∷◌, ◌≡◌,
  ◌++◌, Bool, length-append, ap, false, true,
}
use logdive.Indexer.Ends.{AnyTable, Ends, fails_at, stored}
use logdive.Bytes.{Bytes}
use logdive.Entry.{Fields, JsonValue, LogEntry}
use logdive.Cli.Ingest.{
  IngestArgs, IngestError, Ingested, LineRead, accumulate, flush, flush_full, flush_rest,
  go_on_with, line_failed, line_read, reader_batch, Progress, ingest_reader, prepare, take_entry,
  take_line, ingest_lines,
}
use logdive.Indexer.Batch.{Sqlite, Stored, extend}
use logdive.Prelude.Result.{err, ok, Ensures, fails, holds}
use logdive.Indexer.Counts.{insert_batch-Ends, total_of}
use logdive.Bytes.White.{is_blank}
use logdive.Parsers.Blank.{LineResult, Skipped}
use logdive.Parsers.Format.{parse_line-Ensures}

-- The entries counted, the malformed lines and the entries that wait in the batch.
abbrev pub accounted : Progress → ℕ
accounted p = total_of p.total + p.malformed + length p.batch

-- How many lines that are not blank were read.
unfoldable pub lines_of : List LineRead → ℕ
lines_of [] = 0
lines_of (line_failed ∷ rest) = lines_of rest
lines_of (line_read line now ∷ rest) =
    let more = lines_of rest in if is_blank line then more else more + 1

-- The same for lines that were split before.
unfoldable pub dark_lines : List (Bytes × Bytes) → ℕ
dark_lines [] = 0
dark_lines ((line, now) ∷ rest) =
    let more = dark_lines rest in if is_blank line then more else more + 1

-- From `p` to `q` so many lines are accounted for, and the inserted entries are rows.
pub record Accounts (p : Progress) (n : ℕ) (q : Progress) : Type 0 where
  pub counts : accounted q ≡ accounted p + n
  pub adds : length q.table + p.total.inserted ≡ length p.table + q.total.inserted

-- A success reaches a progress with the property; no call runs out of fuel.
pub data Reaches (P : Progress → Type 0) : Ingested → Type 0 where
  reached : {p : Progress} → P p → Reaches P (ok tt, p)
  stopped : {e : IngestError} {p : Progress} → Reaches P (err e, p)

Reaches-then :
    {P R : Progress → Type 0} {r : Ingested} {more : Progress → Ingested}
    → Reaches P r
    → ((p : Progress) → P p → Reaches R (more p))
    → Reaches R (go_on_with r more)
Reaches-then (reached {p} h) k = k p h
Reaches-then stopped k = stopped

Reaches-weaken :
    {P R : Progress → Type 0} {r : Ingested}
    → Reaches P r
    → ((p : Progress) → P p → R p)
    → Reaches R r
Reaches-weaken (reached {p} h) k = reached (k p h)
Reaches-weaken stopped k = stopped

pub Reaches-ok : {P : Progress → Type 0} {r : Ingested} → Reaches P r → r.0 ≡ ok tt → P r.1
Reaches-ok (reached h) e = h
Reaches-ok stopped e = cc e

abbrev one_if_dark : Bool → ℕ
one_if_dark b = if b then 0 else 1

Accounts-then :
    (is_blank_line : Bool) (n : ℕ) {p q r : Progress}
    → Accounts p (one_if_dark is_blank_line) q
    → Accounts q n r
    → Accounts p (if is_blank_line then n else n + 1) r
Accounts-then true n h k = record {
  counts = omega (arith, h.counts, k.counts);
  adds = omega (arith, h.adds, k.adds);
}
Accounts-then false n h k = record {
  counts = omega (arith, h.counts, k.counts);
  adds = omega (arith, h.adds, k.adds);
}

accumulate-Accounts :
    (p : Progress) {r : Stored}
    → Ends AnyTable
        (λ s t'. (total_of s ≡ length p.batch) × (length t' ≡ length p.table + s.inserted))
        r
    → Reaches (λ q. Accounts p 0 q × (q.batch ≡ [])) (accumulate r p)
unfolding accumulate extend
accumulate-Accounts p (stored (counted, grown)) =
    reached (record { counts = omega (arith, counted); adds = omega (arith, grown) }, refl)
accumulate-Accounts p (fails_at _) = stopped

module _ (from_str : Bytes → Option JsonValue) (hash : Bytes → Bytes) (to_json : Fields → Bytes)
    (sqlite : Sqlite) (args : IngestArgs) where
  flush-Accounts :
      (p : Progress)
      → Reaches (λ q. Accounts p 0 q × (q.batch ≡ [])) (flush from_str hash to_json sqlite args p)
  unfolding flush
  flush-Accounts p = accumulate-Accounts p (insert_batch-Ends hash to_json sqlite p.batch p.table)

  flush_full-Accounts :
      (p : Progress) → Reaches (Accounts p 0) (flush_full from_str hash to_json sqlite args p)
  unfolding flush_full
  flush_full-Accounts p = elim (Bool-cases (leb reader_batch (length p.batch))) [
    | inl full ↦ rw full (Reaches-weaken (flush-Accounts p) λ q h. h.0)
    | inr room ↦ rw room (reached (record { counts = omega arith; adds = omega arith }))
  ]

  flush_rest-Accounts :
      (b : List LogEntry) (p : Progress)
      → p.batch ≡ b
      → Reaches
          (λ q. Accounts p 0 q × (q.batch ≡ []))
          (flush_rest from_str hash to_json sqlite args b p)
  unfolding flush_rest
  flush_rest-Accounts [] p h = reached (record { counts = omega arith; adds = omega arith }, h)
  flush_rest-Accounts (_ ∷ _) p h = flush-Accounts p

  take_entry-Accounts :
      (after : Progress → Ingested) (now : Bytes) (p : Progress) {E : Skipped → Type 0}
      {P : LogEntry → Type 0} {r : LineResult LogEntry}
      → ((q : Progress) → Reaches (Accounts q 0) (after q))
      → Ensures E P r
      → Reaches (Accounts p 1) (take_entry args after now r p)
  unfolding take_entry
  take_entry-Accounts after now p goes_on (holds {a = e} h) =
      let added = prepare args now e in
      Reaches-weaken (goes_on (record p { batch = p.batch ++ added ∷ [] })) λ q h. record {
        counts = omega (arith, h.counts, length-append p.batch (added ∷ []));
        adds = h.adds;
      }
  take_entry-Accounts after now p goes_on (fails h) =
      reached (record { counts = omega arith; adds = omega arith })

  take_line-Accounts :
      (after : Progress → Ingested) (line now : Bytes) (p : Progress)
      → ((q : Progress) → Reaches (Accounts q 0) (after q))
      → Reaches
          (Accounts p (one_if_dark (is_blank line)))
          (take_line from_str hash to_json sqlite args after line now p)
  unfolding take_line
  take_line-Accounts after line now p goes_on = elim (Bool-cases (is_blank line)) [
    | inl blank ↦ rw blank (reached (record { counts = omega arith; adds = omega arith }))
    | inr dark ↦
        rw dark
          (take_entry-Accounts after now p goes_on (parse_line-Ensures from_str args.format line))
  ]

  ingest_reader-Accounts :
      (lines : List LineRead) (p : Progress)
      → Reaches
          (λ q. Accounts p (lines_of lines) q × (q.batch ≡ []))
          (ingest_reader from_str hash to_json sqlite args lines p)
  unfolding ingest_reader lines_of
  ingest_reader-Accounts [] p = flush_rest-Accounts p.batch p refl
  ingest_reader-Accounts (line_failed ∷ rest) p = stopped
  ingest_reader-Accounts (line_read line now ∷ rest) p =
      Reaches-then
        (take_line-Accounts (flush_full from_str hash to_json sqlite args) line now p
          flush_full-Accounts)
        λ q here.
          Reaches-weaken (ingest_reader-Accounts rest q)
            λ r (more, empty). (Accounts-then (is_blank line) (lines_of rest) here more, empty)

  -- If `ingest_reader` succeeds, the counts of inserted, deduplicated and skipped entries and of
  -- malformed lines have grown by the number of lines read that are not blank, and by the entries that
  -- were waiting in the batch, and the table has grown by the inserted ones.
  pub ingest_reader-accounts :
      (lines : List LineRead) (p : Progress)
      → (ingest_reader from_str hash to_json sqlite args lines p).0 ≡ ok tt
      → let q = (ingest_reader from_str hash to_json sqlite args lines p).1 in
        (total_of q.total + q.malformed ≡ accounted p + lines_of lines)
        × (length q.table + p.total.inserted ≡ length p.table + q.total.inserted)
  ingest_reader-accounts lines p h =
      let (a, empty) = Reaches-ok (ingest_reader-Accounts lines p) h in
      (omega (arith, a.counts, ap length empty), a.adds)

  pub ingest_lines-Accounts :
      (lines : List (Bytes × Bytes)) (p : Progress)
      → Reaches
          (λ q. Accounts p (dark_lines lines) q × (q.batch ≡ []))
          (ingest_lines from_str hash to_json sqlite args lines p)
  unfolding ingest_lines dark_lines
  ingest_lines-Accounts [] p = flush_rest-Accounts p.batch p refl
  ingest_lines-Accounts ((line, now) ∷ rest) p =
      Reaches-then
        (take_line-Accounts (λ q. (ok tt, q)) line now p
          λ q. reached (record { counts = omega arith; adds = omega arith }))
        λ q here.
          Reaches-weaken (ingest_lines-Accounts rest q)
            λ r (more, empty). (Accounts-then (is_blank line) (dark_lines rest) here more, empty)

  -- If `ingest_lines` succeeds, the counts of inserted, deduplicated and skipped entries and of
  -- malformed lines have grown by the number of lines that are not blank, and by the entries that were
  -- waiting in the batch, and the table has grown by the inserted ones.
  pub ingest_lines-accounts :
      (lines : List (Bytes × Bytes)) (p : Progress)
      → (ingest_lines from_str hash to_json sqlite args lines p).0 ≡ ok tt
      → let q = (ingest_lines from_str hash to_json sqlite args lines p).1 in
        (total_of q.total + q.malformed ≡ accounted p + dark_lines lines)
        × (length q.table + p.total.inserted ≡ length p.table + q.total.inserted)
  ingest_lines-accounts lines p h =
      let (a, empty) = Reaches-ok (ingest_lines-Accounts lines p) h in
      (omega (arith, a.counts, ap length empty), a.adds)
