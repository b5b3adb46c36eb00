-- ===== src/Cli/Succeeds.antt =====
-- `ingest_lines` of crates/cli/src/main.rs on a database in which no statement fails: it succeeds.
use logdive.Prelude.{Bool-cases, List, Option, [], inl, inr, refl, ◌∷◌, ◌≡◌, ◌≢◌}
use logdive.Bytes.{Bytes}
use logdive.Entry.{Fields, JsonValue, LogEntry}
use logdive.Cli.Ingest.{
  IngestArgs, Ingested, Progress, accumulate, flush, flush_rest, go_on_with, ingest_lines,
  take_entry, take_line,
}
use logdive.Indexer.Again.{IsReliable}
use logdive.Parsers.Blank.{LineResult}
use logdive.Indexer.Batch.{Sqlite, Stored}
use logdive.Indexer.Reliable.{Succeeds, insert_batch-Succeeds}
use logdive.Prelude.Result.{err, ok, out_of_fuel}
use logdive.Bytes.White.{is_blank}
use logdive.Parsers.Format.{parse_line, parse_line-ne_out_of_fuel}

accumulate-ok : (r : Stored) (p : Progress) → Succeeds r → (accumulate r p).0 ≡ ok tt
unfolding accumulate
accumulate-ok (ok s, t) p h = refl
accumulate-ok (err e, t) p h = cc h.1
accumulate-ok (out_of_fuel, t) p h = cc h.1

go_on_with-ok :
    (r : Ingested) (more : Progress → Ingested)
    → r.0 ≡ ok tt
    → ((p : Progress) → (more p).0 ≡ ok tt)
    → (go_on_with r more).0 ≡ ok tt
go_on_with-ok (ok _, p) more h k = k p
go_on_with-ok (err e, p) more h k = cc h
go_on_with-ok (out_of_fuel, p) more h k = cc h

module _ (from_str : Bytes → Option JsonValue) (hash : Bytes → Bytes) (to_json : Fields → Bytes)
    (sqlite : Sqlite) (args : IngestArgs) where
  take_entry-ok :
      (now : Bytes) (r : LineResult LogEntry) (p : Progress)
      → r ≢ out_of_fuel
      → (take_entry args (λ q. (ok tt, q)) now r p).0 ≡ ok tt
  unfolding take_entry
  take_entry-ok now (ok e) p h = refl
  take_entry-ok now (err e) p h = refl
  take_entry-ok now out_of_fuel p h = absurd (h refl)

  take_line-ok :
      (line now : Bytes) (p : Progress)
      → (take_line from_str hash to_json sqlite args (λ q. (ok tt, q)) line now p).0 ≡ ok tt
  unfolding take_line
  take_line-ok line now p = elim (Bool-cases (is_blank line)) [
    | inl blank ↦ rw blank refl
    | inr dark ↦ rw dark (
        take_entry-ok now (parse_line from_str args.format line) p
          (parse_line-ne_out_of_fuel from_str args.format line))
  ]

  module _ (reliable : IsReliable sqlite) where
    flush_rest-ok :
        (b : List LogEntry) (p : Progress)
        → (flush_rest from_str hash to_json sqlite args b p).0 ≡ ok tt
    unfolding flush_rest flush
    flush_rest-ok [] p = refl
    flush_rest-ok (_ ∷ _) p =
        accumulate-ok _ p (insert_batch-Succeeds hash to_json sqlite reliable p.batch p.table)

    pub ingest_lines-ok :
        (lines : List (Bytes × Bytes)) (p : Progress)
        → (ingest_lines from_str hash to_json sqlite args lines p).0 ≡ ok tt
    unfolding ingest_lines
    ingest_lines-ok [] p = flush_rest-ok p.batch p
    ingest_lines-ok ((line, now) ∷ rest) p =
        go_on_with-ok _ _ (take_line-ok line now p) (ingest_lines-ok rest)
