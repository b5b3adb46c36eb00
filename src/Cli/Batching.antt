-- ===== src/Cli/Batching.antt =====
-- `ingest_lines` of crates/cli/src/main.rs mirrors `ingest_reader`: the batches do not show in the result.
use logdive.Prelude.{
  ◌+◌, ◌++◌, Bool-cases, List, Option, [], ap, append-nil, append_assoc, inl, inr, leb, length,
  refl, sym, ◌∙◌, ◌∷◌, ◌≡◌, ◌≢◌,
}
use logdive.Bytes.{Bytes}
use logdive.Entry.{Fields, JsonValue, LogEntry}
use logdive.Cli.Ingest.{
  IngestArgs, Ingested, LineRead, Progress, accumulate, flush, flush_full, flush_rest, go_on_with,
  ingest_lines, ingest_reader, line_read, prepare, reader_batch, take_entry, take_line,
}
use logdive.Indexer.Again.{IsReliable}
use logdive.Parsers.Blank.{LineResult}
use logdive.Indexer.Batch.{Sqlite}
use mathlib.Core.Path.{ap₂, subst}
use logdive.Prelude.Result.{err, ok, out_of_fuel}
use logdive.Indexer.Sequential.{insert_batch-good, put_all, put_all-add, put_all-append, Put}
use logdive.Bytes.White.{is_blank}
use logdive.Parsers.Format.{parse_line, parse_line-ne_out_of_fuel}

-- The lines as a reader gives them.
unfoldable pub reads : List (Bytes × Bytes) → List LineRead
reads [] = []
reads ((line, now) ∷ rest) = line_read line now ∷ reads rest

module _ (from_str : Bytes → Option JsonValue) (hash : Bytes → Bytes) (to_json : Fields → Bytes)
    (sqlite : Sqlite) (args : IngestArgs) where
  -- With the batch in the table.
  abbrev settled : List LogEntry → Progress → Progress
  settled batch p =
      let (total, table) = put_all hash to_json batch p.total p.table in
      record p { total = total; batch = []; table = table }

  -- Of the batch of `q`, `p` has inserted the front.
  record IsAhead (p q : Progress) : Type 0 where
    inserted : List LogEntry
    batch : q.batch ≡ inserted ++ p.batch
    malformed : p.malformed ≡ q.malformed
    put : put_all hash to_json inserted q.total q.table ≡ (p.total, p.table)

  data AreAlike : Ingested → Ingested → Type 0 where
    alike : {p q : Progress} → IsAhead p q → AreAlike (ok tt, p) (ok tt, q)

  go_on_with-AreAlike :
      {r r' : Ingested} {more more' : Progress → Ingested}
      → AreAlike r r'
      → ((p q : Progress) → IsAhead p q → more p ≡ more' q)
      → go_on_with r more ≡ go_on_with r' more'
  go_on_with-AreAlike (alike {p} {q} h) k = k p q h

  IsAhead-settled : (p q : Progress) → IsAhead p q → settled p.batch p ≡ settled q.batch q
  IsAhead-settled p q h =
      let same : put_all hash to_json q.batch q.total q.table
          ≡ put_all hash to_json p.batch p.total p.table =
        ap (λ b. put_all hash to_json b q.total q.table) h.batch
        ∙ put_all-append hash to_json h.inserted p.batch q.total q.table
        ∙ ap (λ (x : Put). put_all hash to_json p.batch x.0 x.1) h.put in
      ap₂ (λ (x : Put) m. record { total = x.0; malformed = m; batch = []; table = x.1 }) (sym same)
        h.malformed

  module _ (reliable : IsReliable sqlite) where
    flush-settled :
        (p : Progress) → flush from_str hash to_json sqlite args p ≡ (ok tt, settled p.batch p)
    unfolding flush accumulate
    flush-settled p =
        ap (λ r. accumulate r p) (insert_batch-good hash to_json sqlite reliable p.batch p.table)
        ∙ ap (λ (x : Put). (ok tt, record p { total = x.0; batch = []; table = x.1 }))
            (sym (put_all-add hash to_json p.batch p.total p.table))

    flush_rest-settled :
        (b : List LogEntry) (p : Progress)
        → p.batch ≡ b
        → flush_rest from_str hash to_json sqlite args b p ≡ (ok tt, settled p.batch p)
    unfolding flush_rest put_all
    flush_rest-settled [] p h =
        ap (λ b. (ok tt, record p { batch = b })) h ∙ ap (λ b. (ok tt, settled b p)) (sym h)
    flush_rest-settled (_ ∷ _) p h = flush-settled p

    settled-IsAhead : (p q : Progress) → IsAhead p q → IsAhead (settled p.batch p) q
    settled-IsAhead p q h = record {
      inserted = h.inserted ++ p.batch;
      batch = h.batch ∙ sym (append-nil (h.inserted ++ p.batch));
      malformed = h.malformed;
      put =
          put_all-append hash to_json h.inserted p.batch q.total q.table
          ∙ ap (λ (x : Put). put_all hash to_json p.batch x.0 x.1) h.put;
    }

    flush_full-AreAlike :
        (p q : Progress)
        → IsAhead p q
        → AreAlike (flush_full from_str hash to_json sqlite args p) (ok tt, q)
    unfolding flush_full
    flush_full-AreAlike p q h = elim (Bool-cases (leb reader_batch (length p.batch))) [
      | inl full ↦ rw full (
          subst (λ r. AreAlike r (ok tt, q)) (sym (flush-settled p))
            (alike (settled-IsAhead p q h)))
      | inr room ↦ rw room (alike h)
    ]

    IsAhead-push :
        (p q : Progress) (e : LogEntry)
        → IsAhead p q
        → IsAhead (record p { batch = p.batch ++ e ∷ [] }) (record q { batch = q.batch ++ e ∷ [] })
    IsAhead-push p q e h = record {
      inserted = h.inserted;
      batch = ap (λ b. b ++ e ∷ []) h.batch ∙ append_assoc h.inserted p.batch (e ∷ []);
      malformed = h.malformed;
      put = h.put;
    }

    take_entry-AreAlike :
        (now : Bytes) (r : LineResult LogEntry) (p q : Progress)
        → r ≢ out_of_fuel
        → IsAhead p q
        → AreAlike
            (take_entry args (flush_full from_str hash to_json sqlite args) now r p)
            (take_entry args (λ x. (ok tt, x)) now r q)
    unfolding take_entry
    take_entry-AreAlike now (ok e) p q ends h =
        flush_full-AreAlike _ _ (IsAhead-push p q (prepare args now e) h)
    take_entry-AreAlike now (err e) p q ends h = alike (record {
      inserted = h.inserted;
      batch = h.batch;
      malformed = ap (λ n. n + 1) h.malformed;
      put = h.put;
    })
    take_entry-AreAlike now out_of_fuel p q ends h = absurd (ends refl)

    take_line-AreAlike :
        (line now : Bytes) (p q : Progress)
        → IsAhead p q
        → AreAlike
            (take_line from_str hash to_json sqlite args
              (flush_full from_str hash to_json sqlite args)
              line
              now
              p)
            (take_line from_str hash to_json sqlite args (λ x. (ok tt, x)) line now q)
    unfolding take_line
    take_line-AreAlike line now p q h = elim (Bool-cases (is_blank line)) [
      | inl blank ↦ rw blank (alike h)
      | inr dark ↦ rw dark (
          take_entry-AreAlike now (parse_line from_str args.format line) p q
            (parse_line-ne_out_of_fuel from_str args.format line) h)
    ]

    reader_mirrors :
        (lines : List (Bytes × Bytes)) (p q : Progress)
        → IsAhead p q
        → ingest_reader from_str hash to_json sqlite args (reads lines) p
          ≡ ingest_lines from_str hash to_json sqlite args lines q
    unfolding ingest_reader ingest_lines reads
    reader_mirrors [] p q h =
        flush_rest-settled p.batch p refl
        ∙ ap (λ x. (ok tt, x)) (IsAhead-settled p q h)
        ∙ sym (flush_rest-settled q.batch q refl)
    reader_mirrors ((line, now) ∷ rest) p q h =
        go_on_with-AreAlike (take_line-AreAlike line now p q h) (reader_mirrors rest)

    -- On a database in which no statement fails, `ingest_lines` and `ingest_reader` do the same with
    -- the same lines and times, whatever waits in the batch: the batches of a thousand show neither in
    -- the counts nor in the table.
    pub ingest_reader-ingest_lines :
        (lines : List (Bytes × Bytes)) (p : Progress)
        → ingest_reader from_str hash to_json sqlite args (reads lines) p
          ≡ ingest_lines from_str hash to_json sqlite args lines p
    unfolding put_all
    ingest_reader-ingest_lines lines p =
        reader_mirrors lines p p
          (record { inserted = []; batch = refl; malformed = refl; put = refl })
