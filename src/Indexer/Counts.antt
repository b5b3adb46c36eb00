-- ===== src/Indexer/Counts.antt =====
-- The counts that `insert_batch` of crates/core/src/indexer.rs returns.
use logdive.Prelude.{◌+◌, List, [], arith, length, length-append, ℕ, ◌∷◌, ◌≡◌, ap}
use logdive.Bytes.{Bytes}
use logdive.Indexer.Ends.{
  Ends, Ends-then, Ends-weaken, insert_one_chunk-Ends, insert_timed-Ends, stored, Ends-back,
  Ends-ok, AnyTable,
}
use logdive.Entry.{Fields, LogEntry}
use logdive.Indexer.Batch.{
  InsertStats, Sqlite, extend, insert_chunks, insert_entries, insert_entry, no_stats, row_of,
  insert_batch,
}
use logdive.Indexer.Table.{Table}
use logdive.Indexer.Chunks.{concat, batch_size, chunks, concat-chunks}
use logdive.Prelude.Result.{ok}

abbrev pub total_of : InsertStats → ℕ
total_of s = s.inserted + s.deduplicated + s.skipped_no_timestamp

-- From stats `s` and table `t` on: so many entries are counted, and the inserted ones are rows.
record Counted (n : ℕ) (s : InsertStats) (t : Table) (s' : InsertStats) (t' : Table) : Type 0 where
  counts : total_of s' ≡ total_of s + n
  adds : length t' + s.inserted ≡ length t + s'.inserted

module _ (hash : Bytes → Bytes) (to_json : Fields → Bytes) (sqlite : Sqlite) where
  insert_entries-Counted :
      (es : List LogEntry) (s : InsertStats) (t : Table)
      → Ends AnyTable (Counted (length es) s t) (insert_entries hash to_json sqlite es s t)
  unfolding insert_entries insert_entry
  insert_entries-Counted [] s t = stored (record { counts = omega arith; adds = omega arith })
  insert_entries-Counted (e ∷ es) s t =
      Ends-then
        (insert_timed-Ends hash to_json sqlite {P = Counted 1 s t} e.timestamp e s t
          (λ _. record { counts = omega arith; adds = omega arith })
          (λ ts _ _. record { counts = omega arith; adds = omega arith })
          (λ ts _ _. record {
            counts = omega arith;
            adds = omega (arith, length-append t (row_of hash to_json ts e ∷ []));
          })
          tt)
        λ s' t' one.
          Ends-weaken (insert_entries-Counted es s' t') (λ _ _. tt)
            λ s'' t'' more. record {
              counts = omega (arith, one.counts, more.counts);
              adds = omega (arith, one.adds, more.adds);
            }

  insert_chunks-Counted :
      (ess : List (List LogEntry)) (s : InsertStats) (t : Table)
      → Ends AnyTable
          (Counted (length (concat ess)) s t)
          (insert_chunks hash to_json sqlite ess s t)
  unfolding insert_chunks extend
  insert_chunks-Counted [] s t = stored (record { counts = omega arith; adds = omega arith })
  insert_chunks-Counted (es ∷ ess) s t =
      Ends-then
        (Ends-back AnyTable t tt
          (insert_one_chunk-Ends hash to_json sqlite es t (insert_entries-Counted es no_stats t)))
        λ stats t' here.
          Ends-weaken (insert_chunks-Counted ess (extend s stats) t') (λ _ _. tt)
            λ s'' t'' more. record {
              counts = omega (arith, here.counts, more.counts, length-append es (concat ess));
              adds = omega (arith, here.adds, more.adds);
            }

  pub insert_batch-Ends :
      (entries : List LogEntry) (t : Table)
      → Ends AnyTable
          (λ s t'. (total_of s ≡ length entries) × (length t' ≡ length t + s.inserted))
          (insert_batch hash to_json sqlite entries t)
  unfolding insert_batch
  insert_batch-Ends entries t =
      let whole = ap length (concat-chunks batch_size entries (omega arith)) in
      Ends-weaken (insert_chunks-Counted (chunks batch_size entries) no_stats t) (λ _ _. tt)
        λ s t' counted. (omega (arith, counted.counts, whole), omega (arith, counted.adds))

  -- If `insert_batch` succeeds, its three counts add up to the number of the entries, and the table
  -- has grown by the count of the inserted ones.
  pub insert_batch-counts :
      (entries : List LogEntry) (t : Table) (s : InsertStats)
      → (insert_batch hash to_json sqlite entries t).0 ≡ ok s
      → (s.inserted + s.deduplicated + s.skipped_no_timestamp ≡ length entries)
        × (length (insert_batch hash to_json sqlite entries t).1 ≡ length t + s.inserted)
  insert_batch-counts entries t s h = Ends-ok (insert_batch-Ends entries t) h
