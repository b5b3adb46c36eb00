-- ===== src/Indexer/Unique.antt =====
-- The table of crates/core/src/indexer.rs as an index of lines.
use logdive.Prelude.{
  ◌++◌, ◌∙◌, Bool, Bool-cases, ap, inl, inr, sym, List, [], arith, false, refl, ◌||◌, ◌∷◌, ◌≡◌,
}
use logdive.Bytes.{Bytes, equals}
use logdive.Indexer.Ends.{
  Ends, Ends-back, Ends-then, fails_at, insert_one_chunk-Ends, insert_timed-Ends, stored,
}
use logdive.Bytes.Laws.{equals_iff}
use logdive.Entry.{Fields, LogEntry}
use logdive.Indexer.Batch.{
  InsertStats, Sqlite, Stored, extend, insert_batch, insert_chunks, insert_entries, insert_entry,
  no_stats, row_of,
}
use logdive.Indexer.Table.{Row, Table, has_hash}
use logdive.Indexer.Chunks.{batch_size, chunks}

-- Whether a row has this line.
unfoldable pub has_line : Bytes → Table → Bool
has_line line [] = false
has_line line (r ∷ rs) = equals line r.raw || has_line line rs

pub has_hash-append :
    (h : Bytes) (t u : Table) → has_hash h (t ++ u) ≡ (has_hash h t || has_hash h u)
unfolding has_hash
has_hash-append h [] u = refl
has_hash-append h (r ∷ rs) u = ground (arith, has_hash-append h rs u)

has_line-append :
    (line : Bytes) (t u : Table) → has_line line (t ++ u) ≡ (has_line line t || has_line line u)
unfolding has_line
has_line-append line [] u = refl
has_line-append line (r ∷ rs) u = ground (arith, has_line-append line rs u)

equals_comm : (s t : Bytes) → equals s t ≡ equals t s
unfolding equals
equals_comm [] [] = refl
equals_comm [] (_ ∷ _) = refl
equals_comm (_ ∷ _) [] = refl
equals_comm (a ∷ s) (b ∷ t) = ground (arith, equals_comm s t)

module _ (hash : Bytes → Bytes) where
  -- The table is an index of lines: each row has the hash of its line, and no line is there twice.
  unfoldable pub IsIndex : Table → Type 0
  IsIndex [] = Unit
  IsIndex (r ∷ rs) = (r.raw_hash ≡ hash r.raw) × (has_line r.raw rs ≡ false) × IsIndex rs

  fresh_line :
      (line : Bytes) (t : Table)
      → IsIndex t
      → has_hash (hash line) t ≡ false
      → has_line line t ≡ false
  unfolding IsIndex has_hash has_line
  fresh_line line [] i h = refl
  fresh_line line (r ∷ rs) (keyed, once, i) h = elim (Bool-cases (equals line r.raw)) [
    | inl same ↦
        let here : hash line ≡ r.raw_hash = ap hash ((equals_iff line r.raw).0 same) ∙ sym keyed in
        cc (rw ((equals_iff (hash line) r.raw_hash).1 here) at h)
    | inr differs ↦ rw differs (fresh_line line rs i (ground arith))
  ]

  IsIndex-append_one :
      (t : Table) (r : Row)
      → IsIndex t
      → r.raw_hash ≡ hash r.raw
      → has_line r.raw t ≡ false
      → IsIndex (t ++ r ∷ [])
  unfolding IsIndex has_line
  IsIndex-append_one [] r i keyed h = (keyed, refl, tt)
  IsIndex-append_one (q ∷ qs) r (q_keyed, once, i) keyed h = (
    q_keyed,
    ground (arith, has_line-append q.raw qs (r ∷ []), equals_comm q.raw r.raw),
    IsIndex-append_one qs r i keyed (ground arith),
  )

  module _ (to_json : Fields → Bytes) (sqlite : Sqlite) where
    insert_entries-IsIndex :
        (es : List LogEntry) (s : InsertStats) (t : Table)
        → IsIndex t
        → Ends IsIndex (λ _. IsIndex) (insert_entries hash to_json sqlite es s t)
    unfolding insert_entries insert_entry row_of
    insert_entries-IsIndex [] s t i = stored i
    insert_entries-IsIndex (e ∷ es) s t i =
        Ends-then
          (insert_timed-Ends hash to_json sqlite {P = λ _. IsIndex} e.timestamp e s t (λ _. i)
            (λ ts _ _. i)
            (λ ts _ fresh.
              IsIndex-append_one t (row_of hash to_json ts e) i refl (fresh_line e.raw t i fresh))
            i)
          λ s' t' i'. insert_entries-IsIndex es s' t' i'

    insert_chunks-IsIndex :
        (ess : List (List LogEntry)) (s : InsertStats) (t : Table)
        → IsIndex t
        → Ends IsIndex (λ _. IsIndex) (insert_chunks hash to_json sqlite ess s t)
    unfolding insert_chunks
    insert_chunks-IsIndex [] s t i = stored i
    insert_chunks-IsIndex (es ∷ ess) s t i =
        Ends-then
          (Ends-back IsIndex t i (
            insert_one_chunk-Ends hash to_json sqlite es t
              (insert_entries-IsIndex es no_stats t i)))
          λ s' t' i'. insert_chunks-IsIndex ess (extend s s') t' i'

    Ends-table : {Q : Table → Type 0} {r : Stored} → Ends Q (λ _. Q) r → Q r.1
    Ends-table (stored h) = h
    Ends-table (fails_at h) = h

    -- If each row of a table has the hash of its line, and no line is there twice, `insert_batch`
    -- leaves a table of which this is true, also when a statement fails on the way.
    pub insert_batch-IsIndex :
        (entries : List LogEntry) (t : Table)
        → IsIndex t
        → IsIndex (insert_batch hash to_json sqlite entries t).1
    unfolding insert_batch
    insert_batch-IsIndex entries t i =
        Ends-table (insert_chunks-IsIndex (chunks batch_size entries) no_stats t i)
