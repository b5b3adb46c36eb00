-- ===== src/Indexer/Again.antt =====
-- Ingesting the same lines again adds nothing to the index of crates/core/src/indexer.rs.
use logdive.Prelude.{◌++◌, List, [], arith, none, some, true, ◌∷◌, ◌≡◌, Option, refl, ℕ, ◌∙◌}
use logdive.Indexer.Ends.{
  Ends, AnyTable, Ends-back, Ends-ok, Ends-then, Ends-weaken, deduplicate, insert_one_chunk-Ends,
  insert_timed-Ends, stored,
}
use logdive.Entry.{Fields, LogEntry}
use logdive.Indexer.Batch.{
  InsertStats, Sqlite, insert_timed, Stored, commit, count_changes, extend, insert_batch,
  insert_chunks, insert_entries, insert_entry, insert_one_chunk, no_stats, row_of, skip,
}
use logdive.Indexer.Table.{Row, Table, has_hash, insert_or_ignore}
use logdive.Bytes.Laws.{equals_refl}
use logdive.Indexer.Unique.{has_hash-append}
use logdive.Bytes.{Bytes}
use logdive.Indexer.Chunks.{batch_size, chunks, concat}
use logdive.Prelude.Result.{ok}

-- A database in which no statement fails.
pub record IsReliable (sqlite : Sqlite) : Type 0 where
  pub begins_always : (t : Table) → sqlite.begins t ≡ true
  pub accepts_always : (r : Row) (t : Table) → sqlite.accepts r t ≡ true
  pub commits_always : (t : Table) → sqlite.commits t ≡ true

-- Each entry that has a timestamp is in the table, by its hash.
abbrev IsIn : (Bytes → Bytes) → Option Bytes → LogEntry → Table → Type 0
IsIn hash none e t = Unit
IsIn hash (some ts) e t = has_hash (hash e.raw) t ≡ true

abbrev AllIn : (Bytes → Bytes) → List LogEntry → Table → Type 0
AllIn hash [] t = Unit
AllIn hash (e ∷ es) t = IsIn hash e.timestamp e t × AllIn hash es t

-- Every hash of the first table is in the second.
abbrev Grows : Table → Table → Type 0
Grows t u = (h : Bytes) → has_hash h t ≡ true → has_hash h u ≡ true

IsIn-Grows :
    (hash : Bytes → Bytes) (o : Option Bytes) (e : LogEntry) (t u : Table)
    → Grows t u
    → IsIn hash o e t
    → IsIn hash o e u
IsIn-Grows hash none e t u x h = tt
IsIn-Grows hash (some ts) e t u x h = x (hash e.raw) h

AllIn-Grows :
    (hash : Bytes → Bytes) (es : List LogEntry) (t u : Table)
    → Grows t u
    → AllIn hash es t
    → AllIn hash es u
AllIn-Grows hash [] t u x h = tt
AllIn-Grows hash (e ∷ es) t u x (h, hs) =
    (IsIn-Grows hash e.timestamp e t u x h, AllIn-Grows hash es t u x hs)

AllIn-append :
    (hash : Bytes → Bytes) (es fs : List LogEntry) (t : Table)
    → AllIn hash es t
    → AllIn hash fs t
    → AllIn hash (es ++ fs) t
AllIn-append hash [] fs t h k = k
AllIn-append hash (e ∷ es) fs t (h, hs) k = (h, AllIn-append hash es fs t hs k)

AllIn-split :
    (hash : Bytes → Bytes) (es fs : List LogEntry) (t : Table)
    → AllIn hash (es ++ fs) t
    → AllIn hash es t × AllIn hash fs t
AllIn-split hash [] fs t h = (tt, h)
AllIn-split hash (e ∷ es) fs t (h, hs) =
    let (here, more) = AllIn-split hash es fs t hs in ((h, here), more)

has_hash-append_old : (h : Bytes) (t u : Table) → has_hash h t ≡ true → has_hash h (t ++ u) ≡ true
has_hash-append_old h t u k = rw (has_hash-append h t u) (rw k)

has_hash-append_new :
    (h : Bytes) (t : Table) (r : Row) → r.raw_hash ≡ h → has_hash h (t ++ r ∷ []) ≡ true
unfolding has_hash
has_hash-append_new h t r e = ground (arith, has_hash-append h t (r ∷ []), equals_refl h, e)

module _ (hash : Bytes → Bytes) (to_json : Fields → Bytes) (sqlite : Sqlite) where
  insert_timed-IsIn :
      (o : Option Bytes) (e : LogEntry) (s : InsertStats) (t : Table)
      → Ends AnyTable
          (λ _ t'. IsIn hash o e t' × Grows t t')
          (insert_timed hash to_json sqlite o e s t)
  unfolding row_of
  insert_timed-IsIn o e s t =
      insert_timed-Ends hash to_json sqlite {P = λ _ t'. IsIn hash o e t' × Grows t t'} o e s t
        (λ no_ts. (rw no_ts tt, λ h k. k)) (λ ts has_ts old. (rw has_ts old, λ h k. k))
        (λ ts has_ts fresh. (
          rw has_ts (has_hash-append_new (hash e.raw) t (row_of hash to_json ts e) refl),
          λ h k. has_hash-append_old h t (row_of hash to_json ts e ∷ []) k,
        ))
        tt

  insert_entries-AllIn :
      (es : List LogEntry) (s : InsertStats) (t : Table)
      → Ends AnyTable
          (λ _ t'. AllIn hash es t' × Grows t t')
          (insert_entries hash to_json sqlite es s t)
  unfolding insert_entries insert_entry
  insert_entries-AllIn [] s t = stored (tt, λ h k. k)
  insert_entries-AllIn (e ∷ es) s t =
      Ends-then (insert_timed-IsIn e.timestamp e s t) λ s' t' (here, grows).
        Ends-weaken (insert_entries-AllIn es s' t') (λ _ _. tt)
          λ s'' t'' (more, grows').
            ((IsIn-Grows hash e.timestamp e t' t'' grows' here, more), λ h k. grows' h (grows h k))

  insert_chunks-AllIn :
      (ess : List (List LogEntry)) (s : InsertStats) (t : Table)
      → Ends AnyTable
          (λ _ t'. AllIn hash (concat ess) t' × Grows t t')
          (insert_chunks hash to_json sqlite ess s t)
  unfolding insert_chunks
  insert_chunks-AllIn [] s t = stored (tt, λ h k. k)
  insert_chunks-AllIn (es ∷ ess) s t =
      Ends-then
        (Ends-back AnyTable t tt
          (insert_one_chunk-Ends hash to_json sqlite es t (insert_entries-AllIn es no_stats t)))
        λ stats t' (here, grows).
          Ends-weaken (insert_chunks-AllIn ess (extend s stats) t') (λ _ _. tt)
            λ s'' t'' (more, grows'). (
              AllIn-append hash es (concat ess) t'' (AllIn-Grows hash es t' t'' grows' here) more,
              λ h k. grows' h (grows h k),
            )

  -- A call that goes well, inserts nothing and leaves the table.
  abbrev AddsNothing : ℕ → Table → Stored → Type 0
  AddsNothing n t r = (s : InsertStats) × (r ≡ (ok s, t)) × (s.inserted ≡ n)

  module _ (reliable : IsReliable sqlite) where
    insert_timed_again :
        (o : Option Bytes) (e : LogEntry) (s : InsertStats) (t : Table)
        → IsIn hash o e t
        → AddsNothing s.inserted t (insert_timed hash to_json sqlite o e s t)
    unfolding insert_timed row_of count_changes insert_or_ignore
    insert_timed_again none e s t h = (skip s, refl, refl)
    insert_timed_again (some ts) e s t h =
        (deduplicate s, rw (reliable.accepts_always (row_of hash to_json ts e) t) (rw h refl), refl)

    insert_entries_again :
        (es : List LogEntry) (s : InsertStats) (t : Table)
        → AllIn hash es t
        → AddsNothing s.inserted t (insert_entries hash to_json sqlite es s t)
    unfolding insert_entries insert_entry
    insert_entries_again [] s t h = (s, refl, refl)
    insert_entries_again (e ∷ es) s t (here, more) =
        let (s', e', n') = insert_timed_again e.timestamp e s t here in
        let (s'', e'', n'') = insert_entries_again es s' t more in (s'', rw e' e'', n'' ∙ n')

    insert_one_chunk_again :
        (es : List LogEntry) (t : Table)
        → AllIn hash es t
        → AddsNothing 0 t (insert_one_chunk hash to_json sqlite es t)
    unfolding insert_one_chunk commit
    insert_one_chunk_again es t h =
        let (s, e, n) = insert_entries_again es no_stats t h in
        (s, rw (reliable.begins_always t) (rw e (rw (reliable.commits_always t) refl)), n)

    insert_chunks_again :
        (ess : List (List LogEntry)) (s : InsertStats) (t : Table)
        → AllIn hash (concat ess) t
        → AddsNothing s.inserted t (insert_chunks hash to_json sqlite ess s t)
    unfolding insert_chunks extend
    insert_chunks_again [] s t h = (s, refl, refl)
    insert_chunks_again (es ∷ ess) s t h =
        let (here, more) = AllIn-split hash es (concat ess) t h in
        let (stats, e, n) = insert_one_chunk_again es t here in
        let (s', e', n') = insert_chunks_again ess (extend s stats) t more in
        (s', rw e e', omega (arith, n, n'))

  -- On a database in which no statement fails, a second `insert_batch` of the same entries inserts
  -- none and leaves the table as it is.
  pub insert_batch_again :
      (entries : List LogEntry) (t : Table) (s : InsertStats)
      → IsReliable sqlite
      → (insert_batch hash to_json sqlite entries t).0 ≡ ok s
      → (s' : InsertStats) × (insert_batch hash to_json sqlite entries
            (insert_batch hash to_json sqlite entries t).1
          ≡ (ok s', (insert_batch hash to_json sqlite entries t).1))
        × (s'.inserted ≡ 0)
  unfolding insert_batch
  insert_batch_again entries t s reliable h =
      let all_chunks = chunks batch_size entries in
      insert_chunks_again reliable all_chunks no_stats _
        (Ends-ok (insert_chunks-AllIn all_chunks no_stats t) h).0
