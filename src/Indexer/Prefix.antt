-- ===== src/Indexer/Prefix.antt =====
-- `insert_batch` of crates/core/src/indexer.rs by its whole chunks, one transaction for each.
use logdive.Prelude.{
  ◌*◌, ◌+◌, ◌++◌, ◌<◌, ◌≤◌, Bool-cases, List, Option, [], ap, arith, inl, inr, length, none, refl,
  some, suc, sym, zero, ℕ, ◌∙◌, ◌∷◌, ◌≡◌,
}
use logdive.Bytes.{Bytes}
use logdive.Entry.{Fields, LogEntry}
use logdive.Indexer.Batch.{
  InsertStats, SqlError, Sqlite, Stored, and_then, commit, extend, insert_batch, insert_chunks,
  insert_entries, insert_entry, insert_one_chunk, insert_timed, no_stats, row_of,
}
use logdive.Indexer.Sequential.{Put, good, put_all, put_all-add, put_all-append, put_one}
use logdive.Indexer.Chunks.{
  batch_size, chunks, chunks_on, drop, take, take-append-drop, length-drop,
}
use logdive.Indexer.Table.{Table}
use logdive.Prelude.Result.{err}
use mathlib.Core.Path.{subst}

-- A call does all that it would do if nothing failed, or returns an error.
data Tries (done : Put) : Stored → Type 0 where
  succeeds : Tries done (good done)
  breaks : {e : SqlError} {t : Table} → Tries done (err e, t)

Tries-then :
    {x : Put} {r : Stored} (put : InsertStats → Table → Put) {more : InsertStats → Table → Stored}
    → Tries x r
    → ((s : InsertStats) (t : Table) → Tries (put s t) (more s t))
    → Tries (put x.0 x.1) (and_then r more)
Tries-then {x} put succeeds h = h x.0 x.1
Tries-then put breaks h = breaks

-- The same of a transaction, which leaves the table as it was if it fails.
data Transacts (start : Table) (done : Put) : Stored → Type 0 where
  commits_all : Transacts start done (good done)
  rolls_back : {e : SqlError} → Transacts start done (err e, start)

plus_zero : (n : ℕ) → 0 + n ≡ n
plus_zero n = omega arith

plus_suc : (m n : ℕ) → suc m + n ≡ suc (m + n)
plus_suc m n = omega arith

no_chunks : (size : ℕ) → 0 * size ≡ 0
no_chunks size = omega arith

next_chunk : (k size : ℕ) → suc k * size ≡ size + k * size
next_chunk k size = omega arith

module _ {A : Type 0} where
  take_nil : (n : ℕ) → ◌≡◌ {A = List A} (take n []) []
  take_nil zero = refl
  take_nil (suc n) = refl

  take_add : (m n : ℕ) (xs : List A) → take (m + n) xs ≡ take m xs ++ take n (drop m xs)
  take_add zero n xs = ap (λ k. take k xs) (plus_zero n)
  take_add (suc m) n [] = ap (λ k. take k []) (plus_suc m n) ∙ sym (take_nil n)
  take_add (suc m) n (x ∷ xs) =
      ap (λ k. take k (x ∷ xs)) (plus_suc m n) ∙ ap (λ ys. x ∷ ys) (take_add m n xs)

  below-drop : (m n : ℕ) (xs : List A) → n < length (drop m xs) → m + n < length xs
  below-drop zero n xs h = omega (arith, h)
  below-drop (suc m) n [] h = absurd (omega arith)
  below-drop (suc m) n (x ∷ xs) h = omega (arith, below-drop m n xs h)

module _ (hash : Bytes → Bytes) (to_json : Fields → Bytes) where
  -- How a batch ends: all its entries are stored one after another, with their counts; or some of its first
  -- chunks are, at least one entry is left, and nothing else has changed.
  pub data IsCommitted (size : ℕ) (es : List LogEntry) (s : InsertStats) (t : Table)
      : Stored → Type 0 where
    whole_batch : IsCommitted size es s t (good (put_all hash to_json es s t))
    whole_chunks :
        {e : SqlError} (k : ℕ)
        → k * size < length es
        → IsCommitted size es s t (err e, (put_all hash to_json (take (k * size) es) s t).1)

  -- A chunk that is committed goes in front of what comes after it.
  first_chunk :
      (size : ℕ) (es : List LogEntry) (s : InsertStats) (t : Table) {r : Stored}
      → let (s', t') = put_all hash to_json (take size es) s t in
        IsCommitted size (drop size es) s' t' r → IsCommitted size es s t r
  first_chunk size es s t whole_batch =
      subst (λ x. IsCommitted size es s t (good x))
        (ap (λ xs. put_all hash to_json xs s t) (sym (take-append-drop size es))
          ∙ put_all-append hash to_json (take size es) (drop size es) s t)
        whole_batch
  first_chunk size es s t (whole_chunks {e} k h) =
      subst (λ x. IsCommitted size es s t (err e, x.1))
        (ap (λ n. put_all hash to_json (take n es) s t) (next_chunk k size)
          ∙ ap (λ xs. put_all hash to_json xs s t) (take_add size (k * size) es)
          ∙ put_all-append hash to_json (take size es) (take (k * size) (drop size es)) s t)
        (whole_chunks (suc k) (omega (arith, next_chunk k size, below-drop size (k * size) es h)))

  chunk_then :
      (size : ℕ) (e : LogEntry) (es : List LogEntry) (s : InsertStats) (t : Table) {r : Stored}
      {more : InsertStats → Table → Stored}
      → Transacts t (put_all hash to_json (take (suc size) (e ∷ es)) no_stats t) r
      → ((s' : InsertStats) (t' : Table) → IsCommitted (suc size) (drop size es) s' t' (more s' t'))
      → IsCommitted (suc size) (e ∷ es) s t (and_then r λ stats t'. more (extend s stats) t')
  unfolding put_all
  chunk_then size e es s t {more} commits_all k =
      let first = take (suc size) (e ∷ es) in
      let (stats, t') = put_all hash to_json first no_stats t in
      first_chunk (suc size) (e ∷ es) s t (
        subst (λ x. IsCommitted (suc size) (drop size es) x.0 x.1 (more (extend s stats) t'))
          (sym (put_all-add hash to_json first s t)) (k (extend s stats) t'))
  chunk_then size e es s t (rolls_back {e = problem}) k =
      subst (λ x. IsCommitted (suc size) (e ∷ es) s t (err problem, x))
        (ap (λ n. (put_all hash to_json (take n (e ∷ es)) s t).1) (no_chunks (suc size)))
        (whole_chunks 0 (omega (arith, no_chunks (suc size))))

  module _ (sqlite : Sqlite) where
    insert_timed-Tries :
        (o : Option Bytes) (e : LogEntry) (s : InsertStats) (t : Table)
        → Tries (put_one hash to_json o e s t) (insert_timed hash to_json sqlite o e s t)
    unfolding insert_timed put_one
    insert_timed-Tries none e s t = succeeds
    insert_timed-Tries (some ts) e s t =
        elim (Bool-cases (sqlite.accepts (row_of hash to_json ts e) t)) [
          | inl accepted ↦ rw accepted succeeds
          | inr failure ↦ rw failure breaks
        ]

    insert_entries-Tries :
        (es : List LogEntry) (s : InsertStats) (t : Table)
        → Tries (put_all hash to_json es s t) (insert_entries hash to_json sqlite es s t)
    unfolding insert_entries insert_entry put_all
    insert_entries-Tries [] s t = succeeds
    insert_entries-Tries (e ∷ es) s t =
        Tries-then (put_all hash to_json es) (insert_timed-Tries e.timestamp e s t)
          (insert_entries-Tries es)

    commit-Transacts :
        (start : Table) {done : Put} {r : Stored}
        → Tries done r
        → Transacts start done (commit hash to_json sqlite start r)
    unfolding commit
    commit-Transacts start {done} succeeds = elim (Bool-cases (sqlite.commits done.1)) [
      | inl committed ↦ rw committed commits_all
      | inr failure ↦ rw failure rolls_back
    ]
    commit-Transacts start breaks = rolls_back

    insert_one_chunk-Transacts :
        (es : List LogEntry) (t : Table)
        → Transacts t
            (put_all hash to_json es no_stats t)
            (insert_one_chunk hash to_json sqlite es t)
    unfolding insert_one_chunk
    insert_one_chunk-Transacts es t = elim (Bool-cases (sqlite.begins t)) [
      | inl begun ↦ rw begun (commit-Transacts t (insert_entries-Tries es no_stats t))
      | inr failure ↦ rw failure rolls_back
    ]

    insert_chunks-IsCommitted :
        (fuel size : ℕ) (es : List LogEntry) (s : InsertStats) (t : Table)
        → length es ≤ fuel
        → IsCommitted
            (suc size)
            es
            s
            t
            (insert_chunks hash to_json sqlite (chunks_on fuel (suc size) es) s t)
    unfolding insert_chunks chunks_on put_all
    insert_chunks-IsCommitted zero size [] s t h = whole_batch
    insert_chunks-IsCommitted zero size (_ ∷ _) s t h = absurd (omega arith)
    insert_chunks-IsCommitted (suc fuel) size [] s t h = whole_batch
    insert_chunks-IsCommitted (suc fuel) size (e ∷ es) s t h =
        chunk_then size e es s t (insert_one_chunk-Transacts (take (suc size) (e ∷ es)) t) λ s' t'.
          insert_chunks-IsCommitted fuel size (drop size es) s' t'
            (omega (arith, length-drop size es))

    -- Whichever statements fail, `insert_batch` returns its counts or an error: if it returns counts,
    -- all its entries are stored one after another and the counts are theirs; after an error the table
    -- is what it becomes by storing the entries of some first chunks of 1000, at least one entry being
    -- left over, so that nothing of a chunk that failed or came later is in it.
    pub insert_batch-IsCommitted :
        (entries : List LogEntry) (t : Table)
        → IsCommitted batch_size entries no_stats t (insert_batch hash to_json sqlite entries t)
    unfolding insert_batch chunks
    insert_batch-IsCommitted entries t =
        insert_chunks-IsCommitted (length entries) 999 entries no_stats t (omega arith)
