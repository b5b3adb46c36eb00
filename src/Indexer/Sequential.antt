-- ===== src/Indexer/Sequential.antt =====
-- What `insert_batch` of crates/core/src/indexer.rs comes to on a database in which no statement fails: the
-- entries go in one after another, and neither chunks nor transactions show.
use logdive.Prelude.{
  ℕ, ◌+◌, ◌++◌, ◌==◌, Bool-cases, List, Option, [], ap, arith, inl, inr, none, refl, some, ◌∙◌, ◌∷◌,
  ◌≡◌, ℕ, sym,
}
use logdive.Bytes.{Bytes}
use logdive.Entry.{Fields, LogEntry}
use logdive.Indexer.Batch.{
  InsertStats, Sqlite, Stored, and_then, commit, count_changes, extend, insert_batch, insert_chunks,
  insert_entries, insert_entry, insert_one_chunk, insert_timed, no_stats, row_of, skip,
}
use logdive.Indexer.Again.{IsReliable}
use logdive.Indexer.Table.{Table, insert_or_ignore}
use mathlib.Core.Path.{ap₂}
use logdive.Indexer.Chunks.{batch_size, chunks, concat, concat-chunks}
use logdive.Prelude.Result.{ok}

-- What has gone in, with the counts so far.
abbrev pub Put : Type 0
Put = InsertStats × Table

abbrev pub good : Put → Stored
good x = (ok x.0, x.1)

abbrev add_stats : InsertStats → Put → Put
add_stats s x = (extend s x.0, x.1)

extend_assoc : (a b c : InsertStats) → extend (extend a b) c ≡ extend a (extend b c)
unfolding extend
extend_assoc a b c =
    ap₂
      (λ (xy : ℕ × ℕ) z. record { inserted = xy.0; deduplicated = xy.1; skipped_no_timestamp = z })
      (ap₂ (λ x y. (x, y)) (omega arith) (omega arith)) (omega arith)

skip-extend : (s : InsertStats) → skip s ≡ extend s (skip no_stats)
unfolding extend
skip-extend s =
    ap₂
      (λ x y. record s {
        inserted = x;
        deduplicated = y;
        skipped_no_timestamp = s.skipped_no_timestamp + 1;
      })
      (omega arith) (omega arith)

count_changes-extend :
    (n : ℕ) (s : InsertStats) → count_changes n s ≡ extend s (count_changes n no_stats)
unfolding extend count_changes
count_changes-extend n s = elim (Bool-cases (n == 0)) [
  | inl none_changed ↦ rw none_changed (
      ap₂
        (λ x y. record {
          inserted = x;
          deduplicated = s.deduplicated + 1;
          skipped_no_timestamp = y;
        })
        (omega arith) (omega arith))
  | inr changed ↦ rw changed (
      ap₂ (λ x y. record { inserted = s.inserted + 1; deduplicated = x; skipped_no_timestamp = y })
        (omega arith) (omega arith))
]

module _ (hash : Bytes → Bytes) (to_json : Fields → Bytes) where
  unfoldable pub put_one : Option Bytes → LogEntry → InsertStats → Table → Put
  put_one none e s t = (skip s, t)
  put_one (some ts) e s t =
      let (changes, t') = insert_or_ignore (row_of hash to_json ts e) t in
      (count_changes changes s, t')

  unfoldable pub put_all : List LogEntry → InsertStats → Table → Put
  unfolding put_one
  put_all [] s t = (s, t)
  put_all (e ∷ es) s t = let (s', t') = put_one e.timestamp e s t in put_all es s' t'

  put_one-add :
      (o : Option Bytes) (e : LogEntry) (s : InsertStats) (t : Table)
      → put_one o e s t ≡ add_stats s (put_one o e no_stats t)
  unfolding put_one
  put_one-add none e s t = ap (λ x. (x, t)) (skip-extend s)
  put_one-add (some ts) e s t =
      let (changes, t') = insert_or_ignore (row_of hash to_json ts e) t in
      ap (λ x. (x, t')) (count_changes-extend changes s)

  -- The counts only add up.
  pub put_all-add :
      (es : List LogEntry) (s : InsertStats) (t : Table)
      → let (more, t') = put_all es no_stats t in put_all es s t ≡ (extend s more, t')
  unfolding put_all extend
  put_all-add [] s t =
      ap₂
        (λ (xy : ℕ × ℕ) z.
          (record { inserted = xy.0; deduplicated = xy.1; skipped_no_timestamp = z }, t))
        (ap₂ (λ x y. (x, y)) (omega arith) (omega arith)) (omega arith)
  put_all-add (e ∷ es) s t =
      let x = put_one e.timestamp e no_stats t in
      let more = put_all es no_stats x.1 in
      ap (λ (y : Put). put_all es y.0 y.1) (put_one-add e.timestamp e s t)
      ∙ put_all-add es (extend s x.0) x.1
      ∙ ap (λ z. (z, more.1)) (extend_assoc s x.0 more.0)
      ∙ sym (ap (add_stats s) (put_all-add es x.0 x.1))

  pub put_all-append :
      (es fs : List LogEntry) (s : InsertStats) (t : Table)
      → let (s', t') = put_all es s t in put_all (es ++ fs) s t ≡ put_all fs s' t'
  unfolding put_all
  put_all-append [] fs s t = refl
  put_all-append (e ∷ es) fs s t =
      let (s', t') = put_one e.timestamp e s t in put_all-append es fs s' t'

  module _ (sqlite : Sqlite) (reliable : IsReliable sqlite) where
    insert_timed-good :
        (o : Option Bytes) (e : LogEntry) (s : InsertStats) (t : Table)
        → insert_timed hash to_json sqlite o e s t ≡ good (put_one o e s t)
    unfolding insert_timed put_one
    insert_timed-good none e s t = refl
    insert_timed-good (some ts) e s t =
        rw (reliable.accepts_always (row_of hash to_json ts e) t) refl

    insert_entries-good :
        (es : List LogEntry) (s : InsertStats) (t : Table)
        → insert_entries hash to_json sqlite es s t ≡ good (put_all es s t)
    unfolding insert_entries insert_entry put_all
    insert_entries-good [] s t = refl
    insert_entries-good (e ∷ es) s t =
        let (s', t') = put_one e.timestamp e s t in
        ap (λ r. and_then r (insert_entries hash to_json sqlite es))
          (insert_timed-good e.timestamp e s t)
        ∙ insert_entries-good es s' t'

    commit-good : (start : Table) (x : Put) → commit hash to_json sqlite start (good x) ≡ good x
    unfolding commit
    commit-good start (s, t) = rw (reliable.commits_always t) refl

    insert_one_chunk-good :
        (es : List LogEntry) (t : Table)
        → insert_one_chunk hash to_json sqlite es t ≡ good (put_all es no_stats t)
    unfolding insert_one_chunk
    insert_one_chunk-good es t = rw (reliable.begins_always t) (
        ap (commit hash to_json sqlite t) (insert_entries-good es no_stats t)
        ∙ commit-good t (put_all es no_stats t))

    insert_chunks-good :
        (ess : List (List LogEntry)) (s : InsertStats) (t : Table)
        → insert_chunks hash to_json sqlite ess s t ≡ good (put_all (concat ess) s t)
    unfolding insert_chunks put_all
    insert_chunks-good [] s t = refl
    insert_chunks-good (es ∷ ess) s t =
        let x = put_all es no_stats t in
        ap (λ r. and_then r λ stats t'. insert_chunks hash to_json sqlite ess (extend s stats) t')
          (insert_one_chunk-good es t)
        ∙ insert_chunks-good ess (extend s x.0) x.1
        ∙ ap (λ (y : Put). good (put_all (concat ess) y.0 y.1)) (sym (put_all-add es s t))
        ∙ ap good (sym (put_all-append es (concat ess) s t))

    pub insert_batch-good :
        (es : List LogEntry) (t : Table)
        → insert_batch hash to_json sqlite es t ≡ good (put_all es no_stats t)
    unfolding insert_batch
    insert_batch-good es t =
        insert_chunks-good (chunks batch_size es) no_stats t
        ∙ ap (λ xs. good (put_all xs no_stats t)) (concat-chunks batch_size es (omega arith))
