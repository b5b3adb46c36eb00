-- ===== src/Cli/Delivery.antt =====
-- The watch loop of crates/cli/src/main.rs over a file that only grows.
use logdive.Prelude.{
  ◌+◌, ◌++◌, List, Option, [], all, ap, arith, length, map, none, refl, sym, true, ◌∙◌, ◌∷◌, ◌≡◌,
  Bool, Bool-cases, false, inl, inr, not, some, ◌||◌,
}
use logdive.Follow.Tailer.{
  Answers, read_new_lines, OpenAnswer, open_tailer, opened, FileTailer, IoError,
}
use logdive.Follow.Chunks.{Delivers, follow, follow-Delivers}
use logdive.Cli.Ingest.{IngestArgs}
use logdive.Cli.Watched.{
  Ingests-nothing, Steps, Steps-then, calls_of, dark_count, dark_count-append, is_quiet,
}
use logdive.Indexer.Again.{IsReliable}
use logdive.Entry.{JsonValue, Fields}
use logdive.Cli.Watch.{
  LoopEnd, Round, Watched, Watching, disconnected, event, interrupted, on_event, on_timeout,
  timeout, waiting, watch_loop, watch_then, Setup, set_up, run_watch_loop, set_up_with, start,
  watch_from,
}
use logdive.Indexer.Batch.{Sqlite}
use logdive.Prelude.Result.{bind-ok, ok, ok_eq, err, out_of_fuel, Result}
use logdive.Follow.Lines.{split_lines}
use mathlib.Core.Path.{subst}
use logdive.Indexer.Counts.{total_of}
use logdive.Bytes.{Bytes}
use logdive.Indexer.Table.{Table}
use logdive.Cli.Rounds.{on_event-Steps, on_timeout-Steps}

-- The loop's variables before its first round.
record IsFresh (w : Watching) : Type 0 where
  no_leftover : w.tailer.leftover ≡ []
  no_batch : w.progress.batch ≡ []
  no_total : total_of w.progress.total ≡ 0
  none_inserted : w.progress.total.inserted ≡ 0
  no_malformed : w.progress.malformed ≡ 0

open_tailer-no_leftover :
    (o : OpenAnswer) (seeks : Bool) {t : FileTailer} → open_tailer o seeks ≡ ok t → t.leftover ≡ []
unfolding open_tailer
open_tailer-no_leftover (opened meta) true {t} h = subst (λ u. u.leftover ≡ []) (ok_eq h) refl
open_tailer-no_leftover (opened meta) false h = cc h
open_tailer-no_leftover _ seeks h = cc h

start-IsFresh :
    (t : FileTailer) (rows : Option Table) (w : Watching)
    → t.leftover ≡ []
    → start t rows ≡ ok w
    → IsFresh w
unfolding start
start-IsFresh t none w e h = cc h
start-IsFresh t (some rows) w e h = subst IsFresh (ok_eq h) (record {
  no_leftover = e;
  no_batch = refl;
  no_total = refl;
  none_inserted = refl;
  no_malformed = refl;
})

set_up_with-IsFresh :
    (s : Setup) (r : Result IoError FileTailer) (w : Watching)
    → ((t : FileTailer) → r ≡ ok t → t.leftover ≡ [])
    → set_up_with s r ≡ ok w
    → IsFresh w
unfolding set_up_with
set_up_with-IsFresh s (err _) w k h = cc h
set_up_with-IsFresh s out_of_fuel w k h = cc h
set_up_with-IsFresh s (ok t) w k h =
    elim (Bool-cases (not s.watcher_created || not s.watches || not s.handler_set)) [
      | inl failure ↦ cc (rw failure at h)
      | inr good ↦ start-IsFresh t s.index w (k t refl) (rw good at h)
    ]

set_up-IsFresh : (s : Setup) (w : Watching) → set_up s ≡ ok w → IsFresh w
unfolding set_up
set_up-IsFresh s w h =
    set_up_with-IsFresh s (open_tailer s.file_opens s.seeks) w
      (λ t. open_tailer-no_leftover s.file_opens s.seeks) h

-- Every line with text of these bytes is counted once, an entry that was inserted is a
-- row, and the bytes behind the last newline are kept.
pub record IsDelivered (from_utf8_lossy : Bytes → Bytes) (rows : Table) (bytes : Bytes)
    (w : Watching) : Type 0 where
  pub accounts :
      total_of w.progress.total + w.progress.malformed
      ≡ dark_count (map from_utf8_lossy (split_lines bytes).0)
  pub adds : length w.progress.table ≡ length rows + w.progress.total.inserted
  pub keeps_rest : w.tailer.leftover ≡ (split_lines bytes).1

-- The loop waits after that.
record Waits (from_utf8_lossy : Bytes → Bytes) (rows : Table) (bytes : Bytes) (r : Watched LoopEnd)
    : Type 0 where
  waits : r.0 ≡ ok waiting
  delivered : IsDelivered from_utf8_lossy rows bytes r.1

module _ (from_utf8_lossy : Bytes → Bytes) (from_str : Bytes → Option JsonValue)
    (hash : Bytes → Bytes) (to_json : Fields → Bytes) (sqlite : Sqlite) (args : IngestArgs)
    (reliable : IsReliable sqlite) where
  abbrev loop : List Round → Watching → Watched LoopEnd
  loop = watch_loop from_utf8_lossy from_str hash to_json sqlite args none

  -- A round that reads, with the rounds behind it.
  round-Steps :
      (a : Answers) (more : List Answers) (w : Watching) (r : Watched Unit) (rest : List Round)
      {lines : List Bytes}
      → ((found : List Bytes)
          → (read_new_lines from_utf8_lossy a w.tailer).0 ≡ ok found
          → Steps tt (read_new_lines from_utf8_lossy a w.tailer).1 (dark_count found) w.progress r)
      → ((w' : Watching) (found : List Bytes)
          → w'.progress.batch ≡ []
          → (follow from_utf8_lossy more w'.tailer).0 ≡ ok found
          → Steps waiting
              (follow from_utf8_lossy more w'.tailer).1
              (dark_count found)
              w'.progress
              (loop rest w'))
      → (follow from_utf8_lossy (a ∷ more) w.tailer).0 ≡ ok lines
      → Steps waiting
          (follow from_utf8_lossy (a ∷ more) w.tailer).1
          (dark_count lines)
          w.progress
          (watch_then r (λ _ w'. loop rest w'))
  unfolding follow
  round-Steps a more w r rest {lines} one later h =
      let t = (read_new_lines from_utf8_lossy a w.tailer).1 in
      let (found, e, h') = bind-ok (read_new_lines from_utf8_lossy a w.tailer).0 h in
      let (found', e', whole) = bind-ok (follow from_utf8_lossy more t).0 h' in
      let counted : dark_count found + dark_count found' ≡ dark_count lines =
        sym (dark_count-append found found') ∙ ap dark_count (ok_eq whole) in
      subst
        (λ n.
          Steps waiting (follow from_utf8_lossy more t).1 n w.progress
            (watch_then r (λ _ w'. loop rest w')))
        counted
        (Steps-then (dark_count found) (dark_count found') w.progress r (loop rest) (one found e)
          λ w' same empty.
            subst
              (λ u.
                (follow from_utf8_lossy more u).0 ≡ ok found'
                → Steps waiting (follow from_utf8_lossy more u).1 (dark_count found') w'.progress
                    (loop rest w'))
              same (later w' found' empty) e')

  watch_loop-Steps :
      (rounds : List Round) (w : Watching) (lines : List Bytes)
      → all is_quiet rounds ≡ true
      → w.progress.batch ≡ []
      → (follow from_utf8_lossy (calls_of rounds) w.tailer).0 ≡ ok lines
      → Steps waiting
          (follow from_utf8_lossy (calls_of rounds) w.tailer).1
          (dark_count lines)
          w.progress
          (loop rounds w)
  unfolding watch_loop follow dark_count
  watch_loop-Steps [] w lines q b h =
      subst (λ found. Steps waiting w.tailer (dark_count found) w.progress (loop [] w)) (ok_eq h)
        (record { is_ok = refl; tailer_is = refl; ingests = Ingests-nothing w.progress b })
  watch_loop-Steps (interrupted ∷ more) w lines q b h = cc q
  watch_loop-Steps (disconnected ∷ more) w lines q b h = cc q
  watch_loop-Steps (event a times ∷ more) w lines q b h =
      round-Steps a (calls_of more) w
        (on_event from_utf8_lossy from_str hash to_json sqlite args a times w) more
        (λ found e.
          on_event-Steps from_utf8_lossy from_str hash to_json sqlite args reliable a times w b e)
        (λ w' found b' e. watch_loop-Steps more w' found q b' e) h
  watch_loop-Steps (timeout a times ∷ more) w lines q b h =
      round-Steps a (calls_of more) w
        (on_timeout from_utf8_lossy from_str hash to_json sqlite args a times w) more
        (λ found e.
          on_timeout-Steps from_utf8_lossy from_str hash to_json sqlite args reliable a times w b e)
        (λ w' found b' e. watch_loop-Steps more w' found q b' e) h

  watch_loop-Delivers :
      (rounds : List Round) (w : Watching) (bytes : Bytes)
      → all is_quiet rounds ≡ true
      → IsFresh w
      → Delivers from_utf8_lossy (calls_of rounds) w.tailer bytes
      → Waits from_utf8_lossy w.progress.table bytes (loop rounds w)
  watch_loop-Delivers rounds w bytes q f d =
      let (found, left, _) =
        follow-Delivers from_utf8_lossy (calls_of rounds) w.tailer bytes (rw f.no_leftover refl)
          d in
      let whole : w.tailer.leftover ++ bytes ≡ bytes = ap (λ l. l ++ bytes) f.no_leftover in
      let s =
        watch_loop-Steps rounds w _ q f.no_batch
          (found ∙ ap (λ text. ok (map from_utf8_lossy (split_lines text).0)) whole) in
      record {
        waits = s.is_ok;
        delivered = record {
          accounts = omega (
            arith,
            s.ingests.accounts.counts,
            ap length s.ingests.no_batch,
            ap length f.no_batch,
            f.no_total,
            f.no_malformed,
          );
          adds = omega (arith, s.ingests.accounts.adds, f.none_inserted);
          keeps_rest =
              ap (λ (t : FileTailer). t.leftover) s.tailer_is
              ∙ left
              ∙ ap (λ text. (split_lines text).1) whole;
        };
      }

  -- On a database in which no statement fails, and over rounds that are events or timeouts, without
  -- `--max-events`: if the set-up succeeds, while the path names the open file, the file gets no
  -- shorter and no read fails, the loop goes on waiting, and however the appended bytes are cut up,
  -- the counts of inserted, deduplicated and skipped entries and of malformed lines add up to the
  -- number of their complete lines that are not blank, the table has grown by the inserted ones, and
  -- the tailer keeps the bytes behind the last newline.
  pub run_watch_loop-Delivers :
      (s : Setup) (rounds : List Round) (w : Watching) (bytes : Bytes)
      → set_up s ≡ ok w
      → all is_quiet rounds ≡ true
      → Delivers from_utf8_lossy (calls_of rounds) w.tailer bytes
      → (w' : Watching) × (run_watch_loop from_utf8_lossy from_str hash to_json sqlite args s none
            rounds
          ≡ (ok waiting, some w'))
        × IsDelivered from_utf8_lossy w.progress.table bytes w'
  unfolding run_watch_loop watch_from
  run_watch_loop-Delivers s rounds w bytes h q d =
      let l = watch_loop-Delivers rounds w bytes q (set_up-IsFresh s w h) d in
      let w' = (loop rounds w).1 in
      (
        w',
        ap (watch_from from_utf8_lossy from_str hash to_json sqlite args none rounds) h
            ∙ ap (λ end. (end, some w')) l.waits,
        l.delivered,
      )
