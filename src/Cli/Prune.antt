-- ===== src/Cli/Prune.antt =====
-- `run_prune` of crates/cli/src/prune_cmd.rs. What the file system, the database and the terminal answer
-- is in `World`. A panic while the cutoff is resolved ends the run as an error does.
use logdive.Prelude.{
  ◌+◌, ◌==◌, Bool, Option, [], false, if◌then◌else◌, none, not, some, true, ◌||◌, ℕ, ◌∷◌,
}
use logdive.Bytes.{Bytes, codes, equals, to_ascii_lowercase}
use logdive.Executor.Chrono.{Chrono}
use logdive.Cli.Cutoff.{CutoffError, CutoffResult, PruneArgs, resolve_cutoff}
use logdive.Indexer.Prune.{PruneStats, prune}
use logdive.Prelude.Result.{Result, err, ok, out_of_fuel}
use logdive.Indexer.Batch.{SqlError}
use logdive.Indexer.Table.{Table, before}
use logdive.Bytes.White.{trim}

pub record World : Type 0 where
  pub exists : Bool
  pub opens : Bool
  pub counts : Bool
  pub answer : Option Bytes
  pub deletes : Bool
  pub vacuums : Bool

pub data PruneReport : Type 0 where
  nothing_to_prune aborted : PruneReport
  pruned : ℕ → PruneReport

pub data PruneFailure : Type 0 where
  no_index database_failed terminal_failed : PruneFailure
  bad_cutoff : CutoffError → PruneFailure

abbrev pub Ran : Type 0
Ran = Result PruneFailure PruneReport × Table

-- `SELECT COUNT(*) … WHERE timestamp < ?1`
unfoldable pub count_before : Bytes → Table → ℕ
count_before cutoff [] = 0
count_before cutoff (r ∷ rs) =
    let more = count_before cutoff rs in if before r.timestamp cutoff then more + 1 else more

-- The answer that `confirm` takes for a yes.
unfoldable pub is_consent : Bytes → Bool
unfolding trim
is_consent line =
    let answer = to_ascii_lowercase (trim line) in
    equals answer (codes "y") || equals answer (codes "yes")

unfoldable pub confirm : Option Bytes → Result PruneFailure Bool
unfolding is_consent
confirm none = err terminal_failed
confirm (some line) = ok (is_consent line)

-- The report on a call of `Indexer::prune`.
unfoldable pub report : Result SqlError PruneStats × Table → Ran
report (ok s, t) = (ok (pruned s.deleted), t)
report (err e, t) = (err database_failed, t)
report (out_of_fuel, t) = (out_of_fuel, t)

unfoldable pub after_consent : Bytes → World → Table → Result PruneFailure Bool → Ran
unfolding report
after_consent cutoff w t (ok true) = report (prune cutoff w.deletes w.vacuums t)
after_consent cutoff w t (ok false) = (ok aborted, t)
after_consent cutoff w t (err e) = (err e, t)
after_consent cutoff w t out_of_fuel = (out_of_fuel, t)

-- From the cutoff's text on.
unfoldable pub prune_at : Bool → Bytes → World → Table → Ran
unfolding after_consent confirm count_before
prune_at is_yes cutoff w t =
    if not w.opens || not w.counts
    then (err database_failed, t)
    else if count_before cutoff t == 0
    then (ok nothing_to_prune, t)
    else after_consent cutoff w t (if is_yes then ok true else confirm w.answer)

module _ (chrono : Chrono) where
  unfoldable pub prune_from : Bool → World → Table → CutoffResult chrono.DateTime → Ran
  unfolding prune_at
  prune_from is_yes w t (ok c) = prune_at is_yes (chrono.to_rfc3339 c) w t
  prune_from is_yes w t (err e) = (err (bad_cutoff e), t)
  prune_from is_yes w t out_of_fuel = (out_of_fuel, t)

  unfoldable pub run_prune : PruneArgs → chrono.DateTime → World → Table → Ran
  unfolding prune_from
  run_prune args now w t =
      if not w.exists
      then (err no_index, t)
      else prune_from args.is_yes w t (resolve_cutoff chrono args now)
