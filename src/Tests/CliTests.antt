-- ===== src/Tests/CliTests.antt =====
-- `prune` of crates/cli/src/prune_cmd.rs with a clock that counts seconds.
use logdive.Prelude.{Bool, String, [], false, none, refl, some, true, ℕ, ◌↔◌, ◌∷◌, ◌≡◌}
use logdive.Cli.Cutoff.{PruneArgs, bad_duration, resolve_before, resolve_cutoff, resolve_older_than}
use logdive.Indexer.Table.{Table, before}
use logdive.Tests.ExecutorTests.{clock, unary}
use logdive.Bytes.{codes, equals}
use logdive.Prelude.Result.{err, ok}
use logdive.Executor.Translate.{parse_datetime}
use logdive.Bytes.Number.{parse_u64}
use logdive.Indexer.Prune.{prune}
use logdive.Tests.IndexerTests.{row_at}
use logdive.Bytes.White.{trim}
use logdive.Cli.Agree.{
  IsLastCutoff, resolve_before-iff-parse_datetime, resolve_older_than-IsLastCutoff,
}
use logdive.Cli.Outcome.{
  IsPruning, IsRefused, IsYes, long_yes, run_prune-IsPruning, run_prune-no, short_yes,
}
use mathlib.Core.Path.{subst}
use logdive.Api.Alike.{some_eq}
use logdive.Bytes.{eq_ignore_ascii_case}
use logdive.Cli.Prune.{World, is_consent, pruned, run_prune}

resolve_minute : resolve_older_than clock (codes " 1m ") 65 ≡ ok 5
unfolding resolve_older_than parse_u64 equals
resolve_minute = refl

resolve_older_than-IsLastCutoff_example : IsLastCutoff clock (codes " 1m ") 65 5
resolve_older_than-IsLastCutoff_example =
    resolve_older_than-IsLastCutoff clock (codes " 1m ") 65 5 resolve_minute

resolve_unit_only : resolve_older_than clock (codes "d") 65 ≡ err (bad_duration (codes "d"))
unfolding resolve_older_than parse_u64 equals
resolve_unit_only = refl

resolve_before-iff-parse_datetime_example :
    (resolve_before clock (codes "Z ") ≡ ok 0) ↔ (parse_datetime clock (trim (codes "Z ")) ≡ ok 0)
resolve_before-iff-parse_datetime_example = resolve_before-iff-parse_datetime clock (codes "Z ") 0

abbrev minute_args : Bool → PruneArgs
minute_args is_yes = record { older_than = some (codes "1m"); before_time = none; is_yes = is_yes }

abbrev at_terminal : String → World
at_terminal line = record {
  exists = true;
  opens = true;
  counts = true;
  answer = some (codes line);
  deletes = true;
  vacuums = true;
}

abbrev log_rows : Table
log_rows = row_at "111" ∷ row_at "1111111" ∷ []

not-IsYes : ¬ IsYes (codes "nope")
unfolding eq_ignore_ascii_case trim equals
not-IsYes (short_yes h) = cc h
not-IsYes (long_yes h) = cc h

refuse : IsRefused (some (codes "nope"))
refuse line h = subst (λ l. ¬ IsYes l) (some_eq h) not-IsYes

agree : is_consent (codes " YES") ≡ true
unfolding is_consent equals
agree = refl

run_prune-no_example :
    (run_prune clock (minute_args false) 65 (at_terminal "nope") log_rows).1 ≡ log_rows
run_prune-no_example =
    run_prune-no clock (minute_args false) 65 (at_terminal "nope") log_rows refl refuse

run_prune_yes : (run_prune clock (minute_args true) 65 (at_terminal "") log_rows).0 ≡ ok (pruned 1)
unfolding run_prune prune before resolve_cutoff parse_u64 equals
run_prune_yes = refl

run_prune-IsPruning_example :
    (c : ℕ) × (resolve_cutoff clock (minute_args true) 65 ≡ ok c)
    × IsPruning
        (unary c)
        log_rows
        1
        (run_prune clock (minute_args true) 65 (at_terminal "") log_rows).1
run_prune-IsPruning_example =
    run_prune-IsPruning clock (minute_args true) 65 (at_terminal "") log_rows 1 run_prune_yes
