-- ===== src/Cli/Agree.antt =====
-- The cutoffs of `prune` (crates/cli/src/prune_cmd.rs) and those of queries (crates/core/src/executor.rs).

use logdive.Prelude.{◌++◌, none, some, ℕ, ◌≡◌, Option, ap, refl, ◌∙◌, ◌↔◌}
use logdive.Bytes.{Bytes}
use logdive.Cli.Cutoff.{
  CutoffError, or_err, split_last, duration_seconds, before_now, cutoff_panic, resolve_older_than,
  resolve_before, resolve_trimmed,
}
use logdive.Query.Ast.{Duration}
use logdive.Bytes.Number.{parse_u64}
use logdive.Prelude.Result.{ok, bind-ok, err, Result, ok_eq}
use logdive.Executor.Sql.{cutoff_seconds}
use logdive.Executor.Chrono.{Chrono}
use logdive.Executor.Translate.{compute_last_cutoff, parse_datetime}
use logdive.Bytes.White.{trim}
use logdive.Executor.Failure.{Failure}
use logdive.Cli.Duration.{duration_seconds-IsDuration, or_err-ok, split_last-append, unit_text}

-- The cutoff `t` of a query with `last`, for the duration that `spec` writes.
pub record IsLastCutoff (chrono : Chrono) (spec : Bytes) (now t : chrono.DateTime) : Type 0 where
  pub duration : Duration
  pub number_text : Bytes
  pub spec_is : trim spec ≡ number_text ++ unit_text duration.unit
  pub number_is : parse_u64 number_text ≡ some duration.amount
  pub cutoff_is : compute_last_cutoff chrono duration now ≡ ok t

module _ (chrono : Chrono) where
  open chrono use {DateTime, seconds as delta_seconds, checked_sub_signed}

  last_cutoff :
      (d : Duration) (now t : DateTime) (secs : ℕ) (delta : chrono.Delta)
      → cutoff_seconds d ≡ secs
      → delta_seconds secs ≡ some delta
      → checked_sub_signed now delta ≡ some t
      → compute_last_cutoff chrono d now ≡ ok t
  unfolding compute_last_cutoff
  last_cutoff d now t secs delta e e' e'' = rw (compute_last_cutoff, e, e') (rw e'' refl)

  before_now-IsLastCutoff :
      (spec : Bytes) (now t : DateTime) (o : Option (Bytes × Bytes))
      → split_last (trim spec) ≡ o
      → before_now chrono (trim spec) now o ≡ ok t
      → IsLastCutoff chrono spec now t
  unfolding before_now
  before_now-IsLastCutoff spec now t none e h = cc h
  before_now-IsLastCutoff spec now t (some (num, unit)) e h =
      let (secs, counted, h1) = bind-ok (duration_seconds (trim spec) num unit) h in
      let (delta, fits, h2) = bind-ok (or_err cutoff_panic (delta_seconds secs)) h1 in
      let d = duration_seconds-IsDuration (trim spec) num unit secs counted in
      record {
        duration = d.duration;
        number_text = num;
        spec_is = split_last-append (trim spec) num unit e ∙ ap (λ u. num ++ u) d.unit_is;
        number_is = d.amount_is;
        cutoff_is =
            last_cutoff d.duration now t secs delta d.seconds_are (or_err-ok _ _ delta fits)
              (or_err-ok _ _ t h2);
      }

  -- A cutoff from `--older-than` is the cutoff that a query's `last` has for the duration which the
  -- trimmed text writes, a number and its unit.
  pub resolve_older_than-IsLastCutoff :
      (spec : Bytes) (now t : DateTime)
      → resolve_older_than chrono spec now ≡ ok t
      → IsLastCutoff chrono spec now t
  unfolding resolve_older_than
  resolve_older_than-IsLastCutoff spec now t h =
      before_now-IsLastCutoff spec now t (split_last (trim spec)) refl h

  parsed_alike :
      (e : CutoffError) (f : Failure) (o : Option DateTime) (t : DateTime)
      → (or_err e o ≡ ok t)
        ↔ (◌≡◌ {A = Result Failure DateTime} (elim o [ none ↦ err f | some dt ↦ ok dt ]) (ok t))
  parsed_alike e f none t = (λ h. cc h, λ h. cc h)
  parsed_alike e f (some dt) t = (λ h. ap ok (ok_eq h), λ h. ap ok (same h))
    where
      same : ◌≡◌ {A = Result Failure DateTime} (ok dt) (ok t) → dt ≡ t
      same h = cc

  -- `--before` accepts a text with a cutoff exactly when a query's `since` accepts the trimmed text
  -- with the same time.
  pub resolve_before-iff-parse_datetime :
      (spec : Bytes) (t : DateTime)
      → (resolve_before chrono spec ≡ ok t) ↔ (parse_datetime chrono (trim spec) ≡ ok t)
  unfolding resolve_before resolve_trimmed parse_datetime
  resolve_before-iff-parse_datetime spec t = parsed_alike _ _ _ t
