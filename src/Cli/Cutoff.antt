-- ===== src/Cli/Cutoff.antt =====
-- The cutoff of `prune`, crates/cli/src/prune_cmd.rs. `panic` is that of `chrono::Duration::seconds`.
use logdive.Prelude.{
  ◌&&◌, ◌*◌, Bool, Option, [], all, first_of, if◌then◌else◌, leb, ltb, map_option, none, some, ℕ,
  ◌∷◌,
}
use logdive.Executor.Chrono.{Chrono}
use logdive.Prelude.Result.{Result, err, ok, ◌>>=◌}
use logdive.Bytes.{codes, equals, Bytes}
use logdive.Bytes.Number.{i64_max, parse_u64}
use logdive.Bytes.White.{trim}

-- The messages, with the text that they quote.
pub data CutoffError : Type 0 where
  empty_duration : CutoffError
  bad_duration too_large bad_datetime : Bytes → CutoffError
  exclusive required : CutoffError
  cutoff_panic : CutoffError

pub record PruneArgs : Type 0 where
  pub older_than : Option Bytes
  pub before_time : Option Bytes
  pub is_yes : Bool

-- A byte inside a UTF-8 character, not its first.
pub is_continuation : ℕ → Bool
is_continuation b = leb 0x80 b && ltb b 0xC0

abbrev pub in_front : ℕ → Option (Bytes × Bytes) → Option (Bytes × Bytes)
in_front c none = none
in_front c (some (num, unit)) = some (c ∷ num, unit)

-- The text in front of its last character, and that character.
unfoldable pub split_last : Bytes → Option (Bytes × Bytes)
unfolding is_continuation
split_last [] = none
split_last (c ∷ s) =
    let rest = in_front c (split_last s) in if all is_continuation s then some ([], c ∷ s) else rest

-- The seconds of a unit, by its character.
unfoldable pub unit_seconds : Bytes → Option ℕ
unit_seconds unit =
    if equals unit (codes "m")
    then some 60
    else if equals unit (codes "h")
    then some (60 * 60)
    else if equals unit (codes "d")
    then some (24 * 60 * 60)
    else none

-- `i64::checked_mul` of numbers that are not negative.
unfoldable pub checked_mul : ℕ → ℕ → Option ℕ
checked_mul a b = if leb (a * b) i64_max then some (a * b) else none

abbrev pub CutoffResult : Type 0 → Type 0
CutoffResult = Result CutoffError

abbrev pub or_err : {A : Type 0} → CutoffError → Option A → CutoffResult A
or_err e none = err e
or_err e (some a) = ok a

-- The seconds of a duration with this number and unit.
unfoldable pub duration_seconds : Bytes → Bytes → Bytes → CutoffResult ℕ
unfolding unit_seconds checked_mul
duration_seconds spec num unit = do
  amount ← or_err (bad_duration spec) (parse_u64 num)
  small ← if leb amount i64_max then ok amount else err (too_large spec)
  factor ← or_err (bad_duration spec) (unit_seconds unit)
  or_err (too_large spec) (checked_mul small factor)

module _ (chrono : Chrono) where
  open chrono use {
    DateTime, parse_from_rfc3339, parse_naive_datetime, parse_naive_date, at_midnight,
    from_utc_datetime, seconds as delta_seconds, checked_sub_signed,
  }

  -- From the number and the unit on.
  unfoldable pub before_now : Bytes → DateTime → Option (Bytes × Bytes) → CutoffResult DateTime
  unfolding duration_seconds
  before_now spec now none = err empty_duration
  before_now spec now (some (num, unit)) = do
    secs ← duration_seconds spec num unit
    delta ← or_err cutoff_panic (delta_seconds secs)
    or_err (too_large spec) (checked_sub_signed now delta)

  unfoldable pub resolve_older_than : Bytes → DateTime → CutoffResult DateTime
  unfolding before_now split_last trim
  resolve_older_than spec now = before_now (trim spec) now (split_last (trim spec))

  unfoldable pub resolve_trimmed : Bytes → CutoffResult DateTime
  resolve_trimmed spec =
      let naive = λ (fmt : Bytes). map_option from_utc_datetime (parse_naive_datetime spec fmt) in
      let date =
        map_option (λ d. from_utc_datetime (at_midnight d))
          (parse_naive_date spec (codes "%Y-%m-%d")) in
      or_err (bad_datetime spec) (
        first_of (parse_from_rfc3339 spec) (
          first_of (naive (codes "%Y-%m-%dT%H:%M:%S"))
            (first_of (naive (codes "%Y-%m-%d %H:%M:%S")) date)))

  unfoldable pub resolve_before : Bytes → CutoffResult DateTime
  unfolding resolve_trimmed trim
  resolve_before spec = resolve_trimmed (trim spec)

  -- By which of the two flags is there.
  unfoldable pub resolve_flags : Option Bytes → Option Bytes → DateTime → CutoffResult DateTime
  unfolding resolve_older_than resolve_before
  resolve_flags (some spec) none now = resolve_older_than spec now
  resolve_flags none (some spec) now = resolve_before spec
  resolve_flags (some _) (some _) now = err exclusive
  resolve_flags none none now = err required

  unfoldable pub resolve_cutoff : PruneArgs → DateTime → CutoffResult DateTime
  unfolding resolve_flags
  resolve_cutoff args now = resolve_flags args.older_than args.before_time now
