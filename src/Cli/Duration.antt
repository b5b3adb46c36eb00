-- ===== src/Cli/Duration.antt =====
-- The durations that `prune` reads, crates/cli/src/prune_cmd.rs.
use native.Mathlib.Nat.{min-eq_left}
use logdive.Prelude.{
  ◌*◌, ◌++◌, [], none, some, ℕ, ◌∷◌, ◌≡◌, ◌≤◌, Option, Bool-cases, Option-cases, all, ap,
  if◌then◌else◌, inl, inr, leb, refl, sym, arith, true, ◌∙◌,
}
use logdive.Bytes.{Bytes, codes, equals}
use logdive.Cli.Cutoff.{
  CutoffError, or_err, split_last, unit_seconds, CutoffResult, bad_duration, checked_mul,
  duration_seconds, is_continuation, too_large,
}
use logdive.Query.Ast.{DurationUnit, days, hours, minutes, seconds, Duration}
use logdive.Bytes.Number.{i64_max, parse_u64}
use Prim.Native.Nat.{min}
use logdive.Prelude.Result.{ok, bind-ok, err, ok_eq}
use logdive.Executor.Sql.{cutoff_seconds}
use logdive.Bytes.Laws.{equals_iff}

-- The character of a unit.
abbrev pub unit_text : DurationUnit → Bytes
unit_text minutes = codes "m"
unit_text hours = codes "h"
unit_text days = codes "d"

some_eq : {A : Type 0} {a b : A} → ◌≡◌ {A = Option A} (some a) (some b) → a ≡ b
some_eq h = cc

some_pair :
    {a b c d : Bytes}
    → ◌≡◌ {A = Option (Bytes × Bytes)} (some (a, b)) (some (c, d))
    → (a ≡ c) × (b ≡ d)
some_pair h = (cc h, cc h)

pub split_last-append : (s num unit : Bytes) → split_last s ≡ some (num, unit) → s ≡ num ++ unit
unfolding split_last
split_last-append [] num unit h = cc h
split_last-append (c ∷ s) num unit h = elim (Bool-cases (all is_continuation s)) [
  | inl e ↦ let (no_num, whole) = some_pair (rw e at h) in rw (sym no_num, sym whole) refl
  | inr e ↦ elim (Option-cases (split_last s)) [
    | inl none_left ↦ cc (rw none_left at (rw e at h))
    | inr ((n, u), e') ↦
        let (front, same) = some_pair (rw e' at (rw e at h)) in
        rw (sym front, sym same) (ap (λ r. c ∷ r) (split_last-append s n u e'))
  ]
]

unit_seconds-some :
    (unit : Bytes) (n : ℕ)
    → unit_seconds unit ≡ some n
    → (u : DurationUnit) × (unit ≡ unit_text u) × (n ≡ seconds u)
unfolding unit_seconds seconds
unit_seconds-some unit n h = elim (Bool-cases (equals unit (codes "m"))) [
  | inl e ↦ (minutes, (equals_iff unit (codes "m")).0 e, sym (some_eq (rw e at h)))
  | inr e ↦ elim (Bool-cases (equals unit (codes "h"))) [
    | inl e' ↦ (hours, (equals_iff unit (codes "h")).0 e', sym (some_eq (rw (e, e') at h)))
    | inr e' ↦ elim (Bool-cases (equals unit (codes "d"))) [
      | inl e'' ↦ (days, (equals_iff unit (codes "d")).0 e'', sym (some_eq (rw (e, e', e'') at h)))
      | inr e'' ↦ cc (rw (e, e', e'') at h)
    ]
  ]
]

pub or_err-ok :
    {A : Type 0} (e : CutoffError) (o : Option A) (a : A) → or_err e o ≡ ok a → o ≡ some a
or_err-ok e none a h = cc h
or_err-ok e (some b) a h = ap some (ok_eq h)

min_small :
    (amount factor : ℕ)
    → amount ≤ i64_max
    → amount * factor ≤ i64_max
    → min (min amount i64_max * factor) i64_max ≡ amount * factor
min_small amount factor h k = rw (min-eq_left h) (min-eq_left k)

-- The duration that a text in front of a unit stands for, and its seconds.
pub record IsDuration (num unit : Bytes) (secs : ℕ) : Type 0 where
  pub duration : Duration
  pub amount_is : parse_u64 num ≡ some duration.amount
  pub unit_is : unit ≡ unit_text duration.unit
  pub seconds_are : cutoff_seconds duration ≡ secs

leb_le : (a b : ℕ) → leb a b ≡ true → a ≤ b
leb_le a b h = ground arith

checked_mul-some : (a b n : ℕ) → checked_mul a b ≡ some n → (a * b ≤ i64_max) × (a * b ≡ n)
unfolding checked_mul
checked_mul-some a b n h = elim (Bool-cases (leb (a * b) i64_max)) [
  | inl e ↦ (leb_le (a * b) i64_max e, some_eq (rw e at h))
  | inr e ↦ cc (rw e at h)
]

-- `i64::try_from` of the amount.
fits-ok :
    (spec : Bytes) (amount small : ℕ)
    → ◌≡◌ {A = CutoffResult ℕ}
        (if leb amount i64_max then ok amount else err (too_large spec))
        (ok small)
    → (amount ≤ i64_max) × (amount ≡ small)
fits-ok spec amount small h = elim (Bool-cases (leb amount i64_max)) [
  | inl e ↦ (leb_le amount i64_max e, ok_eq (rw e at h))
  | inr e ↦ cc (rw e at h)
]

IsDuration-parts :
    (num unit : Bytes) (amount small factor secs : ℕ) (u : DurationUnit)
    → parse_u64 num ≡ some amount
    → (amount ≤ i64_max) × (amount ≡ small)
    → unit ≡ unit_text u
    → factor ≡ seconds u
    → (small * factor ≤ i64_max) × (small * factor ≡ secs)
    → IsDuration num unit secs
unfolding cutoff_seconds
IsDuration-parts num unit amount small factor secs u parsed (fits, same) is_u is_factor
      (bound, product) =
    let factor_same = ap (λ f. amount * f) (sym is_factor) ∙ ap (λ a. a * factor) same in
    record {
      duration = record { amount = amount; unit = u };
      amount_is = parsed;
      unit_is = is_u;
      seconds_are =
          min_small amount (seconds u) fits (rw factor_same bound) ∙ factor_same ∙ product;
    }

pub duration_seconds-IsDuration :
    (spec num unit : Bytes) (secs : ℕ)
    → duration_seconds spec num unit ≡ ok secs
    → IsDuration num unit secs
unfolding duration_seconds
duration_seconds-IsDuration spec num unit secs h =
    let (amount, parsed, h1) = bind-ok (or_err (bad_duration spec) (parse_u64 num)) h in
    let (small, fits, h2) =
      bind-ok (if leb amount i64_max then ok amount else err (too_large spec)) h1 in
    let (factor, known_unit, h3) = bind-ok (or_err (bad_duration spec) (unit_seconds unit)) h2 in
    let (u, is_u, is_factor) = unit_seconds-some unit factor (or_err-ok _ _ factor known_unit) in
    IsDuration-parts num unit amount small factor secs u (or_err-ok _ _ amount parsed)
      (fits-ok spec amount small fits) is_u is_factor
      (checked_mul-some small factor secs (or_err-ok _ _ secs h3))
