-- ===== src/Cli/Outcome.antt =====
-- What a run of `prune` (crates/cli/src/prune_cmd.rs) can do to the table.
use logdive.Prelude.{
  ◌==◌, Bool, Bool-cases, Option, [], arith, false, if◌then◌else◌, inl, inr, none, not, refl, some,
  true, ◌||◌, ℕ, ◌∷◌, ◌≡◌, ◌∙◌, sym,
}
use logdive.Bytes.{Bytes, codes, eq_ignore_ascii_case, equals, to_ascii_lowercase}
use logdive.Executor.Chrono.{Chrono}
use logdive.Cli.Cutoff.{CutoffResult, PruneArgs, resolve_cutoff}
use logdive.Indexer.Prune.{prune, Pruned, delete_before-Pruned}
use logdive.Prelude.Result.{Result, err, ok, out_of_fuel}
use logdive.Indexer.Table.{Table, delete_before}
use mathlib.Core.Path.{subst}
use logdive.Cli.Prune.{
  PruneFailure, PruneReport, World, after_consent, confirm, count_before, is_consent, prune_at,
  prune_from, pruned, report, run_prune,
}
use logdive.Bytes.Laws.{eq_ignore_ascii_case_iff, equals_iff}
use logdive.Bytes.White.{trim}

-- The two answers that go on, in any case of their letters and with white space around them.
pub data IsYes (line : Bytes) : Type 0 where
  short_yes : eq_ignore_ascii_case (trim line) (codes "y") ≡ true → IsYes line
  long_yes : eq_ignore_ascii_case (trim line) (codes "yes") ≡ true → IsYes line

-- No line was read that is a yes.
abbrev pub IsRefused : Option Bytes → Type 0
IsRefused answer = (line : Bytes) → answer ≡ some line → ¬ IsYes line

word_is :
    (s word : Bytes)
    → to_ascii_lowercase word ≡ word
    → equals (to_ascii_lowercase s) word ≡ true
    → eq_ignore_ascii_case s word ≡ true
word_is s word low h =
    (eq_ignore_ascii_case_iff s word).1 ((equals_iff (to_ascii_lowercase s) word).0 h ∙ sym low)

is_consent-IsYes : (line : Bytes) → is_consent line ≡ true → IsYes line
unfolding is_consent
is_consent-IsYes line h = elim (Bool-cases (equals (to_ascii_lowercase (trim line)) (codes "y"))) [
  | inl y ↦ short_yes (word_is (trim line) (codes "y") refl y)
  | inr other ↦ long_yes (word_is (trim line) (codes "yes") refl (rw other at h))
]

confirm-no :
    (cutoff : Bytes) (w : World) (t : Table) (a : Option Bytes)
    → IsRefused a
    → (after_consent cutoff w t (confirm a)).1 ≡ t
unfolding after_consent confirm
confirm-no cutoff w t none h = refl
confirm-no cutoff w t (some line) h = elim (Bool-cases (is_consent line)) [
  | inl agreed ↦ absurd (h line refl (is_consent-IsYes line agreed))
  | inr other ↦ rw other refl
]

prune_at-no :
    (cutoff : Bytes) (w : World) (t : Table)
    → IsRefused w.answer
    → (prune_at false cutoff w t).1 ≡ t
unfolding prune_at
prune_at-no cutoff w t h = ground (arith, confirm-no cutoff w t w.answer h)

count_before-delete_before :
    (cutoff : Bytes) (t : Table) → count_before cutoff t ≡ (delete_before cutoff t).0
unfolding count_before delete_before
count_before-delete_before cutoff [] = refl
count_before-delete_before cutoff (r ∷ rs) = ground (arith, count_before-delete_before cutoff rs)

-- What a run that reports `n` deleted rows did with the rows before this cutoff.
pub record IsPruning (cutoff : Bytes) (t : Table) (n : ℕ) (t' : Table) : Type 0 where
  pub rows : Pruned cutoff t n t'
  pub counted : count_before cutoff t ≡ n

pruned_eq :
    {a b : ℕ} → ◌≡◌ {A = Result PruneFailure PruneReport} (ok (pruned a)) (ok (pruned b)) → a ≡ b
pruned_eq h = cc

report-IsPruning :
    (cutoff : Bytes) (deletes vacuums : Bool) (t : Table) (n : ℕ)
    → (report (prune cutoff deletes vacuums t)).0 ≡ ok (pruned n)
    → IsPruning cutoff t n (report (prune cutoff deletes vacuums t)).1
unfolding report prune
report-IsPruning cutoff false vacuums t n h = cc h
report-IsPruning cutoff true false t n h = cc h
report-IsPruning cutoff true true t n h =
    let same : (delete_before cutoff t).0 ≡ n = pruned_eq h in
    record {
      rows =
          subst (λ k. Pruned cutoff t k (delete_before cutoff t).1) same
            (delete_before-Pruned cutoff t);
      counted = count_before-delete_before cutoff t ∙ same;
    }

after_consent-IsPruning :
    (cutoff : Bytes) (w : World) (t : Table) (n : ℕ) (r : Result PruneFailure Bool)
    → (after_consent cutoff w t r).0 ≡ ok (pruned n)
    → IsPruning cutoff t n (after_consent cutoff w t r).1
unfolding after_consent
after_consent-IsPruning cutoff w t n (ok true) h = report-IsPruning cutoff w.deletes w.vacuums t n h
after_consent-IsPruning cutoff w t n (ok false) h = cc h
after_consent-IsPruning cutoff w t n (err e) h = cc h
after_consent-IsPruning cutoff w t n out_of_fuel h = cc h

prune_at-IsPruning :
    (is_yes : Bool) (cutoff : Bytes) (w : World) (t : Table) (n : ℕ)
    → (prune_at is_yes cutoff w t).0 ≡ ok (pruned n)
    → IsPruning cutoff t n (prune_at is_yes cutoff w t).1
unfolding prune_at
prune_at-IsPruning is_yes cutoff w t n h = elim (Bool-cases (not w.opens || not w.counts)) [
  | inl e ↦ cc (rw e at h)
  | inr e ↦ elim (Bool-cases (count_before cutoff t == 0)) [
    | inl e' ↦ cc (rw (e, e') at h)
    | inr e' ↦
        rw (e, e')
          (after_consent-IsPruning cutoff w t n (if is_yes then ok true else confirm w.answer)
            (rw (e, e') at h))
  ]
]

module _ (chrono : Chrono) where
  prune_from-no :
      (w : World) (t : Table) (r : CutoffResult chrono.DateTime)
      → IsRefused w.answer
      → (prune_from chrono false w t r).1 ≡ t
  unfolding prune_from
  prune_from-no w t (ok c) h = prune_at-no (chrono.to_rfc3339 c) w t h
  prune_from-no w t (err e) h = refl
  prune_from-no w t out_of_fuel h = refl

  -- Without --yes, a run of `prune` that reads no line which is y or yes, in any case and with any
  -- white space around it, leaves the table as it is, whatever else happens.
  pub run_prune-no :
      (args : PruneArgs) (now : chrono.DateTime) (w : World) (t : Table)
      → args.is_yes ≡ false
      → IsRefused w.answer
      → (run_prune chrono args now w t).1 ≡ t
  unfolding run_prune resolve_cutoff
  run_prune-no args now w t h k = elim (Bool-cases (not w.exists)) [
    | inl e ↦ rw e refl
    | inr e ↦ rw e (rw h (prune_from-no w t (resolve_cutoff chrono args now) k))
  ]

  prune_from-IsPruning :
      (is_yes : Bool) (w : World) (t : Table) (n : ℕ) (r : CutoffResult chrono.DateTime)
      → (prune_from chrono is_yes w t r).0 ≡ ok (pruned n)
      → (c : chrono.DateTime) × (r ≡ ok c)
        × IsPruning (chrono.to_rfc3339 c) t n (prune_from chrono is_yes w t r).1
  unfolding prune_from
  prune_from-IsPruning is_yes w t n (ok c) h =
      (c, refl, prune_at-IsPruning is_yes (chrono.to_rfc3339 c) w t n h)
  prune_from-IsPruning is_yes w t n (err e) h = cc h
  prune_from-IsPruning is_yes w t n out_of_fuel h = cc h

  -- If a run of `prune` reports a number of deleted rows, the flags gave a cutoff, that number is the
  -- count of the rows below it, those rows are gone and no other row is, and no row is new.
  pub run_prune-IsPruning :
      (args : PruneArgs) (now : chrono.DateTime) (w : World) (t : Table) (n : ℕ)
      → (run_prune chrono args now w t).0 ≡ ok (pruned n)
      → (c : chrono.DateTime) × (resolve_cutoff chrono args now ≡ ok c)
        × IsPruning (chrono.to_rfc3339 c) t n (run_prune chrono args now w t).1
  unfolding run_prune
  run_prune-IsPruning args now w t n h = elim (Bool-cases (not w.exists)) [
    | inl e ↦ cc (rw e at h)
    | inr e ↦
        rw e (prune_from-IsPruning args.is_yes w t n (resolve_cutoff chrono args now) (rw e at h))
  ]
