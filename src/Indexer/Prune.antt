-- ===== src/Indexer/Prune.antt =====
-- `Indexer::prune` of crates/core/src/indexer.rs. Each of its statements, the DELETE and the VACUUM, goes
-- through or fails.
use mathlib.Core.List.{Memᴰ}
use logdive.Prelude.{
  ◌+◌, Bool, Bool-cases, [], all, arith, if◌then◌else◌, inl, inr, length, not, refl, true, ℕ, ◌∷◌,
  ◌≡◌, false, ap, ◌⊎◌,
}
use logdive.Bytes.{Bytes}
use logdive.Prelude.Result.{Result, err, ok}
use logdive.Indexer.Table.{Row, Table, before, delete_before}
use logdive.Indexer.Batch.{SqlError, sql_error}
use mathlib.Core.Path.{subst}

pub record PruneStats : Type 0 where
  pub deleted : ℕ

unfoldable pub prune : Bytes → Bool → Bool → Table → Result SqlError PruneStats × Table
unfolding delete_before
prune cutoff deletes vacuums t =
    let (deleted, t') = delete_before cutoff t in
    if not deletes
    then (err sql_error, t)
    else if not vacuums
    then (err sql_error, t')
    else (ok (record { deleted = deleted }), t')

-- The row is kept: its timestamp is no smaller than the cutoff.
abbrev pub is_recent : Bytes → Row → Bool
is_recent cutoff r = not (before r.timestamp cutoff)

-- What is left, against what was there.
pub record Pruned (cutoff : Bytes) (t : Table) (n : ℕ) (t' : Table) : Type 0 where
  pub counts : n + length t' ≡ length t
  pub all_recent : all (is_recent cutoff) t' ≡ true
  pub none_lost : (r : Row) → Memᴰ r t → is_recent cutoff r ≡ true → Memᴰ r t'
  pub none_new : (r : Row) → Memᴰ r t' → Memᴰ r t

mem_cases : {r q : Row} {t : Table} → Memᴰ r (q ∷ t) → (r ≡ q) ⊎ Memᴰ r t
mem_cases (Memᴰ.head e) = inl e
mem_cases (Memᴰ.tail m) = inr m

not_old :
    (cutoff : Bytes) (q : Row) → before q.timestamp cutoff ≡ true → is_recent cutoff q ≡ true → ⊥
not_old cutoff q old keep = ground arith

pub delete_before-Pruned :
    (cutoff : Bytes) (t : Table)
    → Pruned cutoff t (delete_before cutoff t).0 (delete_before cutoff t).1
unfolding delete_before
delete_before-Pruned cutoff [] = record {
  counts = omega arith;
  all_recent = refl;
  none_lost = λ r m _. m;
  none_new = λ r m. m;
}
delete_before-Pruned cutoff (q ∷ qs) =
    let i = delete_before-Pruned cutoff qs in
    elim (Bool-cases (before q.timestamp cutoff)) [
      | inl old ↦ rw old (record {
        counts = omega (arith, i.counts);
        all_recent = i.all_recent;
        none_lost = λ r m keep. elim (mem_cases m) [
          | inl e ↦ absurd (not_old cutoff q old (subst (λ x. is_recent cutoff x ≡ true) e keep))
          | inr m' ↦ i.none_lost r m' keep
        ];
        none_new = λ r m. Memᴰ.tail (i.none_new r m);
      })
      | inr recent ↦ rw recent (record {
        counts = omega (arith, i.counts);
        all_recent = rw recent i.all_recent;
        none_lost = λ r m keep. elim (mem_cases m) [
          | inl e ↦ Memᴰ.head e
          | inr m' ↦ Memᴰ.tail (i.none_lost r m' keep)
        ];
        none_new = λ r m. elim (mem_cases m) [
          | inl e ↦ Memᴰ.head e
          | inr m' ↦ Memᴰ.tail (i.none_new r m')
        ];
      })
    ]

abbrev deleted_of : Result SqlError PruneStats → ℕ
deleted_of (ok s) = s.deleted
deleted_of _ = 0

deleted_eq :
    {n : ℕ} {s : PruneStats}
    → ◌≡◌ {A = Result SqlError PruneStats} (ok (record { deleted = n })) (ok s)
    → n ≡ s.deleted
deleted_eq h = ap deleted_of h

-- If `prune` succeeds, the rows deleted and those left are all there were, no row left has a timestamp
-- below the cutoff, no row with a timestamp at or above it is lost, and none is new.
pub prune-Pruned :
    (cutoff : Bytes) (deletes vacuums : Bool) (t : Table) (s : PruneStats)
    → (prune cutoff deletes vacuums t).0 ≡ ok s
    → Pruned cutoff t s.deleted (prune cutoff deletes vacuums t).1
unfolding prune
prune-Pruned cutoff false vacuums t s h = cc h
prune-Pruned cutoff true false t s h = cc h
prune-Pruned cutoff true true t s h =
    subst (λ n. Pruned cutoff t n (delete_before cutoff t).1) (deleted_eq h)
      (delete_before-Pruned cutoff t)
