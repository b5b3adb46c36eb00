-- ===== src/Indexer/Origin.antt =====
-- Where the rows of the index come from: `insert_batch` of crates/core/src/indexer.rs makes none up.
use logdive.Prelude.{◌++◌, List, Option, [], arith, inl, inr, refl, some, sym, ◌∙◌, ◌∷◌, ◌≡◌, ◌⊎◌}
use logdive.Bytes.{Bytes}
use logdive.Indexer.Ends.{
  Ends, Ends-back, Ends-then, fails_at, insert_one_chunk-Ends, insert_timed-Ends, stored,
}
use logdive.Entry.{Fields, LogEntry, new}
use logdive.Indexer.Batch.{
  InsertStats, Sqlite, Stored, extend, insert_batch, insert_chunks, insert_entries, insert_entry,
  insert_timed, no_stats, row_of,
}
use logdive.Indexer.Table.{Row, Table}
use logdive.Indexer.Chunks.{batch_size, chunks, concat, concat-chunks}
use mathlib.Core.Path.{subst}
use mathlib.Core.List.{Memᴰ}

-- The row is that of an entry of the list which has a timestamp.
pub record IsRowOf (hash : Bytes → Bytes) (to_json : Fields → Bytes) (es : List LogEntry) (r : Row)
    : Type 0 where
  pub entry : LogEntry
  pub ts : Bytes
  pub is_ingested : Memᴰ entry es
  pub has_time : entry.timestamp ≡ some ts
  pub is_row : row_of hash to_json ts entry ≡ r

abbrev pub ComesFrom : (Bytes → Bytes) → (Fields → Bytes) → List LogEntry → Table → Type 0
ComesFrom hash to_json es t = (r : Row) → Memᴰ r t → IsRowOf hash to_json es r

mem-append_one {ℓ} :
    {A : Type ℓ} {x y : A} (xs : List A) → Memᴰ x (xs ++ y ∷ []) → Memᴰ x xs ⊎ (x ≡ y)
mem-append_one [] (Memᴰ.head e) = inr e
mem-append_one [] (Memᴰ.tail m) = elim m [ ]
mem-append_one (z ∷ zs) (Memᴰ.head e) = inl (Memᴰ.head e)
mem-append_one (z ∷ zs) (Memᴰ.tail m) = elim (mem-append_one zs m) [
  | inl m' ↦ inl (Memᴰ.tail m')
  | inr e ↦ inr e
]

mem-append_left {ℓ} : {A : Type ℓ} {x : A} (xs ys : List A) → Memᴰ x xs → Memᴰ x (xs ++ ys)
mem-append_left [] ys m = elim m [ ]
mem-append_left (y ∷ xs) ys (Memᴰ.head e) = Memᴰ.head e
mem-append_left (y ∷ xs) ys (Memᴰ.tail m) = Memᴰ.tail (mem-append_left xs ys m)

mem-append_right {ℓ} : {A : Type ℓ} {x : A} (xs ys : List A) → Memᴰ x ys → Memᴰ x (xs ++ ys)
mem-append_right [] ys m = m
mem-append_right (y ∷ xs) ys m = Memᴰ.tail (mem-append_right xs ys m)

module _ (hash : Bytes → Bytes) (to_json : Fields → Bytes) (sqlite : Sqlite)
    (given : List LogEntry) where
  abbrev From : Table → Type 0
  From = ComesFrom hash to_json given

  abbrev KeepsFrom : Stored → Type 0
  KeepsFrom = Ends From (λ _. From)

  insert_timed-KeepsFrom :
      (o : Option Bytes) (e : LogEntry) (s : InsertStats) (t : Table)
      → Memᴰ e given
      → e.timestamp ≡ o
      → From t
      → KeepsFrom (insert_timed hash to_json sqlite o e s t)
  insert_timed-KeepsFrom o e s t m same h =
      insert_timed-Ends hash to_json sqlite {P = λ _. From} o e s t (λ _. h) (λ ts _ _. h)
        (λ ts has_ts _ r mem. elim (mem-append_one t mem) [
          | inl old ↦ h r old
          | inr new ↦ record {
            entry = e;
            ts = ts;
            is_ingested = m;
            has_time = same ∙ has_ts;
            is_row = sym new;
          }
        ])
        h

  insert_entries-KeepsFrom :
      (es : List LogEntry) (s : InsertStats) (t : Table)
      → ((e : LogEntry) → Memᴰ e es → Memᴰ e given)
      → From t
      → KeepsFrom (insert_entries hash to_json sqlite es s t)
  unfolding insert_entries insert_entry
  insert_entries-KeepsFrom [] s t k h = stored h
  insert_entries-KeepsFrom (e ∷ es) s t k h =
      Ends-then (insert_timed-KeepsFrom e.timestamp e s t (k e (Memᴰ.head refl)) refl h)
        λ s' t' h'. insert_entries-KeepsFrom es s' t' (λ e' m. k e' (Memᴰ.tail m)) h'

  insert_chunks-KeepsFrom :
      (ess : List (List LogEntry)) (s : InsertStats) (t : Table)
      → ((e : LogEntry) → Memᴰ e (concat ess) → Memᴰ e given)
      → From t
      → KeepsFrom (insert_chunks hash to_json sqlite ess s t)
  unfolding insert_chunks
  insert_chunks-KeepsFrom [] s t k h = stored h
  insert_chunks-KeepsFrom (es ∷ ess) s t k h =
      Ends-then
        (Ends-back From t h (
          insert_one_chunk-Ends hash to_json sqlite es t (
            insert_entries-KeepsFrom es no_stats t (λ e m. k e (mem-append_left es (concat ess) m))
              h)))
        λ stats t' h'.
          insert_chunks-KeepsFrom ess (extend s stats) t'
            (λ e m. k e (mem-append_right es (concat ess) m)) h'

  Ends-table : (r : Stored) → KeepsFrom r → From r.1
  Ends-table _ (stored h) = h
  Ends-table _ (fails_at h) = h

  -- An insertion adds rows of its entries only, also when a statement fails on the way.
  pub insert_batch-ComesFrom :
      (t : Table)
      → ComesFrom hash to_json given t
      → ComesFrom hash to_json given (insert_batch hash to_json sqlite given t).1
  unfolding insert_batch
  insert_batch-ComesFrom t h = Ends-table _ (
      insert_chunks-KeepsFrom (chunks batch_size given) no_stats t
        (λ e m. subst (Memᴰ e) (concat-chunks batch_size given (omega arith)) m) h)
