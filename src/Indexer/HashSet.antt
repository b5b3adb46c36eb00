-- ===== src/Indexer/HashSet.antt =====
-- The index of crates/core/src/indexer.rs as a set of hashes: the order and the rest of the rows forgotten.
use mathlib.Core.Quot
use mathlib.Core.Quot.{Quot, Quot-set}
use mathlib.Core.List.{Permᴰ}
use logdive.Prelude.{
  ◌++◌, Bool, Bool-cases, List, Option, [], ap, arith, false, inl, inr, none, refl, some, sym, true,
  ◌||◌, ◌∙◌, ◌∷◌, ◌≡◌,
}
use logdive.Bytes.{Bytes, equals}
use logdive.Entry.{Fields, LogEntry}
use logdive.Indexer.Batch.{InsertStats, Sqlite, insert_batch, no_stats, row_of, Stored}
use logdive.Indexer.Again.{IsReliable}
use logdive.Indexer.Table.{Row, Table, has_hash, insert_or_ignore}
use mathlib.Core.Path.{ap₂}
use logdive.Bytes.Laws.{equals_iff}
use logdive.Indexer.Unique.{has_hash-append}
use logdive.Indexer.Sequential.{insert_batch-good, put_all, put_one}

unfoldable pub member : Bytes → List Bytes → Bool
member g [] = false
member g (h ∷ hs) = equals g h || member g hs

abbrev pub SameMembers : List Bytes → List Bytes → Type 0
SameMembers xs ys = (g : Bytes) → member g xs ≡ member g ys

abbrev pub HashSet : Type 0
HashSet = Quot SameMembers

unfoldable pub hashes : Table → List Bytes
hashes [] = []
hashes (r ∷ rs) = r.raw_hash ∷ hashes rs

abbrev pub hashes_of : Table → HashSet
hashes_of t = Quot.mk (hashes t)

pub SameMembers-cons :
    (h : Bytes) (xs ys : List Bytes) → SameMembers xs ys → SameMembers (h ∷ xs) (h ∷ ys)
unfolding member
SameMembers-cons h xs ys k g = ap (λ b. equals g h || b) (k g)

unfoldable pub add : Bytes → HashSet → HashSet
add h =
    Quot.lift Quot-set (λ xs. Quot.mk (h ∷ xs)) (λ xs ys k. Quot.sound (SameMembers-cons h xs ys k))

add_comm : (g h : Bytes) (s : HashSet) → add g (add h s) ≡ add h (add g s)
unfolding add member
add_comm g h = Quot.ind (λ s. Quot-set _ _) (λ xs. Quot.sound (λ k. ground arith))

-- An entry without a timestamp is not stored.
abbrev pub add_entry : (Bytes → Bytes) → Option Bytes → LogEntry → HashSet → HashSet
add_entry hash none e s = s
add_entry hash (some _) e s = add (hash e.raw) s

-- What storing these entries means for the set.
unfoldable pub adds : (Bytes → Bytes) → List LogEntry → HashSet → HashSet
unfolding add
adds hash [] s = s
adds hash (e ∷ es) s = adds hash es (add_entry hash e.timestamp e s)

add_entry_comm :
    (hash : Bytes → Bytes) (o o' : Option Bytes) (e e' : LogEntry) (s : HashSet)
    → add_entry hash o e (add_entry hash o' e' s) ≡ add_entry hash o' e' (add_entry hash o e s)
add_entry_comm hash none o' e e' s = refl
add_entry_comm hash (some _) none e e' s = refl
add_entry_comm hash (some _) (some _) e e' s = add_comm (hash e.raw) (hash e'.raw) s

adds-Perm :
    (hash : Bytes → Bytes) {es fs : List LogEntry}
    → Permᴰ es fs
    → (s : HashSet) → adds hash es s ≡ adds hash fs s
unfolding adds
adds-Perm hash Permᴰ.nil s = refl
adds-Perm hash (Permᴰ.cons {a} {l₂} same more) s =
    adds-Perm hash more (add_entry hash a.timestamp a s)
    ∙ ap (λ (e : LogEntry). adds hash l₂ (add_entry hash e.timestamp e s)) same
adds-Perm hash (Permᴰ.swap {a} {b} {l} first second) s =
    ap (λ x. adds hash l x) (add_entry_comm hash b.timestamp a.timestamp b a s)
    ∙ ap₂
        (λ (x y : LogEntry).
          adds hash l (add_entry hash y.timestamp y (add_entry hash x.timestamp x s)))
        second first
adds-Perm hash (Permᴰ.trans first second) s = adds-Perm hash first s ∙ adds-Perm hash second s

member-hashes : (g : Bytes) (t : Table) → member g (hashes t) ≡ has_hash g t
unfolding member hashes has_hash
member-hashes g [] = refl
member-hashes g (r ∷ rs) = ap (λ b. equals g r.raw_hash || b) (member-hashes g rs)

member_here :
    (g h : Bytes) (t : Table) → has_hash h t ≡ true → has_hash g t ≡ (equals g h || has_hash g t)
member_here g h t k = elim (Bool-cases (equals g h)) [
  | inl same ↦ rw ((equals_iff g h).0 same) (ground (arith, k))
  | inr other ↦ rw other refl
]

known_hash : (h : Bytes) (t : Table) → has_hash h t ≡ true → hashes_of t ≡ add h (hashes_of t)
unfolding add member
known_hash h t k = Quot.sound λ g.
    member-hashes g t ∙ member_here g h t k ∙ ap (λ b. equals g h || b) (sym (member-hashes g t))

new_hash : (r : Row) (t : Table) → hashes_of (t ++ r ∷ []) ≡ add r.raw_hash (hashes_of t)
unfolding add member has_hash
new_hash r t = Quot.sound λ g.
    member-hashes g (t ++ r ∷ []) ∙ has_hash-append g t (r ∷ []) ∙ ground (arith, member-hashes g t)

module _ (hash : Bytes → Bytes) (to_json : Fields → Bytes) where
  put_one-adds :
      (o : Option Bytes) (e : LogEntry) (s : InsertStats) (t : Table)
      → hashes_of (put_one hash to_json o e s t).1 ≡ add_entry hash o e (hashes_of t)
  unfolding put_one insert_or_ignore row_of
  put_one-adds none e s t = refl
  put_one-adds (some ts) e s t = elim (Bool-cases (has_hash (hash e.raw) t)) [
    | inl old ↦ rw old (known_hash (hash e.raw) t old)
    | inr fresh ↦ rw fresh (new_hash (row_of hash to_json ts e) t)
  ]

  put_all-adds :
      (es : List LogEntry) (s : InsertStats) (t : Table)
      → hashes_of (put_all hash to_json es s t).1 ≡ adds hash es (hashes_of t)
  unfolding put_all adds
  put_all-adds [] s t = refl
  put_all-adds (e ∷ es) s t =
      let x = put_one hash to_json e.timestamp e s t in
      put_all-adds es x.0 x.1 ∙ ap (adds hash es) (put_one-adds e.timestamp e s t)

  -- On a database in which no statement fails, and with the index taken for the set of its hashes,
  -- `insert_batch` adds the hashes of the entries that have a timestamp, in whatever order the entries
  -- come, and nothing else.
  pub insert_batch-adds :
      (sqlite : Sqlite) (es fs : List LogEntry) (t : Table)
      → IsReliable sqlite
      → Permᴰ es fs
      → hashes_of (insert_batch hash to_json sqlite es t).1 ≡ adds hash fs (hashes_of t)
  insert_batch-adds sqlite es fs t reliable same =
      ap (λ (r : Stored). hashes_of r.1) (insert_batch-good hash to_json sqlite reliable es t)
      ∙ put_all-adds es no_stats t
      ∙ adds-Perm hash same (hashes_of t)
