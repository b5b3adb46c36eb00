-- ===== src/Api/Start.antt =====
-- `ensure_index_exists` of crates/api/src/main.rs: the start of the server leaves an index that is there as
-- it is, and makes an empty one where there is none.
use logdive.Prelude.{
  ◌&&◌, Bool-cases, Option, if◌then◌else◌, inl, inr, none, not, refl, some, ◌≡◌, ap, ◌≢◌, ◌⊎◌,
}
use logdive.Bytes.{Bytes, is_empty}
use logdive.Indexer.Open.{
  Disk, OnDisk, create_dir, ensure_parent_dir, on_disk_then, connect, rows_of, OpenAnswers,
  open_index,
}
use logdive.Error.{Outcome, Thrown}
use logdive.Prelude.Result.{Result, err, ok, out_of_fuel}
use logdive.Indexer.Table.{Table}
use mathlib.Core.Path.{subst}

-- The directory, if it is named and not there.
unfoldable pub make_parent : Bytes → OpenAnswers → Option Bytes → Disk → OnDisk Unit
unfolding create_dir is_empty
make_parent db a none d = (ok tt, d)
make_parent db a (some parent) d =
    if not (is_empty parent) && not d.parent_exists
    then create_dir db a.makes_parent d
    else (ok tt, d)

unfoldable pub create_index : Bytes → OpenAnswers → Disk → OnDisk Unit
unfolding make_parent open_index
create_index db a d = on_disk_then (make_parent db a a.parent d) (open_index a)

unfoldable pub ensure_index_from : Option Table → Bytes → OpenAnswers → Disk → OnDisk Unit
unfolding create_index
ensure_index_from (some table) db a d = (ok tt, d)
ensure_index_from none db a d = create_index db a d

unfoldable pub ensure_index_exists : Bytes → OpenAnswers → Disk → OnDisk Unit
unfolding ensure_index_from
ensure_index_exists db a d = ensure_index_from d.db db a d

-- A step that keeps the file; one that ends with a file of the same rows.
data KeepsFile (db : Option Table) : OnDisk Unit → Type 0 where
  keeps_file : {r : Outcome Unit} {d : Disk} → d.db ≡ db → KeepsFile db (r, d)

data HasFile (db : Option Table) : OnDisk Unit → Type 0 where
  has_file : {r : Outcome Unit} {d : Disk} → d.db ≡ some (rows_of db) → HasFile db (r, d)
  failed_with : {e : Thrown} {d : Disk} → d.db ≡ db → HasFile db (err e, d)
  failed_starved : {d : Disk} → d.db ≡ db → HasFile db (out_of_fuel, d)

HasFile-then :
    (db : Option Table) (r : OnDisk Unit) (more : Disk → OnDisk Unit)
    → KeepsFile db r
    → ((d : Disk) → d.db ≡ db → HasFile db (more d))
    → HasFile db (on_disk_then r more)
HasFile-then db (ok _, d) more (keeps_file h) k = k d h
HasFile-then db (err e, d) more (keeps_file h) k = failed_with h
HasFile-then db (out_of_fuel, d) more (keeps_file h) k = failed_starved h

create_dir-KeepsFile :
    (path : Bytes) (r : Result Bytes Unit) (d : Disk) → KeepsFile d.db (create_dir path r d)
unfolding create_dir
create_dir-KeepsFile path (ok _) d = keeps_file refl
create_dir-KeepsFile path (err detail) d = keeps_file refl
create_dir-KeepsFile path out_of_fuel d = keeps_file refl

make_parent-KeepsFile :
    (db : Bytes) (a : OpenAnswers) (parent : Option Bytes) (d : Disk)
    → KeepsFile d.db (make_parent db a parent d)
unfolding make_parent
make_parent-KeepsFile db a none d = keeps_file refl
make_parent-KeepsFile db a (some parent) d =
    elim (Bool-cases (not (is_empty parent) && not d.parent_exists)) [
      | inl missing ↦ rw missing (create_dir-KeepsFile db a.makes_parent d)
      | inr there ↦ rw there (keeps_file refl)
    ]

ensure_parent_dir-KeepsFile :
    (a : OpenAnswers) (parent : Option Bytes) (d : Disk)
    → KeepsFile d.db (ensure_parent_dir a parent d)
unfolding ensure_parent_dir
ensure_parent_dir-KeepsFile a none d = keeps_file refl
ensure_parent_dir-KeepsFile a (some parent) d = elim (Bool-cases (is_empty parent)) [
  | inl e ↦ rw e (keeps_file refl)
  | inr e ↦ rw e (create_dir-KeepsFile parent a.creates_dir d)
]

connect-HasFile :
    (db : Option Table) (opens inits : Result Bytes Unit) (d : Disk)
    → d.db ≡ db
    → HasFile db (connect opens inits d)
unfolding connect
connect-HasFile db (ok _) inits d h = has_file (ap (λ x. some (rows_of x)) h)
connect-HasFile db (err detail) inits d h = failed_with h
connect-HasFile db out_of_fuel inits d h = failed_starved h

open_index-HasFile :
    (db : Option Table) (a : OpenAnswers) (d : Disk) → d.db ≡ db → HasFile db (open_index a d)
unfolding open_index
open_index-HasFile db a d h =
    HasFile-then db (ensure_parent_dir a a.parent d) (connect a.opens a.inits)
      (subst (λ x. KeepsFile x (ensure_parent_dir a a.parent d)) h
        (ensure_parent_dir-KeepsFile a a.parent d))
      (connect-HasFile db a.opens a.inits)

create_index-HasFile :
    (path : Bytes) (a : OpenAnswers) (d : Disk) → HasFile d.db (create_index path a d)
unfolding create_index
create_index-HasFile path a d =
    HasFile-then d.db (make_parent path a a.parent d) (open_index a)
      (make_parent-KeepsFile path a a.parent d) (open_index-HasFile d.db a)

HasFile-ends :
    (db : Option Table) (r : OnDisk Unit)
    → HasFile db r
    → (rows_of r.1.db ≡ rows_of db) × ((r.0 ≢ ok tt) ⊎ (r.1.db ≡ some (rows_of db)))
HasFile-ends db _ (has_file h) = (ap rows_of h, inr h)
HasFile-ends db _ (failed_with h) = (ap rows_of h, inl (λ e. cc e))
HasFile-ends db _ (failed_starved h) = (ap rows_of h, inl (λ e. cc e))

ensure_index_from-ends :
    (db : Option Table) (path : Bytes) (a : OpenAnswers) (d : Disk)
    → d.db ≡ db
    → let r = ensure_index_from db path a d in
      (rows_of r.1.db ≡ rows_of d.db) × ((r.0 ≢ ok tt) ⊎ (r.1.db ≡ some (rows_of d.db)))
unfolding ensure_index_from
ensure_index_from-ends (some table) path a d h = rw h (refl, inr refl)
ensure_index_from-ends none path a d h = HasFile-ends d.db _ (create_index-HasFile path a d)

-- Whatever the system answers, the start of the server leaves the rows of the index as they are, and
-- if it succeeds there is an index file with them.
pub ensure_index_exists-keeps :
    (path : Bytes) (a : OpenAnswers) (d : Disk)
    → let r = ensure_index_exists path a d in
      (rows_of r.1.db ≡ rows_of d.db) × ((r.0 ≢ ok tt) ⊎ (r.1.db ≡ some (rows_of d.db)))
unfolding ensure_index_exists
ensure_index_exists-keeps path a d = ensure_index_from-ends d.db path a d refl
