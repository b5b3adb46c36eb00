-- ===== src/Indexer/Open.antt =====
-- `db_path`, `ensure_parent_dir` and the ways to open an index of crates/core/src/indexer.rs, on a disk that
-- has the database file or not. What the system and SQLite answer is in `OpenAnswers`.
use logdive.Prelude.{◌==◌, Bool, Option, [], if◌then◌else◌, none, some, true, ◌∷◌}
use logdive.Bytes.{Bytes, codes, is_empty}
use logdive.Error.{Outcome, io, raised, sqlite}
use logdive.Prelude.Result.{Result, err, ok, out_of_fuel}
use logdive.Indexer.Table.{Table}
use logdive.Indexer.Stats.{from_sqlite}

-- The rows of the file, if there is one, and whether its directory is there.
pub record Disk : Type 0 where
  pub db : Option Table
  pub parent_exists : Bool

pub record OpenAnswers : Type 0 where
  pub parent : Option Bytes
  pub makes_parent : Result Bytes Unit
  pub creates_dir : Result Bytes Unit
  pub opens : Result Bytes Unit
  pub inits : Result Bytes Unit

abbrev pub OnDisk : Type 0 → Type 0
OnDisk A = Outcome A × Disk

-- `Path::join` with a relative path.
join_path : Bytes → Bytes → Bytes
join_path [] p = p
join_path (b ∷ []) p = if b == b'/' then b ∷ p else b ∷ b'/' ∷ p
join_path (b ∷ c ∷ s) p = b ∷ join_path (c ∷ s) p

abbrev home_or_dot : Option Bytes → Bytes
home_or_dot none = codes "."
home_or_dot (some home) = home

-- With `$HOME`.
unfoldable pub db_path : Option Bytes → Option Bytes → Bytes
unfolding join_path
db_path (some path) home = path
db_path none home = join_path (join_path (home_or_dot home) (codes ".logdive")) (codes "index.db")

-- The rows of the file, of which a missing one has none.
abbrev pub rows_of : Option Table → Table
rows_of none = []
rows_of (some table) = table

unfoldable pub create_dir : Bytes → Result Bytes Unit → Disk → OnDisk Unit
create_dir path (ok _) d = (ok tt, record d { parent_exists = true })
create_dir path (err detail) d = (err (raised (io path detail)), d)
create_dir path out_of_fuel d = (out_of_fuel, d)

unfoldable pub ensure_parent_dir : OpenAnswers → Option Bytes → Disk → OnDisk Unit
unfolding create_dir is_empty
ensure_parent_dir a none d = (ok tt, d)
ensure_parent_dir a (some parent) d =
    if is_empty parent then (ok tt, d) else create_dir parent a.creates_dir d

-- `Connection::open` makes an empty file where there is none, and `init_schema` keeps what there is.
unfoldable pub connect : Result Bytes Unit → Result Bytes Unit → Disk → OnDisk Unit
unfolding from_sqlite
connect (ok _) inits d = (from_sqlite inits, record d { db = some (rows_of d.db) })
connect (err detail) inits d = (err (raised (sqlite detail)), d)
connect out_of_fuel inits d = (out_of_fuel, d)

abbrev pub on_disk_then : OnDisk Unit → (Disk → OnDisk Unit) → OnDisk Unit
on_disk_then (ok _, d) more = more d
on_disk_then (err e, d) more = (err e, d)
on_disk_then (out_of_fuel, d) more = (out_of_fuel, d)

-- `Indexer::open`
unfoldable pub open_index : OpenAnswers → Disk → OnDisk Unit
unfolding ensure_parent_dir connect
open_index a d = on_disk_then (ensure_parent_dir a a.parent d) (connect a.opens a.inits)

-- `Indexer::open_read_only`: no file is made, and no schema.
unfoldable pub open_read_only : OpenAnswers → Disk → OnDisk Unit
unfolding from_sqlite
open_read_only a d = (from_sqlite a.opens, d)
