-- ===== src/Follow/Tailer.antt =====
-- `FileTailer` of crates/core/src/follow.rs. A call takes what the operating system answers during it.
-- The open handle keeps its file and its own position, which `offset`, `inode` and `dev` track.
use logdive.Prelude.{◌+◌, ◌++◌, ◌==◌, Bool, List, [], if◌then◌else◌, length, ltb, map, not, ◌||◌, ℕ}
use logdive.Bytes.{Bytes}
use logdive.Prelude.Result.{Result, err, ok, out_of_fuel}
use logdive.Follow.Lines.{split_lines}

pub record Metadata : Type 0 where
  pub dev : ℕ
  pub ino : ℕ
  pub len : ℕ

-- The answer to `metadata(path)`.
pub data PathAnswer : Type 0 where
  present : Metadata → PathAnswer
  absent : PathAnswer
  refused : PathAnswer

-- The answer to `File::open(path)`, with that to the handle's `metadata()`.
pub data OpenAnswer : Type 0 where
  opened : Metadata → OpenAnswer
  no_metadata : OpenAnswer
  not_found : OpenAnswer
  not_opened : OpenAnswer

-- The answers of `read`, up to one that ends the loop.
pub data Reads : Type 0 where
  chunk : Bytes → Reads → Reads
  end_of_file : Reads
  would_block : Reads
  read_error : Reads

pub record Answers : Type 0 where
  pub path_metadata : PathAnswer
  pub reopened : OpenAnswer
  pub seeks : Bool
  pub reads : Reads

-- The open handle: its file, and where its next read begins.
pub record Handle : Type 0 where
  pub file_dev : ℕ
  pub file_ino : ℕ
  pub position : ℕ

pub record FileTailer : Type 0 where
  pub file : Handle
  pub offset : ℕ
  pub inode : ℕ
  pub dev : ℕ
  pub leftover : Bytes

-- `LogdiveError::Io`
pub data IoError : Type 0 where
  io_at_path : IoError

-- A method's result, and the object that it leaves.
abbrev pub Outcome : Type 0 → Type 0
Outcome A = Result IoError A × FileTailer

-- `FileTailer::open`
unfoldable pub open_tailer : OpenAnswer → Bool → Result IoError FileTailer
open_tailer (opened meta) seeks =
    if seeks
    then ok (record {
      file = record { file_dev = meta.dev; file_ino = meta.ino; position = meta.len };
      offset = meta.len;
      inode = meta.ino;
      dev = meta.dev;
      leftover = [];
    })
    else err io_at_path
open_tailer _ seeks = err io_at_path

-- `handle_rotation`
unfoldable pub handle_rotation : OpenAnswer → FileTailer → Outcome Unit
handle_rotation (opened meta) t = (
  ok tt,
  record t {
    file = record { file_dev = meta.dev; file_ino = meta.ino; position = 0 };
    offset = 0;
    inode = meta.ino;
    dev = meta.dev;
    leftover = [];
  },
)
handle_rotation not_found t = (ok tt, t)
handle_rotation _ t = (err io_at_path, t)

-- The branch on truncation: the offset and the leftover go before the seek, which may fail.
unfoldable pub handle_truncation : Bool → FileTailer → Outcome Unit
handle_truncation seeks t =
    let reset = record t { offset = 0; leftover = [] } in
    if seeks
    then (ok tt, record reset { file = record t.file { position = 0 } })
    else (err io_at_path, reset)

-- What the check before the read found.
pub data Checked : Type 0 where
  go_on : Checked
  gone : Checked

abbrev pub then_go_on : Outcome Unit → Outcome Checked
then_go_on (ok _, t) = (ok go_on, t)
then_go_on (err e, t) = (err e, t)
then_go_on (out_of_fuel, t) = (out_of_fuel, t)

unfoldable pub check_path : PathAnswer → Answers → FileTailer → Outcome Checked
unfolding handle_rotation handle_truncation
check_path (present meta) a t =
    if not (meta.ino == t.inode) || not (meta.dev == t.dev)
    then then_go_on (handle_rotation a.reopened t)
    else if ltb meta.len t.offset
    then then_go_on (handle_truncation a.seeks t)
    else (ok go_on, t)
check_path absent a t = (ok gone, t)
check_path refused a t = (err io_at_path, t)

abbrev pub advance : Bytes → FileTailer → FileTailer
advance bytes t = record t {
  offset = t.offset + length bytes;
  file = record t.file { position = t.file.position + length bytes };
}

-- The read loop: the bytes behind those of `raw_bytes`.
unfoldable pub read_all : Reads → Bytes → FileTailer → Outcome Bytes
read_all (chunk bytes more) raw_bytes t = read_all more (raw_bytes ++ bytes) (advance bytes t)
read_all end_of_file raw_bytes t = (ok raw_bytes, t)
read_all would_block raw_bytes t = (ok raw_bytes, t)
read_all read_error raw_bytes t = (err io_at_path, t)

module _ (from_utf8_lossy : Bytes → Bytes) where
  -- The leftover goes in front of what was read, and the complete lines come out.
  unfoldable pub take_lines : Outcome Bytes → Outcome (List Bytes)
  take_lines (ok raw_bytes, t) =
      let (lines, left) = split_lines (t.leftover ++ raw_bytes) in
      (ok (map from_utf8_lossy lines), record t { leftover = left })
  take_lines (err e, t) = (err e, t)
  take_lines (out_of_fuel, t) = (out_of_fuel, t)

  unfoldable pub after_check : Reads → Outcome Checked → Outcome (List Bytes)
  after_check reads (ok go_on, t) = take_lines (read_all reads [] t)
  after_check reads (ok gone, t) = (ok [], t)
  after_check reads (err e, t) = (err e, t)
  after_check reads (out_of_fuel, t) = (out_of_fuel, t)

  unfoldable pub read_new_lines : Answers → FileTailer → Outcome (List Bytes)
  unfolding after_check take_lines read_all check_path
  read_new_lines a t = after_check a.reads (check_path a.path_metadata a t)
