-- ===== src/Follow/Handle.antt =====
-- The object keeps track of its handle, on every path of a call.
use logdive.Prelude.{
  ◌++◌, Bool, [], all, arith, refl, true, ◌≡◌, false, ◌==◌, Bool-cases, inl, inr, ltb, not, ◌||◌,
}
use logdive.Follow.Tailer.{
  Answers, Checked, FileTailer, OpenAnswer, Outcome, PathAnswer, Reads, absent, advance, check_path,
  chunk, go_on, gone, handle_rotation, open_tailer, opened, present, read_all, read_new_lines,
  refused, take_lines, after_check, handle_truncation, then_go_on,
}
use logdive.Bytes.{Bytes}
use logdive.Prelude.Result.{err, ok, out_of_fuel}
use logdive.Follow.Lines.{not_newline, split_lines_rest}

pub record IsTracking (t : FileTailer) : Type 0 where
  pub offset_is : t.offset ≡ t.file.position
  pub inode_is : t.inode ≡ t.file.file_ino
  pub dev_is : t.dev ≡ t.file.file_dev
  pub no_newline : all not_newline t.leftover ≡ true

-- A tailer that was opened tracks its handle, at the end of the file.
pub open_tailer-IsTracking :
    (answer : OpenAnswer) (seeks : Bool) {t : FileTailer}
    → open_tailer answer seeks ≡ ok t
    → IsTracking t
unfolding open_tailer
open_tailer-IsTracking (opened meta) seeks h = ground arith
open_tailer-IsTracking _ seeks h = cc h

handle_rotation-IsTracking :
    (o : OpenAnswer) (t : FileTailer) → IsTracking t → IsTracking (handle_rotation o t).1
unfolding handle_rotation
handle_rotation-IsTracking (opened meta) t h = record {
  offset_is = refl;
  inode_is = refl;
  dev_is = refl;
  no_newline = refl;
}
handle_rotation-IsTracking _ t h = h

then_go_on-IsTracking : (o : Outcome Unit) → IsTracking o.1 → IsTracking (then_go_on o).1
then_go_on-IsTracking (ok _, t) h = h
then_go_on-IsTracking (err e, t) h = h
then_go_on-IsTracking (out_of_fuel, t) h = h

handle_truncation-IsTracking :
    (s : Bool) (t : FileTailer) → s ≡ true → IsTracking t → IsTracking (handle_truncation s t).1
unfolding handle_truncation
handle_truncation-IsTracking true t s h = record {
  offset_is = refl;
  inode_is = h.inode_is;
  dev_is = h.dev_is;
  no_newline = refl;
}
handle_truncation-IsTracking false t s h = cc s

check_path-IsTracking :
    (p : PathAnswer) (a : Answers) (t : FileTailer)
    → a.seeks ≡ true
    → IsTracking t
    → IsTracking (check_path p a t).1
unfolding check_path
check_path-IsTracking (present meta) a t s h =
    elim (Bool-cases (not (meta.ino == t.inode) || not (meta.dev == t.dev))) [
      | inl moved ↦ rw moved (
          then_go_on-IsTracking (handle_rotation a.reopened t)
            (handle_rotation-IsTracking a.reopened t h))
      | inr same ↦ rw same (elim (Bool-cases (ltb meta.len t.offset)) [
        | inl shorter ↦ rw shorter (
            then_go_on-IsTracking (handle_truncation a.seeks t)
              (handle_truncation-IsTracking a.seeks t s h))
        | inr longer ↦ rw longer h
      ])
    ]
check_path-IsTracking absent a t s h = h
check_path-IsTracking refused a t s h = h

read_all-IsTracking :
    (r : Reads) (raw : Bytes) (t : FileTailer) → IsTracking t → IsTracking (read_all r raw t).1
unfolding read_all
read_all-IsTracking (chunk bytes more) raw t h =
    read_all-IsTracking more (raw ++ bytes) (advance bytes t) (record {
      offset_is = omega (arith, h.offset_is);
      inode_is = h.inode_is;
      dev_is = h.dev_is;
      no_newline = h.no_newline;
    })
read_all-IsTracking _ raw t h = h

module _ (from_utf8_lossy : Bytes → Bytes) where
  take_lines-IsTracking :
      (o : Outcome Bytes) → IsTracking o.1 → IsTracking (take_lines from_utf8_lossy o).1
  unfolding take_lines
  take_lines-IsTracking (ok raw, t) h = record {
    offset_is = h.offset_is;
    inode_is = h.inode_is;
    dev_is = h.dev_is;
    no_newline = split_lines_rest (t.leftover ++ raw);
  }
  take_lines-IsTracking (err e, t) h = h
  take_lines-IsTracking (out_of_fuel, t) h = h

  after_check-IsTracking :
      (r : Reads) (o : Outcome Checked)
      → IsTracking o.1
      → IsTracking (after_check from_utf8_lossy r o).1
  unfolding after_check
  after_check-IsTracking r (ok go_on, t) h =
      take_lines-IsTracking (read_all r [] t) (read_all-IsTracking r [] t h)
  after_check-IsTracking r (ok gone, t) h = h
  after_check-IsTracking r (err e, t) h = h
  after_check-IsTracking r (out_of_fuel, t) h = h

  -- Whatever the system answers, with rotation, truncation and errors, a call leaves the tailer tracking
  -- its handle, provided that a seek that it asks for does not fail.
  pub read_new_lines-IsTracking :
      (a : Answers) (t : FileTailer)
      → a.seeks ≡ true
      → IsTracking t
      → IsTracking (read_new_lines from_utf8_lossy a t).1
  unfolding read_new_lines
  read_new_lines-IsTracking a t s h =
      after_check-IsTracking a.reads (check_path a.path_metadata a t)
        (check_path-IsTracking a.path_metadata a t s h)
