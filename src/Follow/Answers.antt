-- ===== src/Follow/Answers.antt =====
-- Results and errors of the methods of `FileTailer` in crates/core/src/follow.rs.
use logdive.Prelude.{Bool-cases, inl, inr, ltb, not, Bool, ◌==◌, ◌||◌, ◌++◌, [], false, true}
use logdive.Bytes.{Bytes}
use logdive.Follow.Tailer.{
  Answers, Checked, FileTailer, IoError, OpenAnswer, Outcome, PathAnswer, Reads, absent, advance,
  after_check, check_path, chunk, end_of_file, go_on, gone, handle_rotation, handle_truncation,
  no_metadata, not_found, not_opened, opened, present, read_all, read_error, read_new_lines,
  refused, take_lines, then_go_on, would_block,
}
use logdive.Prelude.Result.{err, ok}

pub data IsAnswer {A : Type 0} : Outcome A → Type 0 where
  answers_ok : {a : A} {t : FileTailer} → IsAnswer (ok a, t)
  answers_err : {e : IoError} {t : FileTailer} → IsAnswer (err e, t)

handle_rotation-IsAnswer : (o : OpenAnswer) (t : FileTailer) → IsAnswer (handle_rotation o t)
unfolding handle_rotation
handle_rotation-IsAnswer (opened meta) t = answers_ok
handle_rotation-IsAnswer not_found t = answers_ok
handle_rotation-IsAnswer no_metadata t = answers_err
handle_rotation-IsAnswer not_opened t = answers_err

handle_truncation-IsAnswer : (seeks : Bool) (t : FileTailer) → IsAnswer (handle_truncation seeks t)
unfolding handle_truncation
handle_truncation-IsAnswer true t = answers_ok
handle_truncation-IsAnswer false t = answers_err

then_go_on-IsAnswer : {o : Outcome Unit} → IsAnswer o → IsAnswer (then_go_on o)
then_go_on-IsAnswer answers_ok = answers_ok
then_go_on-IsAnswer answers_err = answers_err

check_path-IsAnswer : (p : PathAnswer) (a : Answers) (t : FileTailer) → IsAnswer (check_path p a t)
unfolding check_path
check_path-IsAnswer (present meta) a t =
    elim (Bool-cases (not (meta.ino == t.inode) || not (meta.dev == t.dev))) [
      | inl other_file ↦ rw other_file (then_go_on-IsAnswer (handle_rotation-IsAnswer a.reopened t))
      | inr same ↦ elim (Bool-cases (ltb meta.len t.offset)) [
        | inl shorter ↦
            rw (same, shorter) (then_go_on-IsAnswer (handle_truncation-IsAnswer a.seeks t))
        | inr longer ↦ rw (same, longer) answers_ok
      ]
    ]
check_path-IsAnswer absent a t = answers_ok
check_path-IsAnswer refused a t = answers_err

read_all-IsAnswer :
    (r : Reads) (raw_bytes : Bytes) (t : FileTailer) → IsAnswer (read_all r raw_bytes t)
unfolding read_all
read_all-IsAnswer (chunk bytes more) raw_bytes t =
    read_all-IsAnswer more (raw_bytes ++ bytes) (advance bytes t)
read_all-IsAnswer end_of_file raw_bytes t = answers_ok
read_all-IsAnswer would_block raw_bytes t = answers_ok
read_all-IsAnswer read_error raw_bytes t = answers_err

module _ (from_utf8_lossy : Bytes → Bytes) where
  take_lines-IsAnswer : {o : Outcome Bytes} → IsAnswer o → IsAnswer (take_lines from_utf8_lossy o)
  unfolding take_lines
  take_lines-IsAnswer answers_ok = answers_ok
  take_lines-IsAnswer answers_err = answers_err

  after_check-IsAnswer :
      (reads : Reads) {o : Outcome Checked}
      → IsAnswer o
      → IsAnswer (after_check from_utf8_lossy reads o)
  unfolding after_check
  after_check-IsAnswer reads (answers_ok {a = go_on} {t}) =
      take_lines-IsAnswer (read_all-IsAnswer reads [] t)
  after_check-IsAnswer reads (answers_ok {a = gone}) = answers_ok
  after_check-IsAnswer reads answers_err = answers_err

  pub read_new_lines-IsAnswer :
      (a : Answers) (t : FileTailer) → IsAnswer (read_new_lines from_utf8_lossy a t)
  unfolding read_new_lines
  read_new_lines-IsAnswer a t =
      after_check-IsAnswer a.reads (check_path-IsAnswer a.path_metadata a t)
