-- ===== src/Follow/Chunks.antt =====
-- The lines that a tailer returns do not depend on how the file's bytes come in over its calls.
-- The bytes of the reads of one call, if no read failed.
use logdive.Prelude.{
  ◌++◌, Option, [], none, some, ◌≡◌, ◌≤◌, ◌+◌, List, Option-cases, all, arith, inl, inr, length,
  map, true, ◌∙◌, ◌∷◌, ap, append-nil, append_assoc, length-append, sym, refl, ◌<◌, ◌≢◌, ◌⊎◌,
}
use logdive.Follow.Tailer.{
  Answers, FileTailer, Metadata, Reads, advance, check_path, chunk, end_of_file, go_on, present,
  read_all, read_error, would_block, Outcome, read_new_lines, Checked, after_check, gone, opened,
  take_lines,
}
use logdive.Bytes.{Bytes}
use logdive.Prelude.Result.{ok, ◌>>=◌, err, out_of_fuel}
use logdive.Follow.Lines.{
  not_newline, split_lines, split_lines-append, split_lines_none, split_lines_rest,
}
use mathlib.Core.List.{map-append}

abbrev pub bytes_read : Reads → Option Bytes
bytes_read (chunk bytes more) = elim (bytes_read more) [
  | none ↦ none
  | some rest ↦ some (bytes ++ rest)
]
bytes_read end_of_file = some []
bytes_read would_block = some []
bytes_read read_error = none

-- The path still names the open file, which is no shorter than what was read of it.
pub record IsUndisturbed (a : Answers) (t : FileTailer) : Type 0 where
  pub meta : Metadata
  pub is_present : a.path_metadata ≡ present meta
  pub same_ino : meta.ino ≡ t.inode
  pub same_dev : meta.dev ≡ t.dev
  pub not_shorter : t.offset ≤ meta.len

check_path-IsUndisturbed :
    (a : Answers) (t : FileTailer)
    → IsUndisturbed a t
    → check_path a.path_metadata a t ≡ (ok go_on, t)
unfolding check_path
check_path-IsUndisturbed a t u = rw u.is_present (ground arith)

some-eq : {A : Type 0} {a b : A} → some a ≡ some b → a ≡ b
some-eq h = cc

-- The bytes `b` were read behind `raw`.
abbrev has_read : Bytes → FileTailer → Bytes → Outcome Bytes
has_read raw t b = (ok (raw ++ b), advance b t)

advance_nothing : (raw : Bytes) (t : FileTailer) → has_read raw t [] ≡ (ok raw, t)
advance_nothing raw t = rw append-nil (ground arith)

advance_twice :
    (raw bytes rest : Bytes) (t : FileTailer)
    → has_read (raw ++ bytes) (advance bytes t) rest ≡ has_read raw t (bytes ++ rest)
advance_twice raw bytes rest t = rw append_assoc (ground (arith, length-append bytes rest))

read_all-bytes_read :
    (r : Reads) (raw : Bytes) (t : FileTailer) {b : Bytes}
    → bytes_read r ≡ some b
    → read_all r raw t ≡ has_read raw t b
unfolding read_all
read_all-bytes_read (chunk bytes more) raw t {b} h = elim (Option-cases (bytes_read more)) [
  | inl e ↦ cc (rw e at h)
  | inr (rest, e) ↦
      (let whole : bytes ++ rest ≡ b = cc (rw e at h) in
        read_all-bytes_read more (raw ++ bytes) (advance bytes t) e
        ∙ advance_twice raw bytes rest t
        ∙ ap (has_read raw t) whole)
]
read_all-bytes_read end_of_file raw t h =
    sym (advance_nothing raw t) ∙ ap (has_read raw t) (some-eq h)
read_all-bytes_read would_block raw t h =
    sym (advance_nothing raw t) ∙ ap (has_read raw t) (some-eq h)
read_all-bytes_read read_error raw t h = cc h

module _ (from_utf8_lossy : Bytes → Bytes) where
  read_new_lines-IsUndisturbed :
      (a : Answers) (t : FileTailer) {b : Bytes}
      → IsUndisturbed a t
      → bytes_read a.reads ≡ some b
      → read_new_lines from_utf8_lossy a t ≡ (
        ok (map from_utf8_lossy (split_lines (t.leftover ++ b)).0),
        record (advance b t) { leftover = (split_lines (t.leftover ++ b)).1 },
      )
  unfolding read_new_lines
  read_new_lines-IsUndisturbed a t u h =
      rw (check_path-IsUndisturbed a t u) (rw (read_all-bytes_read a.reads [] t h))

  -- Calls one after another, with all the lines that they return.
  unfoldable pub follow : List Answers → FileTailer → Outcome (List Bytes)
  follow [] t = (ok [], t)
  follow (a ∷ more) t =
      let (first, t') = read_new_lines from_utf8_lossy a t in
      let (rest, t'') = follow more t' in
      ((do lines ← first; later ← rest; ok (lines ++ later)), t'')

  -- All the calls are undisturbed, and these are the bytes that they read.
  pub data Delivers : List Answers → FileTailer → Bytes → Type 0 where
    no_calls : {t : FileTailer} → Delivers [] t []
    call :
        {a : Answers} {more : List Answers} {t : FileTailer} {b rest : Bytes}
        → IsUndisturbed a t
        → bytes_read a.reads ≡ some b
        → Delivers more (read_new_lines from_utf8_lossy a t).1 rest
        → Delivers (a ∷ more) t (b ++ rest)

  -- While the path names the open file, the file gets no shorter and no read fails, it does not matter
  -- how the appended bytes are cut up over reads and calls: the calls return together the lines of the
  -- leftover, which has no newline, with those bytes behind it, keep the rest behind the last newline,
  -- and move the offset by the number of the bytes.
  pub follow-Delivers :
      (calls : List Answers) (t : FileTailer) (bytes : Bytes)
      → all not_newline t.leftover ≡ true
      → Delivers calls t bytes
      → ((follow calls t).0 ≡ ok (map from_utf8_lossy (split_lines (t.leftover ++ bytes)).0))
        × ((follow calls t).1.leftover ≡ (split_lines (t.leftover ++ bytes)).1)
        × ((follow calls t).1.offset ≡ t.offset + length bytes)
  unfolding follow
  follow-Delivers [] t _ clean no_calls =
      rw append-nil (rw (split_lines_none t.leftover clean) (refl, refl, omega arith))
  follow-Delivers (a ∷ more) t _ clean (call {b} {rest} u h d) =
      let step = read_new_lines-IsUndisturbed a t u h in
      let (i0, i1, i2) =
        rw step at (follow-Delivers more _ rest (rw step (split_lines_rest (t.leftover ++ b))) d) in
      let whole =
        ap split_lines (sym (append_assoc t.leftover b rest))
        ∙ split_lines-append (t.leftover ++ b) rest in
      rw (step, whole)
        (
          rw i0 (ap ok (sym (map-append from_utf8_lossy _ _))),
          i1,
          omega (arith, i2, length-append b rest),
        )

-- The file at the path was replaced, and the new one could be opened; or it got shorter, and the seek
-- to its beginning worked.
pub data StartsOver (a : Answers) (t : FileTailer) : Type 0 where
  rotated :
      (found new : Metadata)
      → a.path_metadata ≡ present found
      → (found.ino ≢ t.inode) ⊎ (found.dev ≢ t.dev)
      → a.reopened ≡ opened new
      → StartsOver a t
  truncated :
      (found : Metadata)
      → a.path_metadata ≡ present found
      → found.ino ≡ t.inode
      → found.dev ≡ t.dev
      → found.len < t.offset
      → a.seeks ≡ true
      → StartsOver a t

-- The tailer as it goes on after that.
abbrev IsFresh : Outcome Checked → Type 0
IsFresh o = (o.0 ≡ ok go_on) × (o.1.leftover ≡ []) × (o.1.offset ≡ 0) × (o.1.file.position ≡ 0)

check_path-StartsOver :
    (a : Answers) (t : FileTailer) → StartsOver a t → IsFresh (check_path a.path_metadata a t)
unfolding check_path
check_path-StartsOver a t (rotated found new p (inl moved) o) = rw (p, o) (ground arith)
check_path-StartsOver a t (rotated found new p (inr moved) o) = rw (p, o) (ground arith)
check_path-StartsOver a t (truncated found p i d s k) = rw (p, k) (ground arith)

module _ (from_utf8_lossy : Bytes → Bytes) where
  after_check-IsFresh :
      (r : Reads) (o : Outcome Checked) {b : Bytes}
      → IsFresh o
      → bytes_read r ≡ some b
      → ((after_check from_utf8_lossy r o).0 ≡ ok (map from_utf8_lossy (split_lines b).0))
        × ((after_check from_utf8_lossy r o).1.leftover ≡ (split_lines b).1)
        × ((after_check from_utf8_lossy r o).1.offset ≡ length b)
        × ((after_check from_utf8_lossy r o).1.file.position ≡ length b)
  unfolding after_check take_lines
  after_check-IsFresh r (ok go_on, t) (e, no_rest, zero_offset, zero_position) h =
      rw (read_all-bytes_read r [] t h)
        (rw no_rest (refl, refl, omega (arith, zero_offset), omega (arith, zero_position)))
  after_check-IsFresh r (ok gone, t) (e, _, _, _) h = cc e
  after_check-IsFresh r (err x, t) (e, _, _, _) h = cc e
  after_check-IsFresh r (out_of_fuel, t) (e, _, _, _) h = cc e

  -- After a rotation to a file that can be opened, or a truncation with a seek that works, nothing of
  -- the old bytes comes out: if no read fails, the call returns the lines of the bytes that it reads
  -- from the beginning of the file, and keeps the rest and their number.
  pub read_new_lines-StartsOver :
      (a : Answers) (t : FileTailer) (b : Bytes)
      → StartsOver a t
      → bytes_read a.reads ≡ some b
      → ((read_new_lines from_utf8_lossy a t).0 ≡ ok (map from_utf8_lossy (split_lines b).0))
        × ((read_new_lines from_utf8_lossy a t).1.leftover ≡ (split_lines b).1)
        × ((read_new_lines from_utf8_lossy a t).1.offset ≡ length b)
        × ((read_new_lines from_utf8_lossy a t).1.file.position ≡ length b)
  unfolding read_new_lines
  read_new_lines-StartsOver a t b s h =
      after_check-IsFresh a.reads (check_path a.path_metadata a t) (check_path-StartsOver a t s) h
