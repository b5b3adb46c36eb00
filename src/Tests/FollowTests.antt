-- ===== src/Tests/FollowTests.antt =====
-- The tailer of crates/core/src/follow.rs over a few calls.
use logdive.Prelude.{◌+◌, ◌++◌, [], arith, inl, length, map, refl, sym, true, ◌∷◌, ◌≡◌, ◌≤◌}
use logdive.Follow.Tailer.{
  Answers, FileTailer, Metadata, Reads, chunk, end_of_file, not_found, opened, present,
  read_new_lines, would_block,
}
use logdive.Bytes.{Bytes, codes}
use logdive.Follow.Chunks.{
  Delivers, IsUndisturbed, StartsOver, call, follow, follow-Delivers, no_calls,
  read_new_lines-StartsOver, rotated,
}
use logdive.Follow.Handle.{IsTracking, read_new_lines-IsTracking}
use logdive.Follow.Lines.{Lines, split_lines, split_lines-Lines}
use logdive.Prelude.Result.{ok}

abbrev pub plain : Bytes → Bytes
plain s = s

abbrev pub log_file : Metadata
log_file = record { dev = 1; ino = 40; len = 12 }

abbrev tailer : FileTailer
tailer = record {
  file = record { file_dev = 1; file_ino = 40; position = 3 };
  offset = 3;
  inode = 40;
  dev = 1;
  leftover = codes "al";
}

tailer-IsTracking : IsTracking tailer
tailer-IsTracking = record { offset_is = refl; inode_is = refl; dev_is = refl; no_newline = refl }

abbrev pub answers : Reads → Answers
answers r = record {
  path_metadata = present log_file;
  reopened = not_found;
  seeks = true;
  reads = r;
}

abbrev pub first_call : Answers
first_call = answers (chunk (b'p' ∷ b'h' ∷ b'a' ∷ 13 ∷ []) (chunk (10 ∷ b'b' ∷ []) end_of_file))

abbrev second_call : Answers
second_call = answers (chunk (b'e' ∷ 10 ∷ b'g' ∷ []) would_block)

abbrev appended : Bytes
appended = b'p' ∷ b'h' ∷ b'a' ∷ 13 ∷ 10 ∷ b'b' ∷ b'e' ∷ 10 ∷ b'g' ∷ []

pub undisturbed :
    (r : Reads) (t : FileTailer)
    → t.inode ≡ 40
    → t.dev ≡ 1
    → t.offset ≤ 12
    → IsUndisturbed (answers r) t
undisturbed r t i d o = record {
  meta = log_file;
  is_present = refl;
  same_ino = sym i;
  same_dev = sym d;
  not_shorter = o;
}

both_calls : Delivers plain (first_call ∷ second_call ∷ []) tailer appended
unfolding read_new_lines split_lines
both_calls =
    call (undisturbed _ tailer refl refl (omega arith)) refl
      (call (undisturbed _ _ refl refl (omega arith)) refl no_calls)

follow_lines :
    (follow plain (first_call ∷ second_call ∷ []) tailer).0 ≡ ok (codes "alpha" ∷ codes "be" ∷ [])
unfolding follow read_new_lines split_lines
follow_lines = refl

follow-Delivers_example :
    ((follow plain (first_call ∷ second_call ∷ []) tailer).0
      ≡ ok (map plain (split_lines (codes "al" ++ appended)).0))
    × ((follow plain (first_call ∷ second_call ∷ []) tailer).1.leftover
        ≡ (split_lines (codes "al" ++ appended)).1)
    × ((follow plain (first_call ∷ second_call ∷ []) tailer).1.offset ≡ 3 + length appended)
follow-Delivers_example =
    follow-Delivers plain (first_call ∷ second_call ∷ []) tailer appended refl both_calls

read_new_lines-IsTracking_example : IsTracking (read_new_lines plain first_call tailer).1
read_new_lines-IsTracking_example =
    read_new_lines-IsTracking plain first_call tailer refl tailer-IsTracking

split_lines-Lines_example : Lines appended (split_lines appended).0 (split_lines appended).1
split_lines-Lines_example = split_lines-Lines appended

abbrev rotation : Answers
rotation = record {
  path_metadata = present (record { dev = 1; ino = 41; len = 3 });
  reopened = opened (record { dev = 1; ino = 41; len = 3 });
  seeks = true;
  reads = chunk (b'x' ∷ 10 ∷ b'y' ∷ []) end_of_file;
}

rotation-StartsOver : StartsOver rotation tailer
rotation-StartsOver =
    rotated (record { dev = 1; ino = 41; len = 3 }) (record { dev = 1; ino = 41; len = 3 }) refl
      (inl (omega arith)) refl

read_new_lines-StartsOver_example :
    ((read_new_lines plain rotation tailer).0
      ≡ ok (map plain (split_lines (b'x' ∷ 10 ∷ b'y' ∷ [])).0))
    × ((read_new_lines plain rotation tailer).1.leftover ≡ (split_lines (b'x' ∷ 10 ∷ b'y' ∷ [])).1)
    × ((read_new_lines plain rotation tailer).1.offset ≡ 3)
    × ((read_new_lines plain rotation tailer).1.file.position ≡ 3)
read_new_lines-StartsOver_example =
    read_new_lines-StartsOver plain rotation tailer (b'x' ∷ 10 ∷ b'y' ∷ []) rotation-StartsOver refl
