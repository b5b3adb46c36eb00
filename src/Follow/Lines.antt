-- ===== src/Follow/Lines.antt =====
-- The splitting of bytes into complete lines in `FileTailer::read_new_lines`.
use logdive.Prelude.{
  ◌+◌, ◌++◌, ◌==◌, Bool, Bool-cases, List, [], append-nil, drop_while, if◌then◌else◌, inl, inr,
  length, not, refl, suc, take_while, zero, ℕ, ◌∷◌, ◌≡◌, ◌<◌, ap, append_assoc, arith, tail_eq,
  ==_iff, all, all-append, drop_while-all, length-drop_while, sym, true, ◌∙◌, false, head_eq, ◌≢◌,
}
use logdive.Bytes.{Bytes}

abbrev pub newline : ℕ
newline = 10

abbrev pub not_newline : ℕ → Bool
not_newline b = not (b == newline)

-- A line without the carriage return at its end.
unfoldable pub strip_cr : Bytes → Bytes
strip_cr [] = []
strip_cr (c ∷ []) = if c == 13 then [] else c ∷ []
strip_cr (c ∷ d ∷ s) = c ∷ strip_cr (d ∷ s)

abbrev pub Split : Type 0
Split = List Bytes × Bytes

-- More lines in front.
abbrev pub with_lines : List Bytes → Split → Split
with_lines lines (more, left) = (lines ++ more, left)

-- The complete lines, and the bytes behind the last newline. One unit of fuel goes to each line, and
-- one to the rest.
split_from : ℕ → Bytes → Split
split_from zero bytes = ([], bytes)
split_from (suc fuel) bytes = elim (drop_while not_newline bytes) [
  | [] ↦ ([], bytes)
  | _ ∷ rest ↦ with_lines (strip_cr (take_while not_newline bytes) ∷ []) (split_from fuel rest)
]

unfoldable pub split_lines : Bytes → Split
unfolding split_from strip_cr
split_lines bytes = split_from (length bytes + 1) bytes

-- The same, one byte at a time: `line` is what stands before `bytes` on its line.
split_after : Bytes → Bytes → Split
split_after line [] = ([], line)
split_after line (c ∷ s) =
    let ended = with_lines (strip_cr line ∷ []) (split_after [] s) in
    let more = split_after (line ++ c ∷ []) s in if c == newline then ended else more

split_after-append :
    (line a b : Bytes)
    → split_after line (a ++ b)
      ≡ with_lines (split_after line a).0 (split_after (split_after line a).1 b)
unfolding split_after
split_after-append line [] b = refl
split_after-append line (c ∷ a) b = elim (Bool-cases (c == newline)) [
  | inl e ↦ rw e (rw (split_after-append [] a b))
  | inr e ↦ rw e (split_after-append (line ++ c ∷ []) a b)
]

-- What a scan to the next newline finds: none, or the rest of the line and what is behind it.
split_after-none :
    (line bytes : Bytes)
    → drop_while not_newline bytes ≡ []
    → split_after line bytes ≡ ([], line ++ bytes)
unfolding split_after
split_after-none line [] h = rw append-nil
split_after-none line (c ∷ s) h = elim (Bool-cases (c == newline)) [
  | inl e ↦ cc (rw e at h)
  | inr e ↦ rw e (rw (split_after-none (line ++ c ∷ []) s (rw e at h)) (rw append_assoc))
]

split_after-some :
    (line bytes : Bytes) {c : ℕ} {rest : Bytes}
    → drop_while not_newline bytes ≡ c ∷ rest
    → split_after line bytes
      ≡ with_lines (strip_cr (line ++ take_while not_newline bytes) ∷ []) (split_after [] rest)
unfolding split_after
split_after-some line [] h = cc h
split_after-some line (d ∷ s) {rest} h = elim (Bool-cases (d == newline)) [
  | inl e ↦ rw e (
      rw append-nil
        (ap (λ r. with_lines (strip_cr line ∷ []) (split_after [] r)) (tail_eq (rw e at h))))
  | inr e ↦ rw e (rw (split_after-some (line ++ d ∷ []) s (rw e at h)) (rw append_assoc))
]

split_from-split_after :
    (fuel : ℕ) (bytes : Bytes) → length bytes < fuel → split_from fuel bytes ≡ split_after [] bytes
unfolding split_from
split_from-split_after zero bytes h = absurd (omega arith)
split_from-split_after (suc fuel) bytes h =
    go (drop_while not_newline bytes) refl (split_from-split_after fuel)
  where
    go :
        (found : Bytes)
        → drop_while not_newline bytes ≡ found
        → ((rest : Bytes) → length rest < fuel → split_from fuel rest ≡ split_after [] rest)
        → split_from (suc fuel) bytes ≡ split_after [] bytes
    go [] e ih = rw (e, split_from) (sym (split_after-none [] bytes e))
    go (c ∷ rest) e ih =
        rw (e, split_from)
          (rw (ih rest (omega (arith, ap length e, length-drop_while not_newline bytes)))
            (sym (split_after-some [] bytes e)))

split_lines-split_after : (bytes : Bytes) → split_lines bytes ≡ split_after [] bytes
unfolding split_lines
split_lines-split_after bytes = split_from-split_after (length bytes + 1) bytes (omega arith)

-- No newline is left behind the last line.
split_after_rest :
    (line bytes : Bytes)
    → all not_newline line ≡ true
    → all not_newline (split_after line bytes).1 ≡ true
unfolding split_after
split_after_rest line [] h = h
split_after_rest line (c ∷ s) h = elim (Bool-cases (c == newline)) [
  | inl e ↦ rw e (split_after_rest [] s refl)
  | inr e ↦
      rw e (split_after_rest (line ++ c ∷ []) s (all-append not_newline line (c ∷ []) h (rw e)))
]

pub split_lines_rest : (bytes : Bytes) → all not_newline (split_lines bytes).1 ≡ true
split_lines_rest bytes = rw split_lines-split_after (split_after_rest [] bytes refl)

-- Bytes with no newline are no complete line.
pub split_lines_none :
    (bytes : Bytes) → all not_newline bytes ≡ true → split_lines bytes ≡ ([], bytes)
split_lines_none bytes h =
    split_lines-split_after bytes ∙ split_after-none [] bytes (drop_while-all not_newline bytes h)

-- Splitting what comes in two parts: the rest of the first goes in front of the second.
pub split_lines-append :
    (a b : Bytes)
    → split_lines (a ++ b) ≡ with_lines (split_lines a).0 (split_lines ((split_lines a).1 ++ b))
split_lines-append a b =
    let r = (split_after [] a).1 in
    let clean = split_after_rest [] a refl in
    let alone = split_after-none [] r (drop_while-all not_newline r clean) in
    simp split_lines-split_after
      (rw (split_after-append [] a b) (rw (split_after-append [] r b) (rw alone)))

-- A line without its end: one carriage return goes, if the line ends with one.
pub data Chomped (line : Bytes) : Bytes → Type 0 where
  chomped : {kept : Bytes} → line ≡ kept ++ (0x0D ∷ []) → Chomped line kept
  unended : ((kept : Bytes) → line ≢ kept ++ (0x0D ∷ [])) → Chomped line line

no_end : (kept : Bytes) → ◌≢◌ {A = Bytes} [] (kept ++ (0x0D ∷ []))
no_end [] h = cc h
no_end (_ ∷ _) h = cc h

Chomped-cons : (c d : ℕ) {s kept : Bytes} → Chomped (d ∷ s) kept → Chomped (c ∷ d ∷ s) (c ∷ kept)
Chomped-cons c d (chomped h) = chomped (ap (λ s. c ∷ s) h)
Chomped-cons c d {s} (unended n) = unended keeps
  where
    keeps : (kept : Bytes) → ◌≢◌ {A = Bytes} (c ∷ d ∷ s) (kept ++ (0x0D ∷ []))
    keeps [] h = cc (tail_eq h)
    keeps (_ ∷ more) h = n more (tail_eq h)

strip_cr-Chomped : (line : Bytes) → Chomped line (strip_cr line)
unfolding strip_cr
strip_cr-Chomped [] = unended no_end
strip_cr-Chomped (c ∷ []) = elim (Bool-cases (c == 13)) [
  | inl e ↦ rw e (chomped (ap (λ x. x ∷ []) ((==_iff c 13).0 e)))
  | inr e ↦ rw e (unended (one_byte e))
]
  where
    one_byte : (c == 13) ≡ false → (kept : Bytes) → (c ∷ []) ≢ kept ++ (0x0D ∷ [])
    one_byte e [] h = cc ((==_iff c 13).1 (head_eq h) ∙ refl, e)
    one_byte e (_ ∷ more) h = no_end more (tail_eq h)
strip_cr-Chomped (c ∷ d ∷ s) = Chomped-cons c d (strip_cr-Chomped (d ∷ s))

-- What the lines of a text are: each ends at a newline, which goes; `rest` is what stands behind the last
-- newline.
pub data Lines : Bytes → List Bytes → Bytes → Type 0 where
  unfinished : {rest : Bytes} → all not_newline rest ≡ true → Lines rest [] rest
  line_then :
      {bytes rest left kept : Bytes} {lines : List Bytes} (line : Bytes)
      → all not_newline line ≡ true
      → bytes ≡ line ++ (newline ∷ rest)
      → Chomped line kept
      → Lines rest lines left
      → Lines bytes (kept ∷ lines) left

split_after-Lines :
    (line bytes : Bytes)
    → all not_newline line ≡ true
    → Lines (line ++ bytes) (split_after line bytes).0 (split_after line bytes).1
unfolding split_after
split_after-Lines line [] h = rw append-nil (unfinished h)
split_after-Lines line (c ∷ s) h = elim (Bool-cases (c == newline)) [
  | inl e ↦ rw e (
      line_then line h (rw ((==_iff c newline).0 e)) (strip_cr-Chomped line)
        (split_after-Lines [] s refl))
  | inr e ↦ rw e (
      rw append_assoc at
        (split_after-Lines (line ++ c ∷ []) s (all-append not_newline line (c ∷ []) h (rw e))))
]

-- Splitting cuts a text at its newlines: each line ends at a newline, which goes, and one carriage
-- return at the end of the line goes with it; no newline is in a line, and what stands behind the last
-- newline is the rest.
pub split_lines-Lines : (bytes : Bytes) → Lines bytes (split_lines bytes).0 (split_lines bytes).1
split_lines-Lines bytes = rw split_lines-split_after (split_after-Lines [] bytes refl)
