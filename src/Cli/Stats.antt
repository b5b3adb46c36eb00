-- ===== src/Cli/Stats.antt =====
-- crates/cli/src/stats_cmd.rs: the report of `stats`. A path's text is its bytes; `{:.1}` of a quotient of
-- two f64 is a parameter.
use logdive.Prelude.{
  ◌%◌, ◌&&◌, ◌++◌, ◌==◌, Bool, List, Option, String, [], false, if◌then◌else◌, leb, length, none,
  not, some, true, ℕ, ◌∷◌,
}
use logdive.Indexer.Stats.{Aggregates, Stats, stats}
use logdive.Bytes.{Bytes, codes}
use logdive.Error.{Outcome, io, raised}
use logdive.Prelude.Result.{Result, err, ok, out_of_fuel, ◌>>=◌}
use logdive.Bytes.Decimal.{decimal}
use logdive.Executor.Sql.{join}

unfoldable pub separate : Bool → Bytes → Bytes
separate is_first [] = []
separate is_first (b ∷ s) =
    (if not is_first && length (b ∷ s) % 3 == 0 then b',' ∷ [] else []) ++ (b ∷ separate false s)

unfoldable pub with_thousands_separator : ℕ → Bytes
unfolding separate decimal
with_thousands_separator n = separate true (decimal n)

abbrev kb : ℕ
kb = 1_000

abbrev mb : ℕ
mb = 1_000_000

abbrev gb : ℕ
gb = 1_000_000_000

module _ (one_decimal : ℕ → ℕ → Bytes) where
  unfoldable pub size_words : ℕ → Bytes
  unfolding decimal
  size_words bytes =
      if leb gb bytes
      then one_decimal bytes gb ++ codes " GB"
      else if leb mb bytes
      then one_decimal bytes mb ++ codes " MB"
      else if leb kb bytes
      then one_decimal bytes kb ++ codes " KB"
      else decimal bytes ++ codes " bytes"

  unfoldable pub format_size : ℕ → Bytes
  unfolding size_words with_thousands_separator
  format_size bytes =
      if leb kb bytes
      then size_words bytes ++ (codes " (" ++ (with_thousands_separator bytes ++ codes " bytes)"))
      else size_words bytes

-- The loop of `format_tags`: the named tags, and whether there is one without a name.
unfoldable pub named : List (Option Bytes) → List Bytes × Bool
named [] = ([], false)
named (some tag ∷ tags) = let (names, has_untagged) = named tags in (tag ∷ names, has_untagged)
named (none ∷ tags) = let (names, has_untagged) = named tags in (names, true)

unfoldable pub format_tags : List (Option Bytes) → Bytes
unfolding named join
format_tags [] = codes "(none)"
format_tags (t ∷ ts) =
    let (names, has_untagged) = named (t ∷ ts) in
    join (codes ", ") (names ++ (if has_untagged then codes "(untagged)" ∷ [] else []))

-- An arrow, U+2192, in UTF-8.
abbrev arrow : Bytes
arrow = b' ' ∷ 0xE2 ∷ 0x86 ∷ 0x92 ∷ b' ' ∷ []

unfoldable pub format_range : Option Bytes → Option Bytes → Bytes
format_range (some first) (some last) = first ++ (arrow ++ last)
format_range _ _ = codes "(empty)"

unfoldable pub format_time_range : Stats → Bytes
unfolding format_range
format_time_range s = format_range s.min_timestamp s.max_timestamp

abbrev line : String → Bytes → Bytes → Bytes
line label value rest = codes label ++ (value ++ rest)

unfoldable pub format_stats : (ℕ → ℕ → Bytes) → Bytes → Stats → ℕ → Bytes
unfolding format_size format_tags format_time_range with_thousands_separator
format_stats one_decimal db s size = line "logdive index: " db (
    b'\n'
    ∷ line "  Entries:       " (with_thousands_separator s.entries) (
        b'\n'
        ∷ line "  Time range:    " (format_time_range s) (
            b'\n'
            ∷ line "  Tags:          " (format_tags s.tags)
                (b'\n' ∷ line "  DB size:       " (format_size one_decimal size) []))))

-- What the system answers to `run_stats`: whether the path is there, the opened index, the file's size.
pub record StatsWorld : Type 0 where
  pub exists : Bool
  pub opening : Outcome Aggregates
  pub file_size : Result Bytes ℕ

unfoldable pub size_of : Bytes → Result Bytes ℕ → Outcome ℕ
size_of db (ok n) = ok n
size_of db (err detail) = err (raised (io db detail))
size_of db out_of_fuel = out_of_fuel

-- The text printed.
unfoldable pub run_stats : (ℕ → ℕ → Bytes) → Bytes → StatsWorld → Outcome Bytes
unfolding format_stats size_of stats
run_stats one_decimal db w =
    if not w.exists
    then err (
        raised (io db (codes "no index found at " ++ (db ++ codes "; run `logdive ingest` first"))))
    else (do
      aggregates ← w.opening
      found ← stats aggregates
      size ← size_of db w.file_size
      ok (format_stats one_decimal db found size))
