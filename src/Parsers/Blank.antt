-- ===== src/Parsers/Blank.antt =====
-- What the line parsers of crates/core/src/parsers share: a line that gives no entry.
use logdive.Prelude.Result.{Result}

-- `None`
pub data Skipped : Type 0 where
  skipped : Skipped

abbrev pub LineResult : Type 0 → Type 0
LineResult = Result Skipped
