-- ===== src/Error.antt =====
-- crates/core/src/error.rs: `LogdiveError` and its messages. The messages of rusqlite, of serde_json and
-- of the operating system come with the errors, as texts. A call may also panic.
use logdive.Prelude.{◌++◌}
use logdive.Bytes.{Bytes, codes}
use logdive.Executor.Failure.{Failure}
use logdive.Query.Token.{Message, QueryParseError}
use logdive.Prelude.Result.{Result}
use logdive.Bytes.Decimal.{decimal}

pub data LogdiveError : Type 0 where
  query_parse : QueryParseError → LogdiveError
  invalid_datetime : Bytes → Bytes → LogdiveError
  unsafe_field_name : Bytes → LogdiveError
  corrupt_fields_json : Bytes → LogdiveError
  sqlite : Bytes → LogdiveError
  io : Bytes → Bytes → LogdiveError
  io_bare : Bytes → LogdiveError
  json : Bytes → LogdiveError

pub data Thrown : Type 0 where
  raised : LogdiveError → Thrown
  panicked : Thrown

abbrev pub Outcome : Type 0 → Type 0
Outcome = Result Thrown

-- `{:?}` of a text, and the words of a parse error's message.
module _ (debug : Bytes → Bytes) (words : Message → Bytes) where
  -- `QueryParseError`'s `Display`
  unfoldable pub display_parse_error : QueryParseError → Bytes
  display_parse_error e =
      codes "query parse error at position "
      ++ (decimal e.position ++ (codes ": " ++ words e.message))

  unfoldable pub display_error : LogdiveError → Bytes
  unfolding display_parse_error
  display_error (query_parse e) = display_parse_error e
  display_error (invalid_datetime input reason) =
      codes "invalid datetime " ++ (debug input ++ (codes ": " ++ reason))
  display_error (unsafe_field_name field) = codes "unsafe field name " ++ debug field
  display_error (corrupt_fields_json detail) = codes "corrupt fields JSON in row: " ++ detail
  display_error (sqlite detail) = codes "sqlite error: " ++ detail
  display_error (io path detail) = codes "io error at " ++ (path ++ (codes ": " ++ detail))
  display_error (io_bare detail) = codes "io error: " ++ detail
  display_error (json detail) = codes "json error: " ++ detail

-- What `parse_datetime` of crates/core/src/executor.rs gives as the reason.
abbrev pub datetime_reason : Bytes
datetime_reason = codes "expected RFC3339, `YYYY-MM-DD HH:MM:SS`, or `YYYY-MM-DD`"

unfoldable pub from_failure : Failure → Thrown
from_failure (Failure.unsafe_field_name field) = raised (unsafe_field_name field)
from_failure (Failure.invalid_datetime input) = raised (invalid_datetime input datetime_reason)
from_failure Failure.panic = panicked
