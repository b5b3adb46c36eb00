-- ===== src/Api/AppError.antt =====
-- crates/api/src/error.rs: the errors of the HTTP API and their responses. `serde_json`'s writing of a text,
-- the texts of errors and their logging are parameters or left out.
use logdive.Prelude.{◌++◌, Bool, false, if◌then◌else◌, true, ℕ}
use logdive.Bytes.{Bytes, codes}
use logdive.Error.{LogdiveError, display_error, invalid_datetime, query_parse, unsafe_field_name}
use logdive.Query.Token.{Message, QueryParseError}

pub data AppError : Type 0 where
  bad_request : Bytes → AppError
  not_found : Bytes → AppError
  internal : LogdiveError → AppError

pub record Response : Type 0 where
  pub status : ℕ
  pub content_type : Bytes
  pub body : Bytes

-- The variants that `From<LogdiveError>` takes for the client's fault.
unfoldable pub is_client_fault : LogdiveError → Bool
is_client_fault (query_parse _) = true
is_client_fault (invalid_datetime _ _) = true
is_client_fault (unsafe_field_name _) = true
is_client_fault _ = false

module _ (debug : Bytes → Bytes) (words : Message → Bytes) where
  unfoldable pub from_logdive_error : LogdiveError → AppError
  unfolding is_client_fault display_error
  from_logdive_error e =
      if is_client_fault e then bad_request (display_error debug words e) else internal e

  unfoldable pub from_parse_error : QueryParseError → AppError
  unfolding from_logdive_error
  from_parse_error e = from_logdive_error (query_parse e)

module _ (json_string : Bytes → Bytes) where
  -- `ErrorBody` as JSON
  unfoldable pub error_response : ℕ → Bytes → Response
  error_response status message = record {
    status = status;
    content_type = codes "application/json";
    body = codes "{\"error\":" ++ (json_string message ++ codes "}");
  }

  unfoldable pub into_response : AppError → Response
  unfolding error_response
  into_response (bad_request message) = error_response 400 message
  into_response (not_found message) = error_response 404 message
  into_response (internal e) = error_response 500 (codes "internal server error")
