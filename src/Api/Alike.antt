-- ===== src/Api/Alike.antt =====
-- What the error responses of crates/api give away of the server: nothing.
use logdive.Prelude.Result.{◌>>=◌, Result, err, ok, out_of_fuel}
use logdive.Api.AppError.{
  AppError, Response, into_response, is_client_fault, error_response, from_logdive_error,
}
use logdive.Bytes.{Bytes, codes}
use logdive.Executor.Run.{execute}
use logdive.Executor.Failure.{QueryOptions}
use logdive.Entry.{Fields, LogEntry}
use logdive.Api.State.{Server, with_connection}
use logdive.Prelude.{
  List, Option, false, none, refl, some, ◌≡◌, Bool-cases, ap, arith, if◌then◌else◌, inl, inr, sym,
  true, ◌∙◌, ℕ, ◌≢◌,
}
use logdive.Error.{LogdiveError, Thrown, raised}
use logdive.Query.Token.{Message, QueryResult}
use logdive.Executor.Chrono.{Chrono}
use logdive.Query.Ast.{QueryNode}
use logdive.Api.Handlers.{
  QueryParams, build_ndjson_response, or_app_error, parsed, query_handler, run_query, options_of,
  query_text, with_query,
}
use logdive.Executor.Translate.{build_sql}
use logdive.Api.Origin.{
  Origin, blocking-RunOrigin, built, failure_of, hidden, join-Origin, run_built-RunOrigin,
}
use logdive.Query.Parser.{parse}

-- The status and the body that go to the client.
abbrev pub respond : (Bytes → Bytes) → Result AppError Response → Option Response
respond json_string (ok r) = some r
respond json_string (err e) = some (into_response json_string e)
respond json_string out_of_fuel = none

pub some_eq : {A : Type 0} {a b : A} → some a ≡ some b → a ≡ b
some_eq h = cc

module _ (debug : Bytes → Bytes) (words : Message → Bytes) (json_string : Bytes → Bytes) where
  abbrev error_answer : LogdiveError → Response
  error_answer e = into_response json_string (from_logdive_error debug words e)

  pub error_answer_hidden :
      (e : LogdiveError)
      → is_client_fault e ≡ false
      → error_answer e ≡ error_response json_string 500 (codes "internal server error")
  unfolding from_logdive_error into_response
  error_answer_hidden e h = rw h refl

  error_answer_status :
      (e : LogdiveError) → (error_answer e).status ≡ (if is_client_fault e then 400 else 500)
  unfolding from_logdive_error into_response error_response
  error_answer_status e = elim (Bool-cases (is_client_fault e)) [
    | inl h ↦ rw h refl
    | inr h ↦ rw h refl
  ]

  is_client_fault-Origin :
      {A : Type 0} {b : Option Thrown} {e : LogdiveError}
      → is_client_fault e ≡ true
      → Origin {A = A} b (err e)
      → b ≡ some (raised e)
  is_client_fault-Origin h (hidden k) = cc
  is_client_fault-Origin h (built k) = k

  errors_alike :
      {A : Type 0} (b : Option Thrown) (e f : LogdiveError)
      → Origin {A = A} b (err e)
      → Origin {A = A} b (err f)
      → (error_answer e).status ≡ (error_answer f).status
      → error_answer e ≡ error_answer f
  errors_alike {A} b e f oe of same = elim (Bool-cases (is_client_fault e)) [
    | inl he ↦ elim (Bool-cases (is_client_fault f)) [
      | inl hf ↦ ap error_answer (cc (is_client_fault-Origin he oe, is_client_fault-Origin hf of))
      | inr hf ↦ absurd (ground (arith, error_answer_status e, error_answer_status f))
    ]
    | inr he ↦ elim (Bool-cases (is_client_fault f)) [
      | inl hf ↦ absurd (ground (arith, error_answer_status e, error_answer_status f))
      | inr hf ↦ error_answer_hidden e he ∙ sym (error_answer_hidden f hf)
    ]
  ]

  module _ (entry_to_json : LogEntry → Option Bytes) where
    -- The response to a query whose rows or failure are at hand.
    abbrev pub answer : Result LogdiveError (List LogEntry) → Option Response
    answer o =
        respond json_string
          (do found ← or_app_error debug words o; ok (build_ndjson_response entry_to_json found))

    answers_alike :
        (b : Option Thrown) (o u : Result LogdiveError (List LogEntry)) {r r' : Response}
        → Origin b o
        → Origin b u
        → answer o ≡ some r
        → answer u ≡ some r'
        → r.status ≡ r'.status
        → r.status ≢ 200
        → r ≡ r'
    unfolding or_app_error build_ndjson_response
    answers_alike b (ok es) u oo ou h h' same bad =
        absurd (bad (ap (λ (x : Response). x.status) (some_eq (sym h))))
    answers_alike b (err e) (ok es) oo ou h h' same bad =
        absurd (bad (same ∙ ap (λ (x : Response). x.status) (some_eq (sym h'))))
    answers_alike b (err e) (err f) oo ou h h' same bad =
        let i = some_eq h in
        let i' = some_eq h' in
        let statuses =
          ap (λ (x : Response). x.status) i ∙ same ∙ ap (λ (x : Response). x.status) (sym i') in
        sym i ∙ errors_alike b e f oo ou statuses ∙ i'
    answers_alike b (err e) out_of_fuel oo ou h h' same bad = cc h'
    answers_alike b out_of_fuel u oo ou h h' same bad = cc h

    module _ (parse_f64 : Bytes → Option ℕ) (map_from_str : Bytes → Result Bytes Fields)
        (chrono : Chrono) (to_lowercase : Bytes → Bytes) (now : chrono.DateTime) where
      found-Origin :
          (s : Server) (ast : QueryNode) (o : QueryOptions)
          → Origin (failure_of (build_sql chrono to_lowercase now ast o)) (
              with_connection s (
                run_query debug words parse_f64 map_from_str entry_to_json chrono to_lowercase now
                  ast o))
      unfolding with_connection run_query execute
      found-Origin s ast o = join-Origin s _ _ (
          blocking-RunOrigin _ s.opening _ λ i.
            run_built-RunOrigin map_from_str i.connection (build_sql chrono to_lowercase now ast o))

      parsed_alike :
          (s s' : Server) (o : QueryOptions) (q : QueryResult QueryNode) {r r' : Response}
          → respond json_string (
              parsed debug words parse_f64 map_from_str entry_to_json chrono to_lowercase now s o q)
            ≡ some r
          → respond json_string (
              parsed debug words parse_f64 map_from_str entry_to_json chrono to_lowercase now s' o
                q)
            ≡ some r'
          → r.status ≡ r'.status
          → r.status ≢ 200
          → r ≡ r'
      unfolding parsed
      parsed_alike s s' o (ok ast) h h' same bad =
          answers_alike (failure_of (build_sql chrono to_lowercase now ast o)) _ _
            (found-Origin s ast o) (found-Origin s' ast o) h h' same bad
      parsed_alike s s' o (err e) h h' same bad = some_eq (sym h ∙ h')
      parsed_alike s s' o out_of_fuel h h' same bad = cc h

      with_query_alike :
          (s s' : Server) (o : QueryOptions) (q : Option Bytes) {r r' : Response}
          → respond json_string (
              with_query debug words parse_f64 map_from_str entry_to_json chrono to_lowercase now s
                o q)
            ≡ some r
          → respond json_string (
              with_query debug words parse_f64 map_from_str entry_to_json chrono to_lowercase now s'
                o q)
            ≡ some r'
          → r.status ≡ r'.status
          → r.status ≢ 200
          → r ≡ r'
      unfolding with_query
      with_query_alike s s' o none h h' same bad = some_eq (sym h ∙ h')
      with_query_alike s s' o (some input) h h' same bad =
          parsed_alike s s' o (parse parse_f64 input) h h' same bad

      -- If two servers answer the same request with the same status other than 200, the responses are
      -- the same: an error response gives away nothing of the index, the paths or the texts of SQLite,
      -- serde_json and the system.
      pub query_handler_alike :
          (s s' : Server) (p : QueryParams) (r r' : Response)
          → respond json_string (
              query_handler debug words parse_f64 map_from_str entry_to_json chrono to_lowercase now
                s p)
            ≡ some r
          → respond json_string (
              query_handler debug words parse_f64 map_from_str entry_to_json chrono to_lowercase now
                s' p)
            ≡ some r'
          → r.status ≡ r'.status
          → r.status ≢ 200
          → r ≡ r'
      unfolding query_handler
      query_handler_alike s s' p r r' h h' same bad =
          with_query_alike s s' (options_of p) (query_text p.q) h h' same bad
