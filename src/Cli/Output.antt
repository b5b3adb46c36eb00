-- ===== src/Cli/Output.antt =====
-- `render` of crates/cli/src/render.rs, with both formats, and the JSON value of an entry.
use logdive.Prelude.{Bool, List, Option, [], map, none, some, ◌∷◌}
use logdive.Bytes.{Bytes, codes}
use logdive.Cli.Render.{
  Escapes, OutputFormat, Rendered, WriteAnswer, format_pretty_line, json_output, pretty_output,
  write_lines,
}
use logdive.Entry.{Fields, JsonValue, LogEntry, fields, no_fields, null, object, string}
use logdive.Prelude.Result.{ok, err, out_of_fuel}
use logdive.Error.{Outcome}

unfoldable pub text_or_null : Option Bytes → JsonValue
text_or_null none = null
text_or_null (some s) = string s

-- `json!`, key by key.
unfoldable pub entry_to_json : LogEntry → JsonValue
unfolding text_or_null
entry_to_json e = object (
    fields (codes "timestamp") (text_or_null e.timestamp) (
      fields (codes "level") (text_or_null e.level) (
        fields (codes "message") (text_or_null e.message) (
          fields (codes "tag") (text_or_null e.tag) (
            fields (codes "fields") (object e.others)
              (fields (codes "raw") (string e.raw) no_fields))))))

module _ (to_json_text : JsonValue → Bytes) (entries_of : Fields → List (Bytes × JsonValue))
    (to_uppercase : Bytes → Bytes) (escapes : Escapes) where
  -- The line of an entry, without its newline. Only the pretty one depends on whether there is colour.
  unfoldable pub output_line : OutputFormat → Bool → LogEntry → Bytes
  unfolding format_pretty_line entry_to_json
  output_line pretty_output tty e =
      format_pretty_line to_json_text entries_of to_uppercase escapes tty e
  output_line json_output tty e = to_json_text (entry_to_json e)

  unfoldable pub render :
      OutputFormat → Bool → WriteAnswer → List WriteAnswer → List LogEntry → Rendered
  unfolding write_lines output_line
  render format tty flushing answers [] = (ok tt, [])
  render format tty flushing answers (e ∷ es) =
      write_lines flushing (map (output_line format tty) (e ∷ es)) answers

  -- The end of `handle_query`.
  unfoldable pub rendered :
      OutputFormat → Bool → WriteAnswer → List WriteAnswer → Outcome (List LogEntry) → Rendered
  unfolding render
  rendered format tty flushing answers (ok es) = render format tty flushing answers es
  rendered format tty flushing answers (err e) = (err e, [])
  rendered format tty flushing answers out_of_fuel = (out_of_fuel, [])
