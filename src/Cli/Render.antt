-- ===== src/Cli/Render.antt =====
-- crates/cli/src/render.rs: the lines of a query's results. anstyle's texts for a style, Unicode's upper case,
-- the JSON text of a value and the order in which a map gives its entries are parameters.
use logdive.Prelude.{
  ◌&&◌, ◌+◌, ◌++◌, ◌-◌, ◌==◌, Bool, List, Option, [], all, false, if◌then◌else◌, leb, none, not,
  some, suc, zero, ◌||◌, ℕ, ◌∷◌,
}
use logdive.Bytes.{Bytes, codes, equals, is_ascii_alphanumeric, is_empty, to_ascii_lowercase}
use logdive.Entry.{
  Fields, JsonValue, LogEntry, array, bool, fields, no_fields, null, number, object, string,
}
use logdive.Error.{Outcome, io_bare, raised}
use logdive.Prelude.Result.{err, ok}
use logdive.Executor.Sql.{join}

pub data OutputFormat : Type 0 where
  pretty_output : OutputFormat
  json_output : OutputFormat

-- The styles that the renderer uses.
pub data Style : Type 0 where
  bold_bright_red : Style
  yellow : Style
  green : Style
  blue : Style
  bright_black : Style
  no_style : Style
  dimmed : Style
  cyan : Style

-- `{style}` and `{style:#}`
pub record Escapes : Type 0 where
  pub on : Style → Bytes
  pub off : Style → Bytes

unfoldable pub is_one_of : Bytes → List Bytes → Bool
unfolding equals
is_one_of s [] = false
is_one_of s (w ∷ ws) = equals s w || is_one_of s ws

unfoldable pub level_style : Bytes → Style
unfolding is_one_of
level_style level =
    let lower = to_ascii_lowercase level in
    if is_one_of lower (codes "error" ∷ codes "err" ∷ codes "fatal" ∷ [])
    then bold_bright_red
    else if is_one_of lower (codes "warn" ∷ codes "warning" ∷ [])
    then yellow
    else if is_one_of lower (codes "info" ∷ [])
    then green
    else if is_one_of lower (codes "debug" ∷ [])
    then blue
    else if is_one_of lower (codes "trace" ∷ [])
    then bright_black
    else no_style

-- The number of characters: bytes 0x80 to 0xBF go on with one.
unfoldable pub char_count : Bytes → ℕ
char_count [] = 0
char_count (b ∷ s) = let more = char_count s in if leb 0x80 b && leb b 0xBF then more else more + 1

unfoldable pub spaces : ℕ → Bytes
spaces zero = []
spaces (suc n) = b' ' ∷ spaces n

-- `{:<5}`
unfoldable pub pad_to_five : Bytes → Bytes
unfolding char_count spaces
pad_to_five s = s ++ spaces (5 - char_count s)

abbrev pub is_token_byte : ℕ → Bool
is_token_byte b = is_ascii_alphanumeric b || b == b'_' || b == b'-' || b == b'.'

unfoldable pub is_simple_token : Bytes → Bool
unfolding is_empty
is_simple_token s = not (is_empty s) && all is_token_byte s

abbrev text_or : Option Bytes → Bytes → Bytes
text_or none d = d
text_or (some s) d = s

module _ (to_json_text : JsonValue → Bytes) (entries_of : Fields → List (Bytes × JsonValue)) where
  unfoldable pub format_field_value : JsonValue → Bytes
  unfolding is_simple_token
  format_field_value null = codes "null"
  format_field_value (bool b) = if b then codes "true" else codes "false"
  format_field_value (number n) = n
  format_field_value (string s) = if is_simple_token s then s else to_json_text (string s)
  format_field_value (array vs) = to_json_text (array vs)
  format_field_value (object fs) = to_json_text (object fs)

  unfoldable pub field_parts : List (Bytes × JsonValue) → List Bytes
  unfolding format_field_value
  field_parts [] = []
  field_parts ((k, v) ∷ more) = (k ++ (b'=' ∷ format_field_value v)) ∷ field_parts more

  unfoldable pub format_fields : Fields → Bytes
  unfolding field_parts join
  format_fields fs = join (codes ", ") (field_parts (entries_of fs))

  module _ (to_uppercase : Bytes → Bytes) (escapes : Escapes) where
    -- The text, within a style if there is colour.
    unfoldable pub styled : Bool → Style → Bytes → Bytes
    styled color style s = if color then escapes.on style ++ (s ++ escapes.off style) else s

    unfoldable pub format_level : Bool → Bytes → Bytes
    unfolding styled level_style pad_to_five
    format_level color level = styled color (level_style level) (pad_to_five (to_uppercase level))

    unfoldable pub format_tag : Bool → Option Bytes → Bytes
    unfolding styled is_empty
    format_tag color none = []
    format_tag color (some t) =
        if is_empty t then [] else codes "  " ++ styled color cyan (codes "[" ++ (t ++ codes "]"))

    unfoldable pub format_rest : Bool → Fields → Bytes
    unfolding styled format_fields
    format_rest color no_fields = []
    format_rest color (fields k v fs) =
        codes "  "
        ++ styled color dimmed (codes "{" ++ (format_fields (fields k v fs) ++ codes "}"))

    unfoldable pub format_pretty_line : Bool → LogEntry → Bytes
    unfolding format_level format_tag format_rest
    format_pretty_line color e =
        styled color dimmed (text_or e.timestamp (codes "-"))
        ++ (codes "  "
            ++ (format_level color (text_or e.level (codes "-"))
                ++ (format_tag color e.tag
                    ++ (codes "  " ++ (text_or e.message [] ++ format_rest color e.others)))))

-- What a write or the flush answers.
pub data WriteAnswer : Type 0 where
  written : WriteAnswer
  broken_pipe : WriteAnswer
  write_failed : Bytes → WriteAnswer

abbrev pub Rendered : Type 0
Rendered = Outcome Unit × List Bytes

-- The end of the output: a broken pipe is none of an error.
unfoldable pub flushed : WriteAnswer → Outcome Unit
flushed written = ok tt
flushed broken_pipe = ok tt
flushed (write_failed detail) = err (raised (io_bare detail))

-- The loop over the lines, with the answers to the writes in their order, and the lines that went out. No
-- answer is one that goes well.
unfoldable pub write_lines : WriteAnswer → List Bytes → List WriteAnswer → Rendered
unfolding flushed
write_lines flushing [] answers = (flushed flushing, [])
write_lines flushing (l ∷ ls) (broken_pipe ∷ answers) = (ok tt, [])
write_lines flushing (l ∷ ls) (write_failed detail ∷ answers) = (err (raised (io_bare detail)), [])
write_lines flushing (l ∷ ls) (written ∷ answers) =
    let (r, out) = write_lines flushing ls answers in (r, l ∷ out)
write_lines flushing (l ∷ ls) [] = let (r, out) = write_lines flushing ls [] in (r, l ∷ out)
