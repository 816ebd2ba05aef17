-- ===== src/Dap/ClientOptions.antt =====
-- internal/dap/client_options.go: what the client asks for when it initialises.
use ferretd.Prelude.{String, Bool, true, Option, none, some, if◌then◌else◌}
use text.Mathlib.Text.{◌==◌}

pub data PathFormat : Type 0 where
  path_format_path path_format_uri : PathFormat

pub record InitializeClientOptions : Type 0 where
  pub path_format : Option String
  pub lines_start_at1 : Option Bool
  pub columns_start_at1 : Option Bool

pub record ClientOptions : Type 0 where
  pub path_format : PathFormat
  pub lines_start_at1 : Bool
  pub columns_start_at1 : Bool

abbrev pub or_true : Option Bool → Bool
or_true none = true
or_true (some b) = b

-- None and the empty string are the path format; none is the result for any other text.
unfoldable pub format_of : Option String → Option PathFormat
format_of none = some path_format_path
format_of (some s) =
    if s == ""
    then some path_format_path
    else if s == "path"
    then some path_format_path
    else if s == "uri"
    then some path_format_uri
    else none

-- None stands for the error "pathFormat must be path or uri".
unfoldable pub normalized : InitializeClientOptions → Option ClientOptions
unfolding format_of
normalized o = elim (format_of o.path_format) [
  | none ↦ none
  | some format ↦ some (record {
    path_format = format;
    lines_start_at1 = or_true o.lines_start_at1;
    columns_start_at1 = or_true o.columns_start_at1;
  })
]
