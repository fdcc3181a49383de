-- ===== src/Systemd/Escape.antt =====
-- The escapes of `EnvironmentFile` values and of `Environment=` values, and the environment file.
pub mod Laws
use nudo.Prelude.{ℕ, List, [], ◌∷◌, ◌++◌, Text, codes, if◌then◌else◌, nat_eq}
use nudo.Text.Split.{newline, carriage_return}

abbrev pub backslash : ℕ
backslash = 0x5c

abbrev pub double_quote : ℕ
double_quote = 0x22

-- The `match ch` of `escape_env_file`.
abbrev pub escape_env_char : ℕ → Text
escape_env_char c =
    if nat_eq c backslash
    then backslash ∷ backslash ∷ []
    else if nat_eq c double_quote
    then backslash ∷ double_quote ∷ []
    else if nat_eq c newline
    then backslash ∷ b'n' ∷ []
    else if nat_eq c carriage_return
    then backslash ∷ b'r' ∷ []
    else c ∷ []

unfoldable pub escape_env_file : Text → Text
escape_env_file [] = []
escape_env_file (c ∷ s) = escape_env_char c ++ escape_env_file s

-- The `match ch` of `escape_unit_env`, where systemd expands `$`.
abbrev pub escape_unit_char : ℕ → Text
escape_unit_char c = if nat_eq c b'$' then b'$' ∷ b'$' ∷ [] else escape_env_char c

unfoldable pub escape_unit_env : Text → Text
escape_unit_env [] = []
escape_unit_env (c ∷ s) = escape_unit_char c ++ escape_unit_env s

-- `render_env_file`, over the entries in key order.
unfoldable pub render_env_file : List (Text × Text) → Text
render_env_file [] = []
render_env_file ((key, value) ∷ entries) =
    key
    ++ b'='
      ∷ double_quote
      ∷ (escape_env_file value ++ double_quote ∷ newline ∷ render_env_file entries)
