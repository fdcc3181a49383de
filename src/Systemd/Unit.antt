-- ===== src/Systemd/Unit.antt =====
-- `render_unit`, `unit_file_name`, `unit_file_path` and `sanitize_unit_stem`.
pub mod Laws
use nudo.Prelude.{
  ℕ, Bool, true, false, not, ◌&&◌, ◌||◌, List, [], ◌∷◌, ◌++◌, map, Text, codes, if◌then◌else◌,
  is_empty, nat_eq, leb, any, ◌==◌, text_eq,
}
use nudo.Text.Trim.{trim, ends_with, trim_start_matches, trim_end_matches}
use nudo.Text.Split.{newline, join}
use nudo.Text.Decimal.{to_string}
use nudo.Systemd.Service.{Service, SystemdUnit, unit_of}
use nudo.Systemd.Paths.{ReleasePaths, new, current_binary, current_link, env_file, binary_name}
use nudo.Systemd.Escape.{escape_unit_env, double_quote}
use nudo.Systemd.Sorted.{sorted}

-- One line `name=value`.
unfoldable pub directive : Text → Text → Text
directive name value = name ++ b'=' ∷ (value ++ newline ∷ [])

-- A directive that an empty value leaves out.
unfoldable pub optional : Text → Text → Text
unfolding directive
optional name value = if is_empty (trim value) then [] else directive name (trim value)

unfoldable pub or_else : Text → Text → Text
or_else value fallback = if is_empty value then fallback else value

-- The entries of `after`, each once and trimmed, behind those collected so far.
unfoldable pub collect_after : List Text → List Text → List Text
collect_after after [] = after
collect_after after (entry ∷ entries) =
    let e = trim entry in
    collect_after
      (if not (is_empty e) && not (any (λ a. a == e) after) then after ++ e ∷ [] else after) entries

unfoldable pub environment_lines : List (Text × Text) → Text
environment_lines [] = []
environment_lines ((key, value) ∷ entries) =
    codes "Environment="
    ++ double_quote
      ∷ (key
          ++ b'=' ∷ (escape_unit_env value ++ double_quote ∷ newline ∷ environment_lines entries))

unfoldable pub directive_lines : List (Text × Text) → Text
unfolding directive
directive_lines [] = []
directive_lines ((key, value) ∷ entries) = directive key value ++ directive_lines entries

unfoldable pub exec_start : ReleasePaths → Text → Text
exec_start paths exec_args =
    if is_empty (trim exec_args)
    then current_binary paths binary_name
    else current_binary paths binary_name ++ b' ' ∷ trim exec_args

unfoldable pub unit_section : Text → SystemdUnit → Text
unfolding directive or_else
unit_section name u =
    codes "[Unit]"
    ++ newline
      ∷ (directive (codes "Description")
            (or_else (trim u.description) (name ++ codes " (managed by nudo)"))
          ++ directive (codes "After")
              (join (b' ' ∷ []) (collect_after (codes "network-online.target" ∷ []) u.after))
          ++ directive (codes "Wants") (codes "network-online.target"))

unfoldable pub service_section : Service → SystemdUnit → ReleasePaths → Text
unfolding directive or_else
service_section service u paths =
    codes "[Service]"
    ++ newline
      ∷ (directive (codes "Type") (codes "simple")
          ++ directive (codes "ExecStart") (exec_start paths u.exec_args)
          ++ directive (codes "WorkingDirectory")
              (or_else (trim u.working_directory) (current_link paths))
          ++ optional (codes "User") u.user
          ++ optional (codes "Group") u.group
          ++ environment_lines (sorted service.env)
          ++ (if is_empty service.secret_ids
              then []
              else codes "EnvironmentFile=-" ++ env_file paths ++ newline ∷ [])
          ++ directive (codes "Restart") (or_else (trim u.restart) (codes "always"))
          ++ directive (codes "RestartSec")
              (to_string (if nat_eq u.restart_sec 0 then 5 else u.restart_sec))
          ++ optional (codes "CPUAffinity") u.cpu_affinity
          ++ optional (codes "Nice") u.nice
          ++ optional (codes "IOSchedulingClass") u.io_scheduling_class
          ++ directive_lines (sorted u.extra_directives))

unfoldable pub render_unit : Service → Text
unfolding directive
render_unit service =
    let u = unit_of service.unit in
    unit_section service.name u
    ++ newline
      ∷ (service_section service u (new service.release_root)
          ++ newline
            ∷ (codes "[Install]"
                ++ newline ∷ directive (codes "WantedBy") (codes "multi-user.target")))

-- `c.is_ascii_alphanumeric() || c == '-' || c == '_' || c == '.'`
unfoldable pub is_stem_char : ℕ → Bool
is_stem_char c =
    (leb b'0' c && leb c b'9')
    || (leb b'A' c && leb c b'Z')
    || (leb b'a' c && leb c b'z')
    || nat_eq c b'-'
    || nat_eq c b'_'
    || nat_eq c b'.'

unfoldable pub replaced : ℕ → ℕ
replaced c = if is_stem_char c then c else b'-'

unfoldable pub sanitize_unit_stem : Text → Text
unfolding or_else
sanitize_unit_stem name =
    or_else
      (trim_end_matches (nat_eq b'-') (trim_start_matches (nat_eq b'-') (map replaced (trim name))))
      (codes "nudo-service")

abbrev pub suffix : Text
suffix = codes ".service"

abbrev pub with_suffix : Text → Text
with_suffix base = if ends_with suffix base then base else base ++ suffix

unfoldable pub unit_file_name : Service → Text
unfolding or_else
unit_file_name service =
    with_suffix (or_else (trim (unit_of service.unit).unit_name) (sanitize_unit_stem service.name))

unfoldable pub unit_file_path : Service → Text
unit_file_path service = codes "/etc/systemd/system/" ++ unit_file_name service
