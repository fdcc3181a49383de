-- ===== src/Ingress.antt =====
-- The reload of the proxy on a target from a rendered configuration on: `reload`, `is_running` and
-- `start` of crates/server/src/ingress/reconcile.rs. How a command fares is a parameter; what the proxy
-- does with a configuration is its documented behaviour: a reload that fails keeps the one that
-- it serves, and starting a unit that is up does nothing.
pub mod Laws
use nudo.Prelude.{Bool, true, false, not, ◌&&◌, Option, none, some, Text, if◌then◌else◌}
use nudo.BootGuard.Dir.{Fault, fine, early, late}

-- The staged and the live configuration file, and the configuration that the proxy serves, if it is up.
pub record ProxyHost : Type 0 where
  pub staged : Option Text
  pub live : Option Text
  pub serving : Option Text

-- `validate`, `starts` and `reloads` are `None` when the command could not be run, and else whether it
-- succeeded. `asks` is whether the host answers the question if the unit is active.
pub record Env : Type 0 where
  pub write : Fault
  pub validate : Text → Option Bool
  pub removes : Bool
  pub move : Fault
  pub asks : Bool
  pub starts : Text → Option Bool
  pub reloads : Text → Option Bool

-- `Ok` with its field `ok`, or `Err`.
abbrev pub Outcome : Type 0
Outcome = Option Bool

abbrev is_up : ProxyHost → Bool
is_up host = elim host.serving [ none ↦ false | some _ ↦ true ]

unfoldable pub is_running : Env → ProxyHost → Bool
is_running env host = env.asks && is_up host

-- `start` reports an error whether the command could not be run or failed.
abbrev started : Text → Option Bool → ProxyHost → ProxyHost × Outcome
started config (some true) host =
    (if is_up host then host else record host { serving = some config }, some true)
started config _ host = (host, some false)

abbrev reloaded : Text → Option Bool → ProxyHost → ProxyHost × Outcome
reloaded config none host = (host, none)
reloaded config (some false) host = (host, some false)
reloaded config (some true) host = (record host { serving = some config }, some true)

unfoldable pub apply : Env → Text → ProxyHost → ProxyHost × Outcome
unfolding is_running
apply env config host =
    if is_running env host
    then reloaded config (env.reloads config) host
    else started config (env.starts config) host

abbrev moved : Text → ProxyHost → ProxyHost
moved config host = record host { staged = none; live = some config }

unfoldable pub install_config : Env → Text → Fault → ProxyHost → ProxyHost × Outcome
unfolding apply
install_config env config fine host = apply env config (moved config host)
install_config env config late host = (moved config host, none)
install_config env config early host = (host, none)

unfoldable pub validated : Env → Text → Option Bool → ProxyHost → ProxyHost × Outcome
unfolding install_config
validated env config none host = (host, none)
validated env config (some false) host =
    (if env.removes then record host { staged = none } else host, some false)
validated env config (some true) host = install_config env config env.move host

unfoldable pub stage : Env → Text → Fault → ProxyHost → ProxyHost × Outcome
unfolding validated
stage env config fine host =
    validated env config (env.validate config) (record host { staged = some config })
stage env config late host = (record host { staged = some config }, none)
stage env config early host = (host, none)

unfoldable pub reload : Env → Text → ProxyHost → ProxyHost × Outcome
unfolding stage
reload env config host = stage env config env.write host
