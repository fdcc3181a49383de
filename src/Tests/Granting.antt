-- ===== src/Tests/Granting.antt =====
-- Terminal grants under a digest that adds a character, and reloads of a proxy.
use nudo.Prelude.{◌≡◌, ◌≤◌, refl, true, [], ◌∷◌, none, some, Text, codes, text_eq, text_beq, arith}
use nudo.BootGuard.Dir.{fine, late}
use nudo.Text.Trim.{trim, trim_start_matches, trim_end_matches, is_whitespace}
use nudo.Terminals.{
  TerminalGrant, create_terminal_session, consume_terminal_session, consumed, clamped, granted,
}
use nudo.Terminals.Once.{terminal_call, terminal_calls, creating, sweeping, consume-consume}
use nudo.Terminals.Granted.{create-consume}
use nudo.Ingress.{ProxyHost, Env, reload}
use nudo.Ingress.Laws.{IsSound, reload-IsSound}

abbrev sha : Text → Text
sha s = b'#' ∷ s

abbrev grant : TerminalGrant
grant = record {
  id = codes "t1";
  target_id = codes "box";
  initial_command = codes "top";
  cols = 80;
  rows = 40;
}

consume-consume_example :
    (consume_terminal_session sha (codes "t1") (codes "tok") 20 (
      terminal_calls sha
        (sweeping 12 ∷ creating true (codes "t2") (codes "tok2") 13 (codes "box") [] 0 0 ∷ [])
        (consume_terminal_session sha (codes "t1") (codes "tok") 11 (
          terminal_calls sha
            (creating true (codes "t1") (codes "tok") 10 (codes "box") (codes " top") 0 40 ∷ [])
            [])).0)).1
    ≡ none
unfolding terminal_call terminal_calls create_terminal_session consume_terminal_session consumed
    clamped trim trim_start_matches trim_end_matches is_whitespace text_beq
consume-consume_example =
    consume-consume sha
      (creating true (codes "t1") (codes "tok") 10 (codes "box") (codes " top") 0 40 ∷ [])
      (sweeping 12 ∷ creating true (codes "t2") (codes "tok2") 13 (codes "box") [] 0 0 ∷ [])
      (codes "t1") (codes "tok") (codes "tok") 11 20 grant refl (tt, (refl, tt))

create-consume_example :
    (g : TerminalGrant) × ((consume_terminal_session sha
        (codes "t1")
        (codes "tok")
        69
        (granted (codes "t1") (codes "#tok") 10 (codes "box") (codes " top") 0 4000 ∷ [])).1
      ≡ some g)
    × (g.target_id ≡ codes "box")
    × (g.initial_command ≡ trim (codes " top"))
    × (1 ≤ g.cols)
    × (g.cols ≤ 1000)
    × (1 ≤ g.rows)
    × (g.rows ≤ 1000)
unfolding create_terminal_session trim trim_start_matches trim_end_matches is_whitespace text_beq
create-consume_example =
    create-consume sha true (codes "t1") (codes "tok") 10 69 (codes "box") (codes " top") 0 4000 []
      (granted (codes "t1") (codes "#tok") 10 (codes "box") (codes " top") 0 4000 ∷ []) refl refl
      refl refl (omega arith)

-- The rename of the staged file is reported as failed after it happened.
abbrev half_moved : Env
half_moved = record {
  write = fine;
  validate = λ _. some true;
  removes = true;
  move = late;
  asks = true;
  starts = λ _. some true;
  reloads = λ _. some true;
}

abbrev serving_old : ProxyHost
serving_old = record { staged = none; live = some (codes "old"); serving = some (codes "old") }

reload-IsSound_example :
    IsSound half_moved
      (codes "new")
      (some (codes "old"))
      (reload half_moved (codes "new") serving_old).0.live
    × IsSound half_moved
        (codes "new")
        (some (codes "old"))
        (reload half_moved (codes "new") serving_old).0.serving
reload-IsSound_example = reload-IsSound half_moved (codes "new") serving_old
