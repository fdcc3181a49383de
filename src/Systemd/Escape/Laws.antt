-- ===== src/Systemd/Escape/Laws.antt =====
-- No two lists of entries give the same environment file. The proof takes the file apart again: these
-- functions undo what `render_env_file` does, and are not how systemd reads a file.
use nudo.Prelude.{
  ℕ, ◌≡◌, refl, ◌≢◌, ◌∙◌, List, [], ◌∷◌, ◌++◌, Option, none, some, Text, arith, if◌then◌else◌,
  nat_eq, append_assoc, All, sym, ap,
}
use nudo.Text.Split.{newline, carriage_return, split_once, split_once-append, Lacks}
use nudo.Systemd.Escape.{backslash, double_quote, escape_env_char, escape_env_file, render_env_file}

-- What an escape was made from.
abbrev pub unescape : ℕ → ℕ
unescape c = if nat_eq c b'n' then newline else if nat_eq c b'r' then carriage_return else c

-- The value up to the closing quote, with what follows; there is no line end inside the quotes.
unquote : Text → Option (Text × Text)
unquote [] = none
unquote (c ∷ []) = if nat_eq c double_quote then some ([], []) else none
unquote (c ∷ d ∷ s) =
    let after = unquote s in
    let plain = unquote (d ∷ s) in
    if nat_eq c double_quote
    then some ([], d ∷ s)
    else if nat_eq c newline
    then none
    else if nat_eq c backslash
    then elim after [ none ↦ none | some (v, rest) ↦ some (unescape d ∷ v, rest) ]
    else elim plain [ none ↦ none | some (v, rest) ↦ some (c ∷ v, rest) ]

unquote-escape_char :
    (c : ℕ) (s v rest : Text)
    → s ≢ []
    → unquote s ≡ some (v, rest)
    → unquote (escape_env_char c ++ s) ≡ some (c ∷ v, rest)
unfolding unquote
unquote-escape_char c [] v rest ne h = absurd (ne refl)
unquote-escape_char c (d ∷ s) v rest ne h = ground arith

append-cons-≢ : (s t : Text) (c : ℕ) → (s ++ c ∷ t) ≢ []
append-cons-≢ [] t c = λ e. ground (arith, e)
append-cons-≢ (d ∷ s) t c = λ e. ground (arith, e)

unquote-quote : (rest : Text) → unquote (double_quote ∷ rest) ≡ some ([], rest)
unfolding unquote
unquote-quote [] = refl
unquote-quote (d ∷ rest) = refl

-- Undoing the escape gives the value, and leaves what follows the closing quote.
unquote-escape_env_file :
    (value rest : Text)
    → unquote (escape_env_file value ++ double_quote ∷ rest) ≡ some (value, rest)
unfolding escape_env_file
unquote-escape_env_file [] rest = unquote-quote rest
unquote-escape_env_file (c ∷ value) rest = rw append_assoc (
    unquote-escape_char c (escape_env_file value ++ double_quote ∷ rest) value rest
      (append-cons-≢ (escape_env_file value) rest double_quote)
      (unquote-escape_env_file value rest))

-- One assignment: a name up to the equals sign, a quoted value, and the end of the line.
abbrev take_end : Text → Text → Text → Option ((Text × Text) × Text)
take_end name value [] = none
take_end name value (c ∷ rest) = if nat_eq c newline then some ((name, value), rest) else none

abbrev take_value : Text → Text → Option ((Text × Text) × Text)
take_value name [] = none
take_value name (c ∷ s) =
    let quoted = unquote s in
    if nat_eq c double_quote
    then elim quoted [ none ↦ none | some (value, rest) ↦ take_end name value rest ]
    else none

take_assignment : Text → Option ((Text × Text) × Text)
take_assignment s = elim (split_once b'=' s) [
  | none ↦ none
  | some (name, rest) ↦ take_value name rest
]

take_assignment-eq :
    (s : Text) {name rest : Text}
    → split_once b'=' s ≡ some (name, rest)
    → take_assignment s ≡ take_value name rest
unfolding take_assignment
take_assignment-eq s e = rw (e, take_assignment) refl

take_value-quoted :
    (name s : Text) {value rest : Text}
    → unquote s ≡ some (value, newline ∷ rest)
    → take_value name (double_quote ∷ s) ≡ some ((name, value), rest)
take_value-quoted name s e = rw e refl

-- The first assignment of a file and the rest of it, when its name has no equals sign.
take_assignment-render_env_file :
    (key value : Text) (entries : List (Text × Text))
    → Lacks b'=' key
    → take_assignment (render_env_file ((key, value) ∷ entries))
      ≡ some ((key, value), render_env_file entries)
unfolding render_env_file
take_assignment-render_env_file key value entries lacks =
    take_assignment-eq _ (
      split_once-append b'=' key
        (double_quote ∷ (escape_env_file value ++ double_quote ∷ newline ∷ render_env_file entries))
        lacks)
    ∙ take_value-quoted key
        (escape_env_file value ++ double_quote ∷ newline ∷ render_env_file entries)
        (unquote-escape_env_file value (newline ∷ render_env_file entries))

-- No entry has an equals sign in its name.
abbrev pub AllNamed : List (Text × Text) → Type 0
AllNamed = All λ entry. Lacks b'=' entry.0

some_inj : {A : Type 0} {x y : A} → some x ≡ some y → x ≡ y
some_inj e = ground (arith, e)

render_env_file-cons-≢ :
    (entry : Text × Text) (entries : List (Text × Text)) → render_env_file (entry ∷ entries) ≢ []
unfolding render_env_file
render_env_file-cons-≢ ([], value) entries e = ground (arith, e)
render_env_file-cons-≢ (c ∷ key, value) entries e = ground (arith, e)

-- What is written for some entries determines them, if no name has an equals sign: two different
-- lists never give the same file, so nothing in a value is lost, and no value makes its file that of
-- other values or of more assignments.
pub render_env_file-inj :
    (entries others : List (Text × Text))
    → AllNamed entries
    → AllNamed others
    → render_env_file entries ≡ render_env_file others
    → entries ≡ others
unfolding render_env_file
render_env_file-inj [] [] h h' e = refl
render_env_file-inj [] (y ∷ others) h h' e = absurd (render_env_file-cons-≢ y others (sym e))
render_env_file-inj (x ∷ entries) [] h h' e = absurd (render_env_file-cons-≢ x entries e)
render_env_file-inj ((key, value) ∷ entries) ((key', value') ∷ others) (n, h) (n', h') e =
    let both =
      sym (take_assignment-render_env_file key value entries n)
      ∙ ap take_assignment e
      ∙ take_assignment-render_env_file key' value' others n' in
    let same : ((key, value), render_env_file entries) ≡ ((key', value'), render_env_file others) =
      some_inj both in
    ap (λ x. x.0 ∷ entries) same
    ∙ ap (λ es. (key', value') ∷ es) (render_env_file-inj entries others h h' (ap (λ x. x.1) same))
