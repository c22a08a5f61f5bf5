-- ===== src/Worker/Models.antt =====
-- src/internal/worker/state.go: model identifiers, which reach the gateway as a path, as an id with
-- an organisation, or with `--` in place of the slash. A text is walked character by character.
use Prim.Native.Char.{code}
use openmodel_gateway.Prelude.{
  Bool, false, ◌||◌, String, ◌==◌, nat_eq, string_eq, if◌then◌else◌, Option, none, some,
}

-- What follows the last `/` of a text, if it has one: `m[strings.LastIndex(m, "/")+1:]`.
unfoldable pub after_last_slash : String → Option String
after_last_slash String.[] = none
after_last_slash (String.◌∷◌ c s) =
    let rest = after_last_slash s in
    elim rest [ some r ↦ some r | none ↦ if code c == b'/' then some s else none ]

-- Whether a text begins with `-`, and what follows.
abbrev after_dash : String → Option String
after_dash String.[] = none
after_dash (String.◌∷◌ c s) = if code c == b'-' then some s else none

-- What follows the last `--`.
unfoldable pub after_last_dashes : String → Option String
after_last_dashes String.[] = none
after_last_dashes (String.◌∷◌ c s) =
    let rest = after_last_dashes s in
    elim rest [ some r ↦ some r | none ↦ if code c == b'-' then after_dash s else none ]

abbrev or_whole : Option String → String → String
or_whole none m = m
or_whole (some r) m = r

unfoldable pub model_basename : String → String
unfolding after_last_slash after_last_dashes
model_basename m =
    let base = or_whole (after_last_slash m) m in or_whole (after_last_dashes base) base

unfoldable pub same_model_basename : String → String → Bool
unfolding model_basename
same_model_basename a b = if a == "" || b == "" then false else model_basename a == model_basename b
