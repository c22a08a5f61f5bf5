-- ===== src/Gateway/ModelNames.antt =====
-- src/internal/gateway/router.go: when two names mean the same model. The text functions are those
-- of Go's `filepath` and `strings`, over the characters of a text.
use Prim.Native.Char.{code}
use openmodel_gateway.Prelude.{
  Bool, true, false, ◌&&◌, ◌||◌, String, ◌==◌, nat_eq, string_eq, if◌then◌else◌, Option, none, some,
}
use openmodel_gateway.Worker.Models.{after_last_slash}

-- The text without its trailing slashes.
abbrev drop_slashes : String → String
drop_slashes String.[] = String.[]
drop_slashes (String.◌∷◌ c s) =
    let rest = drop_slashes s in
    if code c == b'/' && rest == "" then String.[] else String.◌∷◌ c rest

abbrev or_itself : Option String → String → String
or_itself none s = s
or_itself (some r) s = r

-- `filepath.Base`
unfoldable pub base : String → String
base s =
    let last = or_itself (after_last_slash (drop_slashes s)) (drop_slashes s) in
    if s == "" then "." else if last == "" then "/" else last

-- What follows `--` at the start of a text.
abbrev after_dashes : String → Option String
after_dashes String.[] = none
after_dashes (String.◌∷◌ c String.[]) = none
after_dashes (String.◌∷◌ c (String.◌∷◌ d s)) =
    if code c == b'-' && code d == b'-' then some s else none

-- `strings.Replace(s, "--", "/", 1)`
unfoldable pub dashes_to_slash : String → String
dashes_to_slash String.[] = String.[]
dashes_to_slash (String.◌∷◌ c s) =
    let rest = dashes_to_slash s in
    elim (after_dashes (String.◌∷◌ c s)) as (λ _. String) [
      | some r ↦ String.◌∷◌ "/" r
      | none ↦ String.◌∷◌ c rest
    ]

-- `strings.Contains(s, "--")`
unfoldable pub has_dashes : String → Bool
has_dashes String.[] = false
has_dashes (String.◌∷◌ c s) =
    let rest = has_dashes s in
    elim (after_dashes (String.◌∷◌ c s)) as (λ _. Bool) [ some r ↦ true | none ↦ rest ]

-- `strings.HasSuffix(s, t)`
unfoldable pub has_suffix : String → String → Bool
has_suffix String.[] t = t == ""
has_suffix (String.◌∷◌ c s) t = String.◌∷◌ c s == t || has_suffix s t

unfoldable pub model_matches : String → String → Bool
model_matches loaded requested =
    let loaded_base = base loaded in
    let requested_base = base requested in
    let loaded_norm = dashes_to_slash loaded_base in
    let requested_norm = dashes_to_slash requested_base in
    if loaded == "" || requested == ""
    then false
    else loaded == requested
      || loaded_base == requested_base
      || loaded_norm == requested_norm
      || (loaded_norm == requested || requested_norm == loaded)
      || (has_suffix loaded requested || has_suffix requested loaded)

unfoldable pub canonical_model_id : String → String
canonical_model_id m = let name = base m in if has_dashes name then dashes_to_slash name else m
