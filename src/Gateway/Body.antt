-- ===== src/Gateway/Body.antt =====
-- src/internal/gateway/gateway.go: what the gateway reads from the JSON of requests and responses, and
-- the two places where it writes one. The parser and the printer are parameters, as is the size of a text in bytes.
use openmodel_gateway.Prelude.{
  ℕ, ◌+◌, ◌/◌, Bool, false, List, String, Option, none, some, ◌==◌, string_eq, if◌then◌else◌,
  is_some,
}
use openmodel_gateway.Prelude.Int.{ℤ, pos}
use openmodel_gateway.Gateway.RateLimit.{Float64}
use openmodel_gateway.Gateway.Proxy.{TokenUsage, no_usage}

mutual
  -- A value, with numbers as `float64`.
  pub data Json (N : Type 0) : Type 0 where
    null : Json N
    boolean : Bool → Json N
    number : N → Json N
    text : String → Json N
    array : Items N → Json N
    object : Members N → Json N

  pub data Items (N : Type 0) : Type 0 where
    no_items : Items N
    item : Json N → Items N → Items N

  pub data Members (N : Type 0) : Type 0 where
    no_members : Members N
    member : String → Json N → Members N → Members N

module _ {N : Type 0} where
  unfoldable pub field : String → Members N → Option (Json N)
  field key no_members = none
  field key (member k v rest) = if k == key then some v else field key rest

  -- A write to the map.
  unfoldable pub set_field : String → Json N → Members N → Members N
  set_field key value no_members = member key value no_members
  set_field key value (member k v rest) =
      if k == key then member key value rest else member k v (set_field key value rest)

  abbrev pub as_text : Option (Json N) → Option String
  as_text (some (text s)) = some s
  as_text _ = none

  abbrev pub as_members : Option (Json N) → Option (Members N)
  as_members (some (object m)) = some m
  as_members _ = none

-- The JSON library on the texts of bodies. A body is an object, or it is refused.
pub record Parser (f : Float64) : Type 0 where
  pub object_of : List ℕ → Option (Members f.F)
  pub print : Members f.F → List ℕ
  pub size_of : String → ℕ

module _ (f : Float64) (j : Parser f) where
  abbrev get_field : List ℕ → String → Option (Json f.F)
  get_field body key = elim (j.object_of body) [ none ↦ none | some m ↦ field key m ]

  unfoldable pub extract_model : List ℕ → String
  extract_model body = elim (as_text (get_field body "model")) [ none ↦ "unknown" | some s ↦ s ]

  unfoldable pub has_top_level_key : List ℕ → String → Bool
  has_top_level_key body key = is_some (get_field body key)

  unfoldable pub extract_bool : List ℕ → String → Bool
  extract_bool body key = elim (get_field body key) as (λ _. Bool) [
    | some (boolean v) ↦ v
    | _ ↦ false
  ]

  unfoldable pub int_from_json : Option (Json f.F) → ℤ
  int_from_json (some (number n)) = f.to_int n
  int_from_json _ = pos 0

  unfoldable pub extract_int : List ℕ → String → ℤ
  unfolding int_from_json
  extract_int body key = int_from_json (get_field body key)

  abbrev cached_of : Members f.F → ℤ
  cached_of usage = elim (as_members (field "prompt_tokens_details" usage)) [
    | none ↦ pos 0
    | some d ↦ int_from_json (field "cached_tokens" d)
  ]

  unfoldable pub extract_usage : List ℕ → TokenUsage
  extract_usage body = elim (as_members (get_field body "usage")) [
    | none ↦ no_usage
    | some usage ↦ record {
      prompt_tokens = int_from_json (field "prompt_tokens" usage);
      completion_tokens = int_from_json (field "completion_tokens" usage);
      cached_tokens = cached_of usage;
      total_tokens = int_from_json (field "total_tokens" usage);
    }
  ]

  -- The message of an object with an error.
  unfoldable pub error_message : List ℕ → Option String
  error_message payload = elim (as_members (get_field payload "error")) [
    | none ↦ none
    | some e ↦ as_text (field "message" e)
  ]

  abbrev text_size : Option (Json f.F) → ℕ
  text_size (some (text s)) = j.size_of s
  text_size _ = 0

  -- The texts of a list of prompts.
  abbrev prompts_size : Items f.F → ℕ
  prompts_size no_items = 0
  prompts_size (item v rest) = text_size (some v) + prompts_size rest

  abbrev message_size : Json f.F → ℕ
  message_size (object m) = text_size (field "content" m)
  message_size _ = 0

  abbrev messages_size : Items f.F → ℕ
  messages_size no_items = 0
  messages_size (item v rest) = message_size v + messages_size rest

  abbrev size_in_messages : Option (Json f.F) → ℕ
  size_in_messages (some (array ms)) = messages_size ms
  size_in_messages _ = 0

  abbrev size_in_prompt : Option (Json f.F) → ℕ
  size_in_prompt (some (text s)) = j.size_of s
  size_in_prompt (some (array ps)) = prompts_size ps
  size_in_prompt _ = 0

  unfoldable pub estimate_prompt_tokens : List ℕ → ℤ
  estimate_prompt_tokens body = pos (
      (size_in_messages (get_field body "messages") + size_in_prompt (get_field body "prompt")) / 4)

  -- The body with the worker's own name of its model.
  unfoldable pub rewrite_model_field : List ℕ → String → List ℕ
  rewrite_model_field body model = elim (j.object_of body) [
    | none ↦ body
    | some m ↦ j.print (set_field "model" (text model) m)
  ]

  -- The body that makes a worker go on after `prefix`.
  unfoldable pub with_continuation : List ℕ → String → ℤ → Option (List ℕ)
  with_continuation body prefix most = elim (j.object_of body) [
    | none ↦ none
    | some m ↦ some (
        j.print (
          set_field "max_tokens" (number (f.of_int most))
            (set_field "om_continuation" (text prefix) m)))
  ]
