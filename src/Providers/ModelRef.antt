-- ===== src/Providers/ModelRef.antt =====
-- Names of models: PinchBot/pkg/providers/model_ref.go, and the key that tells candidates apart.
use Prim.Native.String.{◌++◌ as append}
use Prim.Native.Char.{code}
use text.Mathlib.Text.{◌==◌ as same_text}
use myagent_bot.Base.{String, ◌≡◌, refl, ◌==◌, ◌||◌, Option, none, some, if◌then◌else◌}
use myagent_bot.Base.Text.{trim_space, to_lower}

pub record ModelRef : Type 0 where
  pub provider : String
  pub model : String

-- `NormalizeProvider`
unfoldable pub normalize_provider : String → String
normalize_provider provider =
    let p = to_lower (trim_space provider) in
    if same_text p "z.ai" || same_text p "z-ai"
    then "zai"
    else if same_text p "opencode-zen"
    then "opencode"
    else if same_text p "qwen"
    then "qwen-portal"
    else if same_text p "kimi-code"
    then "kimi-coding"
    else if same_text p "gpt"
    then "openai"
    else if same_text p "claude"
    then "anthropic"
    else if same_text p "glm"
    then "zhipu"
    else if same_text p "google"
    then "gemini"
    else if same_text p "alibaba-coding" || same_text p "qwen-coding"
    then "coding-plan"
    else if same_text p "alibaba-coding-anthropic"
    then "coding-plan-anthropic"
    else if same_text p "qwen-international" || same_text p "dashscope-intl"
    then "qwen-intl"
    else if same_text p "dashscope-us"
    then "qwen-us"
    else p

-- The text before the first slash and the text after it, if there is one.
unfoldable pub cut_slash : String → Option (String × String)
cut_slash String.[] = none
cut_slash (String.◌∷◌ c s) =
    let rest : Option (String × String) = elim (cut_slash s) [
      | none ↦ none
      | some (before, after) ↦ some (String.◌∷◌ c before, after)
    ] in
    if code c == b'/' then some ("", s) else rest

abbrev named_by_default : String → String → Option ModelRef
named_by_default raw default_provider =
    some (record { provider = normalize_provider default_provider; model = raw })

-- The reference of a text that is not empty, without blanks around it.
abbrev parse_trimmed : String → String → Option ModelRef
parse_trimmed raw default_provider = elim (cut_slash raw) [
  | none ↦ named_by_default raw default_provider
  | some (before, after) ↦
      if same_text before ""
      then named_by_default raw default_provider
      else if same_text (trim_space after) ""
      then none
      else some (record { provider = normalize_provider before; model = trim_space after })
]

-- `ParseModelRef`; `nil` is `none`.
unfoldable pub parse_model_ref : String → String → Option ModelRef
unfolding cut_slash
parse_model_ref raw default_provider =
    if same_text (trim_space raw) "" then none else parse_trimmed (trim_space raw) default_provider

-- `ModelKey`
unfoldable pub model_key : String → String → String
model_key provider model =
    append (normalize_provider provider) (append "/" (to_lower (trim_space model)))

claude_test :
    parse_model_ref " Claude/ opus-4 " "gpt"
    ≡ some (record { provider = "anthropic"; model = "opus-4" })
unfolding parse_model_ref normalize_provider trim_space to_lower
claude_test = refl

default_test :
    parse_model_ref "gpt-4o" "GPT" ≡ some (record { provider = "openai"; model = "gpt-4o" })
unfolding parse_model_ref normalize_provider trim_space to_lower
default_test = refl
