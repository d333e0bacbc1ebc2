-- ===== src/Routing/AgentId.antt =====
-- Agent and account ids: PinchBot/pkg/routing/agent_id.go. Texts are sequences of characters; the
-- limit of 64 bytes is one of 64 characters, since what it applies to is ASCII by then.
pub mod Shape
pub mod Fixed
use Prim.Native.Char.{Char, code}
use Prim.Native.String
use text.Mathlib.Text.{◌==◌ as str_eq}
use myagent_bot.Base.{
  ℕ, zero, suc, String, Bool, true, false, ◌&&◌, ◌||◌, ◌==◌, leb, ltb, if◌then◌else◌,
}
use myagent_bot.Base.Text.{trim_space, to_lower, all_chars, count}

abbrev pub default_agent_id : String
default_agent_id = "main"

abbrev pub default_account_id : String
default_account_id = "default"

abbrev pub max_agent_id_length : ℕ
max_agent_id_length = 64

-- `[a-z0-9]`
unfoldable pub is_id_start : Char → Bool
is_id_start c = (leb b'a' (code c) && leb (code c) b'z') || (leb b'0' (code c) && leb (code c) b'9')

unfoldable pub is_dash : Char → Bool
is_dash c = code c == b'-'

-- `[a-z0-9_-]`
unfoldable pub is_id_char : Char → Bool
unfolding is_id_start is_dash
is_id_char c = is_id_start c || (code c == b'_') || is_dash c

-- `validIDRe.MatchString`: `^[a-z0-9][a-z0-9_-]{0,63}$`
unfoldable pub is_valid_id : String → Bool
is_valid_id String.[] = false
is_valid_id (String.◌∷◌ c s) = is_id_start c && all_chars is_id_char s && leb (count s) 63

-- `invalidCharsRe.ReplaceAllString(s, "-")`: each run of characters outside the class is one dash.
-- The flag says that the character before was in such a run.
unfoldable pub dash_runs : Bool → String → String
unfolding is_id_char
dash_runs inside String.[] = String.[]
dash_runs inside (String.◌∷◌ c s) = elim (is_id_char c) [
  | true ↦ String.◌∷◌ c (dash_runs false s)
  | false ↦ elim inside [ true ↦ dash_runs true s | false ↦ String.◌∷◌ "-" (dash_runs true s) ]
]

-- `leadingDashRe.ReplaceAllString(s, "")`
unfoldable pub strip_leading_dashes : String → String
unfolding is_dash
strip_leading_dashes String.[] = String.[]
strip_leading_dashes (String.◌∷◌ c s) = elim (is_dash c) [
  | true ↦ strip_leading_dashes s
  | false ↦ String.◌∷◌ c s
]

-- `trailingDashRe.ReplaceAllString(s, "")`
unfoldable pub strip_trailing_dashes : String → String
unfolding is_dash
strip_trailing_dashes String.[] = String.[]
strip_trailing_dashes (String.◌∷◌ c s) =
    let rest = strip_trailing_dashes s in
    if is_dash c && str_eq rest "" then String.[] else String.◌∷◌ c rest

-- `result[:n]`
unfoldable pub first_chars : ℕ → String → String
first_chars zero s = String.[]
first_chars (suc n) String.[] = String.[]
first_chars (suc n) (String.◌∷◌ c s) = String.◌∷◌ c (first_chars n s)

-- the part of both functions after `validIDRe` has not matched
unfoldable pub sanitized : String → String → String
sanitized fallback lower =
    let result = strip_trailing_dashes (strip_leading_dashes (dash_runs false lower)) in
    let cut =
      if ltb max_agent_id_length (count result)
      then first_chars max_agent_id_length result
      else result in
    if str_eq cut "" then fallback else cut

unfoldable pub normalize_agent_id : String → String
normalize_agent_id id =
    let trimmed = trim_space id in
    let lower = to_lower trimmed in
    if str_eq trimmed ""
    then default_agent_id
    else if is_valid_id lower
    then lower
    else sanitized default_agent_id lower

unfoldable pub normalize_account_id : String → String
normalize_account_id id =
    let trimmed = trim_space id in
    let lower = to_lower trimmed in
    if str_eq trimmed ""
    then default_account_id
    else if is_valid_id lower
    then lower
    else sanitized default_account_id lower
