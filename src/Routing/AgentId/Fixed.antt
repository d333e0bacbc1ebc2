-- ===== src/Routing/AgentId/Fixed.antt =====
-- Texts that `NormalizeAgentID` of agent_id.go leaves as they are.
use Prim.Native.Char.{Char, code}
use text.Mathlib.Text.{◌==◌ as str_eq}
use myagent_bot.Base.{String, true, false, ◌≡◌, ◌≢◌, refl, ap, ◌∙◌, ◌==◌, arith, eq_iff}
use myagent_bot.Base.Text.{
  is_space, trim_left, trim_right, trim_space, lower_char, to_lower, all_chars,
}
use myagent_bot.Base.TextLaws.{trim_space_twice}
use myagent_bot.Routing.AgentId.{is_id_start, is_dash, is_id_char, is_valid_id, normalize_agent_id}
use myagent_bot.Routing.AgentId.Shape.{valid-IsAgentId}

pub id_char_plain :
    (c : Char) → is_id_char c ≡ true → (is_space c ≡ false) × ((code c == b':') ≡ false)
unfolding is_id_char is_id_start is_dash is_space
id_char_plain c h = ground arith

trim_left_id : (s : String) → all_chars is_id_char s ≡ true → trim_left s ≡ s
unfolding trim_left all_chars
trim_left_id String.[] h = refl
trim_left_id (String.◌∷◌ c s) h = ground (arith, id_char_plain c)

trim_right_id : (s : String) → all_chars is_id_char s ≡ true → trim_right s ≡ s
unfolding trim_right all_chars
trim_right_id String.[] h = refl
trim_right_id (String.◌∷◌ c s) h = ground (arith, id_char_plain c, trim_right_id s)

pub trim_space_id : (s : String) → all_chars is_id_char s ≡ true → trim_space s ≡ s
unfolding trim_space
trim_space_id s h = ap trim_right (trim_left_id s h) ∙ trim_right_id s h

lower_char_id : (c : Char) → is_id_char c ≡ true → lower_char c ≡ c
unfolding is_id_char is_id_start is_dash lower_char
lower_char_id c h = ground arith

to_lower_id : (s : String) → all_chars is_id_char s ≡ true → to_lower s ≡ s
unfolding to_lower all_chars
to_lower_id String.[] h = refl
to_lower_id (String.◌∷◌ c s) h = ground (arith, lower_char_id c, to_lower_id s)

eq_iff-false : {s : String} → s ≢ "" → str_eq s "" ≡ false
eq_iff-false {s = s} n = ground (arith, eq_iff s "")

-- `NormalizeAgentID` leaves a valid id alone.
pub normalize_valid : (id : String) → is_valid_id id ≡ true → normalize_agent_id id ≡ id
unfolding normalize_agent_id
normalize_valid id h =
    let (n, all, _, _) = valid-IsAgentId id h in
    rw (trim_space_id id all, to_lower_id id all, h) (rw (eq_iff-false n) refl)

pub normalize-trim_space :
    (id : String) → normalize_agent_id (trim_space id) ≡ normalize_agent_id id
unfolding normalize_agent_id
normalize-trim_space id = rw (trim_space_twice id) refl
