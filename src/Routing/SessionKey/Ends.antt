-- ===== src/Routing/SessionKey/Ends.antt =====
-- The ends of the keys of session_key.go, which `TrimSpace` leaves alone, and their reading.
use text.Mathlib.Text.{◌==◌ as str_eq}
use myagent_bot.Base.{
  String, Bool, true, false, ◌≡◌, ◌≢◌, refl, ap, ◌∙◌, some, arith, eq_iff, List, [], ◌∷◌,
  if◌then◌else◌,
}
use myagent_bot.Base.Text.{is_space, trim_left, trim_right, trim_space, to_lower, ◌+++◌, all_chars}
use myagent_bot.Base.TextLaws.{
  trim_right-+++, trim_right_twice, trim_right-to_lower, filled-+++, empty-to_lower,
}
use myagent_bot.Routing.AgentId.{is_id_char}
use myagent_bot.Routing.AgentId.Fixed.{id_char_plain, trim_space_id}
use myagent_bot.Routing.AgentId.Shape.{IsAgentId}
use myagent_bot.Routing.SessionKey.{
  first_linked, resolve_linked_peer_id, link_candidates, cut_colon, parse_agent_session_key,
  parsed_parts,
}

-- a text that is not empty and has no white space at its end
abbrev pub IsEnd : String → Type 0
IsEnd s = (trim_right s ≡ s) × (s ≢ "")

pub filled : {s : String} → s ≢ "" → str_eq s "" ≡ false
filled {s = s} n = ground (arith, eq_iff s "")

pub not_filled : {s : String} → str_eq s "" ≡ false → s ≢ ""
not_filled {s = s} h = ground (arith, eq_iff s "")

pub IsEnd-+++ : (s : String) {t : String} → IsEnd t → IsEnd (s +++ t)
IsEnd-+++ s {t = t} (e, n) = (trim_right-+++ s t e n, not_filled (filled-+++ s t n))

cut_colon-+++ :
    (s rest : String)
    → all_chars is_id_char s ≡ true
    → cut_colon (s +++ ":" +++ rest) ≡ some (s, rest)
unfolding cut_colon all_chars ◌+++◌
cut_colon-+++ String.[] rest h = refl
cut_colon-+++ (String.◌∷◌ c s) rest h = ground (arith, id_char_plain c, cut_colon-+++ s rest)

cut_prefix : (x : String) → cut_colon ("agent:" +++ x) ≡ some ("agent", x)
unfolding cut_colon ◌+++◌
cut_prefix x = refl

trim_left_prefix : (x : String) → trim_left ("agent:" +++ x) ≡ "agent:" +++ x
unfolding trim_left is_space ◌+++◌
trim_left_prefix x = refl

trim_space_prefix : (x : String) → IsEnd x → trim_space ("agent:" +++ x) ≡ "agent:" +++ x
unfolding trim_space
trim_space_prefix x end = ap trim_right (trim_left_prefix x) ∙ (IsEnd-+++ "agent:" end).0

pub parse_form :
    {agent rest : String}
    → IsAgentId agent
    → IsEnd rest
    → parse_agent_session_key ("agent:" +++ agent +++ ":" +++ rest)
      ≡ some (record { agent_id = agent; rest = rest })
unfolding parse_agent_session_key parsed_parts
parse_form {agent} {rest} (n, all, _, _) end =
    let tail = IsEnd-+++ agent (IsEnd-+++ ":" end) in
    rw
      (
        trim_space_prefix _ tail,
        filled (IsEnd-+++ "agent:" tail).1,
        cut_prefix (agent +++ ":" +++ rest),
        cut_colon-+++ agent rest all,
        trim_space_id agent all,
        filled n,
        filled end.1,
      )
      refl

pub main-IsEnd : IsEnd "main"
unfolding trim_right is_space
main-IsEnd = (refl, not_filled refl)

pub unknown-IsEnd : IsEnd "unknown"
unfolding trim_right is_space
unknown-IsEnd = (refl, not_filled refl)

pub trim_right-trim_space : (s : String) → trim_right (trim_space s) ≡ trim_space s
unfolding trim_space
trim_right-trim_space s = trim_right_twice (trim_left s)

-- lower case of a trimmed text
pub lower-IsEnd : (s : String) → trim_right s ≡ s → str_eq s "" ≡ false → IsEnd (to_lower s)
lower-IsEnd s e h = (trim_right-to_lower s ∙ ap to_lower e, not_filled (empty-to_lower s ∙ h))

pub trim_right-if :
    (b : Bool) {s t : String}
    → trim_right s ≡ s
    → trim_right t ≡ t
    → trim_right (if b then s else t) ≡ (if b then s else t)
trim_right-if true e f = e
trim_right-if false e f = f

trim_right-first_linked :
    (candidates : List String) (links : List (String × List String))
    → trim_right (first_linked candidates links) ≡ first_linked candidates links
unfolding first_linked
trim_right-first_linked candidates [] = unfold trim_right in refl
trim_right-first_linked candidates (link ∷ links) =
    trim_right-if _ (trim_right-trim_space link.0) (trim_right-first_linked candidates links)

pub trim_right-resolve :
    (links : List (String × List String)) (channel id : String)
    → trim_right (resolve_linked_peer_id links channel id) ≡ resolve_linked_peer_id links channel id
unfolding resolve_linked_peer_id
trim_right-resolve links channel id =
    trim_right-if (str_eq (trim_space id) "") (unfold trim_right in refl)
      (trim_right-first_linked (link_candidates channel (trim_space id)) links)
