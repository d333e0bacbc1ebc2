-- ===== src/Routing/SessionKey.antt =====
-- The keys under which a conversation is kept: PinchBot/pkg/routing/session_key.go. A Go map is the
-- list of its entries, in the order in which an iteration meets them.
pub mod Ends
pub mod RoundTrip
use Prim.Native.Char.{Char, code}
use Prim.Native.String
use text.Mathlib.Text.{◌==◌ as str_eq}
use myagent_bot.Base.{
  String, Bool, true, false, not, ◌&&◌, ◌||◌, ◌==◌, Option, none, some, List, [], ◌∷◌, ◌++◌,
  if◌then◌else◌,
}
use myagent_bot.Base.Text.{trim_space, to_lower, ◌+++◌, has_prefix}
use myagent_bot.Routing.AgentId.{default_agent_id, normalize_agent_id, normalize_account_id}

abbrev pub default_main_key : String
default_main_key = "main"

-- `DMScope`, whose empty text the callers read as `main`; `other` is any text but these.
pub data DmScope : Type 0 where
  unset : DmScope
  main : DmScope
  per_peer : DmScope
  per_channel_peer : DmScope
  per_account_channel_peer : DmScope
  other : DmScope

pub record RoutePeer : Type 0 where
  pub kind : String
  pub id : String

pub record SessionKeyParams : Type 0 where
  pub agent_id : String
  pub channel : String
  pub account_id : String
  pub peer : Option RoutePeer
  pub dm_scope : DmScope
  pub identity_links : List (String × List String)

pub record ParsedSessionKey : Type 0 where
  pub agent_id : String
  pub rest : String

unfoldable pub build_agent_main_session_key : String → String
unfolding ◌+++◌
build_agent_main_session_key agent_id =
    "agent:" +++ normalize_agent_id agent_id +++ ":" +++ default_main_key

unfoldable pub normalize_channel : String → String
normalize_channel channel =
    let c = trim_space (to_lower channel) in if str_eq c "" then "unknown" else c

-- What stands before and after the first colon; `strings.SplitN(s, ":", 3)` has three parts where
-- there is a second colon.
unfoldable pub cut_colon : String → Option (String × String)
cut_colon String.[] = none
cut_colon (String.◌∷◌ c s) = elim (code c == b':') [
  | true ↦ some ("", s)
  | false ↦ elim (cut_colon s) [ none ↦ none | some parts ↦ some (String.◌∷◌ c parts.0, parts.1) ]
]

-- `candidates[rawCandidate[idx+1:]]`: the part after the first colon, where neither side is empty
unfoldable pub bare_id : String → List String
bare_id raw = elim (cut_colon raw) [
  | none ↦ []
  | some parts ↦ if str_eq parts.0 "" || str_eq parts.1 "" then [] else parts.1 ∷ []
]

-- the set `candidates`
unfoldable pub link_candidates : String → String → List String
unfolding bare_id
link_candidates channel peer_id =
    let raw = to_lower peer_id in
    let scope = to_lower (trim_space channel) in
    let scoped = if str_eq scope "" then [] else (scope +++ ":" +++ raw) ∷ [] in
    (raw ∷ []) ++ scoped ++ bare_id raw

unfoldable pub is_candidate : List String → String → Bool
is_candidate [] id = false
is_candidate (c ∷ cs) id = str_eq c id || is_candidate cs id

-- the inner loop: whether one of the ids is a candidate
unfoldable pub any_linked : List String → List String → Bool
any_linked candidates [] = false
any_linked candidates (id ∷ ids) =
    let normalized = to_lower (trim_space id) in
    (not (str_eq normalized "") && is_candidate candidates normalized) || any_linked candidates ids

-- the outer loop
unfoldable pub first_linked : List String → List (String × List String) → String
first_linked candidates [] = ""
first_linked candidates (link ∷ links) =
    let canonical = trim_space link.0 in
    let later = first_linked candidates links in
    if not (str_eq canonical "") && any_linked candidates link.1 then canonical else later

unfoldable pub resolve_linked_peer_id : List (String × List String) → String → String → String
resolve_linked_peer_id links channel peer_id =
    let id = trim_space peer_id in
    if str_eq id "" then "" else first_linked (link_candidates channel id) links

-- `peerID` of a direct peer, after identity links and `ToLower`
unfoldable pub direct_peer_id : SessionKeyParams → DmScope → RoutePeer → String
direct_peer_id params scope peer =
    let id = trim_space peer.id in
    let linked = resolve_linked_peer_id params.identity_links params.channel id in
    let is_main : Bool = elim scope [ main ↦ true | _ ↦ false ] in
    to_lower (if not is_main && not (str_eq id "") && not (str_eq linked "") then linked else id)

abbrev pub no_peer : RoutePeer
no_peer = record { kind = "direct"; id = "" }

abbrev pub peer_of : Option RoutePeer → RoutePeer
peer_of none = no_peer
peer_of (some peer) = peer

unfoldable pub peer_kind_of : RoutePeer → String
peer_kind_of peer = let kind = trim_space peer.kind in if str_eq kind "" then "direct" else kind

unfoldable pub scope_of : DmScope → DmScope
scope_of unset = main
scope_of scope = scope

-- the `switch` on the scope, for a peer whose id is known
unfoldable pub scoped_session_key : SessionKeyParams → DmScope → String → String
scoped_session_key params per_account_channel_peer peer_id =
    "agent:"
    +++ normalize_agent_id params.agent_id
    +++ ":"
    +++ normalize_channel params.channel
    +++ ":"
    +++ normalize_account_id params.account_id
    +++ ":direct:"
    +++ peer_id
scoped_session_key params per_channel_peer peer_id =
    "agent:"
    +++ normalize_agent_id params.agent_id
    +++ ":"
    +++ normalize_channel params.channel
    +++ ":direct:"
    +++ peer_id
scoped_session_key params per_peer peer_id =
    "agent:" +++ normalize_agent_id params.agent_id +++ ":direct:" +++ peer_id
scoped_session_key params scope peer_id =
    build_agent_main_session_key (normalize_agent_id params.agent_id)

-- keys of direct peers
unfoldable pub direct_session_key : SessionKeyParams → DmScope → String → String
direct_session_key params scope peer_id =
    if str_eq peer_id ""
    then build_agent_main_session_key (normalize_agent_id params.agent_id)
    else scoped_session_key params scope peer_id

-- keys of groups and channels
unfoldable pub group_session_key : SessionKeyParams → RoutePeer → String
group_session_key params peer =
    let id = to_lower (trim_space peer.id) in
    let peer_id = if str_eq id "" then "unknown" else id in
    "agent:"
    +++ normalize_agent_id params.agent_id
    +++ ":"
    +++ normalize_channel params.channel
    +++ ":"
    +++ peer_kind_of peer
    +++ ":"
    +++ peer_id

unfoldable pub build_agent_peer_session_key : SessionKeyParams → String
build_agent_peer_session_key params =
    let peer = peer_of params.peer in
    let scope = scope_of params.dm_scope in
    if str_eq (peer_kind_of peer) "direct"
    then direct_session_key params scope (direct_peer_id params scope peer)
    else group_session_key params peer

-- the checks on the three parts
unfoldable pub parsed_parts : String → String → String → Option ParsedSessionKey
parsed_parts first second rest =
    let agent = trim_space second in
    if str_eq first "agent" && not (str_eq agent "") && not (str_eq rest "")
    then some (record { agent_id = agent; rest = rest })
    else none

unfoldable pub parse_agent_session_key : String → Option ParsedSessionKey
parse_agent_session_key session_key =
    let raw = trim_space session_key in
    if str_eq raw "" then none else elim (cut_colon raw) [
      | none ↦ none
      | some outer ↦ elim (cut_colon outer.1) [
        | none ↦ none
        | some inner ↦ parsed_parts outer.0 inner.0 inner.1
      ]
    ]

unfoldable pub is_subagent_session_key : String → Bool
is_subagent_session_key session_key =
    let raw = trim_space session_key in
    if str_eq raw ""
    then false
    else if has_prefix (to_lower raw) "subagent:"
    then true
    else elim (parse_agent_session_key raw) [
      | none ↦ false
      | some parsed ↦ has_prefix (to_lower parsed.rest) "subagent:"
    ]
