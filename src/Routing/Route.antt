-- ===== src/Routing/Route.antt =====
-- Which agent handles a message: PinchBot/pkg/routing/route.go, with the bindings of
-- PinchBot/pkg/config/config.go. A binding that a search returns is given by its value.
pub mod Cascade
pub mod Known
use text.Mathlib.Text.{◌==◌ as str_eq}
use myagent_bot.Base.{
  String, Bool, true, false, not, ◌&&◌, ◌||◌, Option, none, some, List, [], ◌∷◌, if◌then◌else◌,
}
use myagent_bot.Base.Text.{trim_space, to_lower}
use myagent_bot.Routing.AgentId.{
  default_agent_id, default_account_id, normalize_agent_id, normalize_account_id,
}
use myagent_bot.Routing.SessionKey.{
  DmScope, RoutePeer, scope_of, build_agent_main_session_key, build_agent_peer_session_key,
}

pub record PeerMatch : Type 0 where
  pub kind : String
  pub id : String

pub record BindingMatch : Type 0 where
  pub channel : String
  pub account_id : String
  pub peer : Option PeerMatch
  pub guild_id : String
  pub team_id : String

pub record AgentBinding : Type 0 where
  pub agent_id : String
  pub match : BindingMatch

-- an entry of `cfg.Agents.List`; its other fields play no part in routing
pub record AgentConfig : Type 0 where
  pub id : String
  pub is_default : Bool

-- the parts of the configuration that routing reads
pub record Config : Type 0 where
  pub agents : List AgentConfig
  pub bindings : List AgentBinding
  pub dm_scope : DmScope
  pub identity_links : List (String × List String)

pub record RouteInput : Type 0 where
  pub channel : String
  pub account_id : String
  pub peer : Option RoutePeer
  pub parent_peer : Option RoutePeer
  pub guild_id : String
  pub team_id : String

pub record ResolvedRoute : Type 0 where
  pub agent_id : String
  pub channel : String
  pub account_id : String
  pub session_key : String
  pub main_session_key : String
  pub matched_by : String

unfoldable pub matches_account_id : String → String → Bool
matches_account_id match_account_id actual =
    let trimmed = trim_space match_account_id in
    if str_eq trimmed ""
    then str_eq actual default_account_id
    else if str_eq trimmed "*"
    then true
    else str_eq (to_lower trimmed) (to_lower actual)

-- the guards of the loop of `filterBindings`
unfoldable pub is_bound_to : String → String → AgentBinding → Bool
is_bound_to channel account_id b =
    let match_channel = to_lower (trim_space b.match.channel) in
    not (str_eq match_channel "" || not (str_eq match_channel channel))
    && matches_account_id b.match.account_id account_id

unfoldable pub filter_bindings : String → String → List AgentBinding → List AgentBinding
filter_bindings channel account_id [] = []
filter_bindings channel account_id (b ∷ bs) =
    let later = filter_bindings channel account_id bs in
    if is_bound_to channel account_id b then b ∷ later else later

-- The loop that the five searches share: the first binding that passes a test.
unfoldable pub find_binding : (AgentBinding → Bool) → List AgentBinding → Option AgentBinding
find_binding test [] = none
find_binding test (b ∷ bs) = let later = find_binding test bs in if test b then some b else later

-- the body of the loop of `findPeerMatch`
unfoldable pub is_peer_match : RoutePeer → AgentBinding → Bool
is_peer_match peer b = elim b.match.peer [
  | none ↦ false
  | some bound ↦
      let kind = to_lower (trim_space bound.kind) in
      let id = trim_space bound.id in
      not (str_eq kind "" || str_eq id "")
      && (str_eq kind (to_lower peer.kind) && str_eq id peer.id)
]

unfoldable pub is_guild_match : String → AgentBinding → Bool
is_guild_match guild_id b =
    let match_guild = trim_space b.match.guild_id in
    not (str_eq match_guild "") && str_eq match_guild guild_id

unfoldable pub is_team_match : String → AgentBinding → Bool
is_team_match team_id b =
    let match_team = trim_space b.match.team_id in
    not (str_eq match_team "") && str_eq match_team team_id

-- no peer, guild or team is bound
unfoldable pub is_unscoped : AgentBinding → Bool
is_unscoped b =
    let has_peer : Bool = elim b.match.peer [ none ↦ false | some _ ↦ true ] in
    not (has_peer || not (str_eq b.match.guild_id "") || not (str_eq b.match.team_id ""))

unfoldable pub is_account_match : AgentBinding → Bool
unfolding is_unscoped
is_account_match b = not (str_eq (trim_space b.match.account_id) "*") && is_unscoped b

unfoldable pub is_channel_wildcard_match : AgentBinding → Bool
unfolding is_unscoped
is_channel_wildcard_match b = str_eq (trim_space b.match.account_id) "*" && is_unscoped b

-- the loop of `resolveDefaultAgentID`
unfoldable pub marked_default : List AgentConfig → Option String
marked_default [] = none
marked_default (a ∷ rest) =
    let later = marked_default rest in
    let id = trim_space a.id in
    if a.is_default && not (str_eq id "") then some (normalize_agent_id id) else later

unfoldable pub resolve_default_agent_id : List AgentConfig → String
resolve_default_agent_id [] = default_agent_id
resolve_default_agent_id (first ∷ rest) = elim (marked_default (first ∷ rest)) [
  | some id ↦ id
  | none ↦
      let id = trim_space first.id in
      if str_eq id "" then default_agent_id else normalize_agent_id id
]

-- the loop of `pickAgentID`
unfoldable pub lists_agent : String → List AgentConfig → Bool
lists_agent normalized [] = false
lists_agent normalized (a ∷ rest) =
    str_eq (normalize_agent_id a.id) normalized || lists_agent normalized rest

unfoldable pub pick_agent_id : List AgentConfig → String → String
pick_agent_id [] agent_id =
    let trimmed = trim_space agent_id in
    if str_eq trimmed ""
    then normalize_agent_id (resolve_default_agent_id [])
    else normalize_agent_id trimmed
pick_agent_id (a ∷ rest) agent_id =
    let trimmed = trim_space agent_id in
    let fallback = normalize_agent_id (resolve_default_agent_id (a ∷ rest)) in
    let normalized = normalize_agent_id trimmed in
    if str_eq trimmed ""
    then fallback
    else if lists_agent normalized (a ∷ rest)
    then normalized
    else fallback

-- the closure `choose` of `ResolveRoute`
unfoldable pub choose_route : Config → RouteInput → String → String → ResolvedRoute
choose_route cfg input agent_id matched_by =
    let channel = to_lower (trim_space input.channel) in
    let account_id = normalize_account_id input.account_id in
    let resolved = pick_agent_id cfg.agents agent_id in
    record {
      agent_id = resolved;
      channel = channel;
      account_id = account_id;
      session_key = to_lower (
          build_agent_peer_session_key (record {
            agent_id = resolved;
            channel = channel;
            account_id = account_id;
            peer = input.peer;
            dm_scope = scope_of cfg.dm_scope;
            identity_links = cfg.identity_links;
          }));
      main_session_key = to_lower (build_agent_main_session_key resolved);
      matched_by = matched_by;
    }

-- The guard and the search of the first two priorities.
unfoldable pub search_peer : Option RoutePeer → List AgentBinding → Option AgentBinding
search_peer none bs = none
search_peer (some peer) bs =
    if str_eq (trim_space peer.id) "" then none else find_binding (is_peer_match peer) bs

unfoldable pub search_guild : String → List AgentBinding → Option AgentBinding
search_guild guild_id bs =
    let id = trim_space guild_id in
    if str_eq id "" then none else find_binding (is_guild_match id) bs

unfoldable pub search_team : String → List AgentBinding → Option AgentBinding
search_team team_id bs =
    let id = trim_space team_id in if str_eq id "" then none else find_binding (is_team_match id) bs

-- `if match := …; match != nil { return choose(match.AgentID, tag) }`
unfoldable pub or_next :
    Config → RouteInput → String → Option AgentBinding → ResolvedRoute → ResolvedRoute
or_next cfg input tag none next = next
or_next cfg input tag (some b) next = choose_route cfg input b.agent_id tag

unfoldable pub resolve_route : Config → RouteInput → ResolvedRoute
resolve_route cfg input =
    let channel = to_lower (trim_space input.channel) in
    let account_id = normalize_account_id input.account_id in
    let bs = filter_bindings channel account_id cfg.bindings in
    or_next cfg input "binding.peer" (search_peer input.peer bs) (
      or_next cfg input "binding.peer.parent" (search_peer input.parent_peer bs) (
        or_next cfg input "binding.guild" (search_guild input.guild_id bs) (
          or_next cfg input "binding.team" (search_team input.team_id bs) (
            or_next cfg input "binding.account" (find_binding is_account_match bs) (
              or_next cfg input "binding.channel" (find_binding is_channel_wildcard_match bs)
                (choose_route cfg input (resolve_default_agent_id cfg.agents) "default"))))))
