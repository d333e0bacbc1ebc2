-- ===== src/Routing/Tests.antt =====
-- Runs of the routing functions on concrete data, and instances of the theorems.
use myagent_bot.Base.{sym, ◌∙◌, ◌≢◌, eq_iff, true, false, ◌≡◌, refl, none, some, [], ◌∷◌}
use myagent_bot.Base.Text.{trim_space, to_lower, ◌+++◌, all_chars, count}
use myagent_bot.Routing.AgentId.{
  is_id_start, is_id_char, is_valid_id, dash_runs, strip_leading_dashes, strip_trailing_dashes,
  sanitized, normalize_agent_id, normalize_account_id,
}
use Prim.Native.String.{String}
use text.Mathlib.Text.{◌==◌ as str_eq}
use mathlib.Core.Bool.{false≢true}
use mathlib.Core.List.{cons-ne-nil}
use myagent_bot.Routing.AgentId.Shape.{IsAgentId, normalize_agent_id-IsAgentId}
use myagent_bot.Routing.SessionKey.RoundTrip.{parse-build_peer, peer_keys_apart}
use myagent_bot.Routing.Route.{
  Config, RouteInput, AgentBinding, resolve_route, is_bound_to, or_next, search_peer, search_guild,
  find_binding, filter_bindings, matches_account_id, is_guild_match, choose_route,
}
use myagent_bot.Routing.Route.Cascade.{priorities, best_binding, route_to, resolve_route_best}
use myagent_bot.Routing.Route.Known.{IsKnown, resolve_route-IsKnown}
use myagent_bot.Routing.SessionKey.{
  unset, parse_agent_session_key, SessionKeyParams, build_agent_peer_session_key,
  per_account_channel_peer, peer_kind_of, direct_session_key, direct_peer_id, scope_of,
  resolve_linked_peer_id, first_linked, any_linked, is_candidate, link_candidates,
  scoped_session_key, normalize_channel,
}

sales : normalize_agent_id " Sales Team! " ≡ "sales-team"
unfolding normalize_agent_id trim_space is_valid_id to_lower is_id_start all_chars is_id_char
    sanitized count strip_trailing_dashes strip_leading_dashes dash_runs
sales = refl

underscore : normalize_agent_id "_x" ≡ "_x"
unfolding normalize_agent_id trim_space is_valid_id to_lower is_id_start all_chars is_id_char
    sanitized count strip_trailing_dashes strip_leading_dashes dash_runs
underscore = refl

abbrev linked : SessionKeyParams
linked = record {
  agent_id = "Sales";
  channel = "Telegram";
  account_id = "";
  peer = some (record { kind = "direct"; id = "123" });
  dm_scope = per_account_channel_peer;
  identity_links = ("Alice", "telegram:123" ∷ []) ∷ [];
}

linked_key : build_agent_peer_session_key linked ≡ "agent:sales:telegram:default:direct:alice"
unfolding build_agent_peer_session_key peer_kind_of trim_space direct_session_key direct_peer_id
    to_lower scope_of resolve_linked_peer_id first_linked any_linked is_candidate link_candidates
    ◌+++◌ scoped_session_key normalize_account_id normalize_agent_id is_valid_id is_id_start
    all_chars is_id_char count normalize_channel
linked_key = refl

normalize_agent_id-IsAgentId_example : IsAgentId (normalize_agent_id " Sales Team! ")
normalize_agent_id-IsAgentId_example = normalize_agent_id-IsAgentId " Sales Team! "

sales_valid : is_valid_id (normalize_agent_id "Sales") ≡ true
unfolding normalize_agent_id trim_space is_valid_id to_lower is_id_start all_chars is_id_char count
sales_valid = refl

parse-build_peer_example :
    (rest : String) × (build_agent_peer_session_key linked
      ≡ "agent:" +++ normalize_agent_id "Sales" +++ ":" +++ rest)
    × (parse_agent_session_key (build_agent_peer_session_key linked)
        ≡ some (record { agent_id = normalize_agent_id "Sales"; rest = rest }))
parse-build_peer_example = parse-build_peer linked sales_valid

abbrev other_agent : SessionKeyParams
other_agent = record linked { agent_id = "ops" }

ops_valid : is_valid_id (normalize_agent_id "ops") ≡ true
unfolding normalize_agent_id trim_space is_valid_id to_lower is_id_start all_chars is_id_char count
ops_valid = refl

sales_is_ops : str_eq (normalize_agent_id "Sales") (normalize_agent_id "ops") ≡ false
unfolding normalize_agent_id trim_space is_valid_id to_lower is_id_start all_chars is_id_char count
sales_is_ops = refl

sales_ops : normalize_agent_id "Sales" ≢ normalize_agent_id "ops"
sales_ops e =
    false≢true
      (sym sales_is_ops ∙ (eq_iff (normalize_agent_id "Sales") (normalize_agent_id "ops")).1 e)

peer_keys_apart_example :
    build_agent_peer_session_key linked ≢ build_agent_peer_session_key other_agent
peer_keys_apart_example = peer_keys_apart linked other_agent sales_valid ops_valid sales_ops

abbrev to_ops : AgentBinding
to_ops = record {
  agent_id = "ops";
  match = record {
    channel = "telegram";
    account_id = "*";
    peer = none;
    guild_id = "g1";
    team_id = "";
  };
}

abbrev to_sales : AgentBinding
to_sales = record to_ops {
  agent_id = "sales";
  match = record {
    channel = "telegram";
    account_id = "*";
    peer = none;
    guild_id = "";
    team_id = "";
  };
}

abbrev office : Config
office = record {
  agents =
      record { id = "Sales"; is_default = true } ∷ record { id = "ops"; is_default = false } ∷ [];
  bindings = to_sales ∷ to_ops ∷ [];
  dm_scope = unset;
  identity_links = [];
}

abbrev from_guild : RouteInput
from_guild = record {
  channel = " Telegram";
  account_id = "";
  peer = none;
  parent_peer = none;
  guild_id = "g1";
  team_id = "";
}

guild_first : (resolve_route office from_guild).matched_by ≡ "binding.guild"
unfolding resolve_route or_next search_peer search_guild trim_space find_binding filter_bindings
    is_bound_to to_lower matches_account_id is_guild_match choose_route
guild_first = refl

resolve_route_best_example :
    resolve_route office from_guild
    ≡ route_to office from_guild (priorities from_guild) (
        best_binding
          (is_bound_to (to_lower (trim_space " Telegram")) (normalize_account_id ""))
          (priorities from_guild)
          (to_sales ∷ to_ops ∷ []))
resolve_route_best_example = resolve_route_best office from_guild

resolve_route-IsKnown_example : IsKnown office.agents (resolve_route office from_guild).agent_id
resolve_route-IsKnown_example =
    resolve_route-IsKnown office from_guild (cons-ne-nil _ _) (sales_valid, (ops_valid, tt))
