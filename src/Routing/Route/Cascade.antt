-- ===== src/Routing/Route/Cascade.antt =====
-- `ResolveRoute` of route.go against one pass over the bindings that keeps the binding of best rank.
use text.Mathlib.Text.{◌==◌ as str_eq}
use myagent_bot.Base.{
  ℕ, zero, suc, ltb, String, Bool, true, false, not, ◌&&◌, ◌≡◌, refl, ap, sym, ◌∙◌, Option, none,
  some, List, [], ◌∷◌, if◌then◌else◌, Bool-cases, Option-cases, inl, inr, arith,
}
use myagent_bot.Base.Text.{trim_space, to_lower}
use myagent_bot.Routing.AgentId.{normalize_account_id}
use myagent_bot.Routing.SessionKey.{RoutePeer}
use myagent_bot.Routing.Route.{
  Config, RouteInput, ResolvedRoute, AgentBinding, is_bound_to, filter_bindings, find_binding,
  is_peer_match, is_guild_match, is_team_match, is_account_match, is_channel_wildcard_match,
  search_peer, search_guild, search_team, or_next, choose_route, resolve_default_agent_id,
  resolve_route,
}

abbrev pub Test : Type 0
Test = AgentBinding → Bool

-- What the first, second, third and fourth priority ask of a binding, the message's own fields
-- included.
abbrev pub asks_peer : Option RoutePeer → Test
asks_peer none b = false
asks_peer (some peer) b = not (str_eq (trim_space peer.id) "") && is_peer_match peer b

abbrev pub asks_guild : String → Test
asks_guild guild_id b =
    not (str_eq (trim_space guild_id) "") && is_guild_match (trim_space guild_id) b

abbrev pub asks_team : String → Test
asks_team team_id b = not (str_eq (trim_space team_id) "") && is_team_match (trim_space team_id) b

-- The six priorities, best first, each with its name.
abbrev pub priorities : RouteInput → List (String × Test)
priorities input =
    ("binding.peer", asks_peer input.peer)
    ∷ ("binding.peer.parent", asks_peer input.parent_peer)
    ∷ ("binding.guild", asks_guild input.guild_id)
    ∷ ("binding.team", asks_team input.team_id)
    ∷ ("binding.account", is_account_match)
    ∷ ("binding.channel", is_channel_wildcard_match)
    ∷ []

abbrev pub next_rank : Option (ℕ × AgentBinding) → Option (ℕ × AgentBinding)
next_rank none = none
next_rank (some (k, b)) = some (suc k, b)

-- a binding with the place of the first priority it satisfies
abbrev pub ranked : List (String × Test) → AgentBinding → Option (ℕ × AgentBinding)
ranked [] b = none
ranked (row ∷ rows) b = if row.1 b then some (0, b) else next_rank (ranked rows b)

-- of two, the one of better rank; of two alike, the first
abbrev pub better :
    Option (ℕ × AgentBinding) → Option (ℕ × AgentBinding) → Option (ℕ × AgentBinding)
better none r = r
better (some l) none = some l
better (some l) (some r) = if ltb r.0 l.0 then some r else some l

-- The binding of best rank among those of the message's channel and account.
abbrev pub best_binding :
    (AgentBinding → Bool) → List (String × Test) → List AgentBinding → Option (ℕ × AgentBinding)
best_binding bound rows [] = none
best_binding bound rows (b ∷ bs) =
    let later = best_binding bound rows bs in
    if bound b then better (ranked rows b) later else later

abbrev pub tag_at : List (String × Test) → ℕ → String
tag_at [] k = "default"
tag_at (row ∷ rows) zero = row.0
tag_at (row ∷ rows) (suc k) = tag_at rows k

-- The route for a binding and its rank, or to the default agent.
abbrev pub route_to :
    Config → RouteInput → List (String × Test) → Option (ℕ × AgentBinding) → ResolvedRoute
route_to cfg input rows none =
    choose_route cfg input (resolve_default_agent_id cfg.agents) "default"
route_to cfg input rows (some (k, b)) = choose_route cfg input b.agent_id (tag_at rows k)

abbrev guarded : Bool → Test → Test
guarded g t b = g && t b

find_none : (bs : List AgentBinding) → find_binding (λ _. false) bs ≡ none
unfolding find_binding
find_none [] = refl
find_none (b ∷ bs) = find_none bs

find-guarded :
    (blank : Bool) (t : Test) (bs : List AgentBinding)
    → (if blank then none else find_binding t bs) ≡ find_binding (guarded (not blank) t) bs
find-guarded true t bs = sym (find_none bs)
find-guarded false t bs = refl

search_peer_lem :
    (peer : Option RoutePeer) (bs : List AgentBinding)
    → search_peer peer bs ≡ find_binding (asks_peer peer) bs
unfolding search_peer
search_peer_lem none bs = sym (find_none bs)
search_peer_lem (some peer) bs =
    find-guarded (str_eq (trim_space peer.id) "") (is_peer_match peer) bs

search_guild_lem :
    (guild_id : String) (bs : List AgentBinding)
    → search_guild guild_id bs ≡ find_binding (asks_guild guild_id) bs
unfolding search_guild
search_guild_lem guild_id bs = find-guarded (str_eq (trim_space guild_id) "") _ bs

search_team_lem :
    (team_id : String) (bs : List AgentBinding)
    → search_team team_id bs ≡ find_binding (asks_team team_id) bs
unfolding search_team
search_team_lem team_id bs = find-guarded (str_eq (trim_space team_id) "") _ bs

-- the priorities one after the other, each over all the bindings
abbrev cascade : Config → RouteInput → List (String × Test) → List AgentBinding → ResolvedRoute
cascade cfg input [] bs = choose_route cfg input (resolve_default_agent_id cfg.agents) "default"
cascade cfg input (row ∷ rows) bs =
    or_next cfg input row.0 (find_binding row.1 bs) (cascade cfg input rows bs)

abbrev found_or : Option AgentBinding → Option (ℕ × AgentBinding) → Option (ℕ × AgentBinding)
found_or none r = r
found_or (some b) r = some (0, b)

abbrev ranked_search : List (String × Test) → List AgentBinding → Option (ℕ × AgentBinding)
ranked_search [] bs = none
ranked_search (row ∷ rows) bs = found_or (find_binding row.1 bs) (next_rank (ranked_search rows bs))

cascade-ranked_search :
    (cfg : Config) (input : RouteInput) (rows : List (String × Test)) (bs : List AgentBinding)
    → cascade cfg input rows bs ≡ route_to cfg input rows (ranked_search rows bs)
unfolding or_next
cascade-ranked_search cfg input [] bs = refl
cascade-ranked_search cfg input (row ∷ rows) bs = elim (Option-cases (find_binding row.1 bs)) [
  | inl missed ↦
      rw (ranked_search, missed)
        (cascade-ranked_search cfg input rows bs ∙ shift (ranked_search rows bs))
  | inr (b, found) ↦ rw (ranked_search, found) refl
]
  where
    shift :
        (r : Option (ℕ × AgentBinding))
        → route_to cfg input rows r ≡ route_to cfg input (row ∷ rows) (next_rank r)
    shift none = refl
    shift (some (k, b)) = refl

better_first :
    (b : AgentBinding) (r : Option (ℕ × AgentBinding)) → better (some (0, b)) r ≡ some (0, b)
better_first b none = refl
better_first b (some r) = ground arith

better_second :
    (l : Option (ℕ × AgentBinding)) (b : AgentBinding)
    → better (next_rank l) (some (0, b)) ≡ some (0, b)
better_second none b = refl
better_second (some (k, c)) b = ground arith

better-next_rank :
    (l r : Option (ℕ × AgentBinding)) → next_rank (better l r) ≡ better (next_rank l) (next_rank r)
better-next_rank none r = refl
better-next_rank (some (k, b)) none = refl
better-next_rank (some (k, b)) (some (m, c)) = ground arith

ranked_search-cons :
    (rows : List (String × Test)) (b : AgentBinding) (bs : List AgentBinding)
    → ranked_search rows (b ∷ bs) ≡ better (ranked rows b) (ranked_search rows bs)
unfolding find_binding
ranked_search-cons [] b bs = refl
ranked_search-cons (row ∷ rows) b bs = elim (Bool-cases (row.1 b)) [
  | inl asked ↦ rw asked (sym (better_first b (ranked_search (row ∷ rows) bs)))
  | inr missed ↦
      rw (missed, ranked_search-cons rows b bs)
        elim (Option-cases (find_binding row.1 bs)) [
          | inl none_left ↦
              rw (ranked_search, none_left)
                (better-next_rank (ranked rows b) (ranked_search rows bs))
          | inr (c, found) ↦ rw (ranked_search, found) (sym (better_second (ranked rows b) c))
        ]
]

ranked_search-none : (rows : List (String × Test)) → ranked_search rows [] ≡ none
unfolding find_binding
ranked_search-none [] = refl
ranked_search-none (row ∷ rows) = rw (ranked_search-none rows) refl

ranked_search-filter :
    (channel account_id : String) (rows : List (String × Test)) (bs : List AgentBinding)
    → ranked_search rows (filter_bindings channel account_id bs)
      ≡ best_binding (is_bound_to channel account_id) rows bs
unfolding filter_bindings
ranked_search-filter channel account_id rows [] = ranked_search-none rows
ranked_search-filter channel account_id rows (b ∷ bs) =
    elim (Bool-cases (is_bound_to channel account_id b)) [
      | inl bound ↦
          rw
            (
              bound,
              ranked_search-cons rows b (filter_bindings channel account_id bs),
              ranked_search-filter channel account_id rows bs,
            )
            refl
      | inr unbound ↦ rw unbound (ranked_search-filter channel account_id rows bs)
    ]

-- For every configuration and message, `ResolveRoute` returns the route of one pass over the
-- bindings: of those bound to the message's channel and account, the one that satisfies the best
-- of the six priorities, the first in the list among equals, and the default agent where none
-- satisfies any.
pub resolve_route_best :
    (cfg : Config) (input : RouteInput)
    → resolve_route cfg input
      ≡ route_to cfg input (priorities input) (
          best_binding
            (is_bound_to
              (to_lower (trim_space input.channel))
              (normalize_account_id input.account_id))
            (priorities input)
            cfg.bindings)
unfolding resolve_route
resolve_route_best cfg input =
    let channel = to_lower (trim_space input.channel) in
    let account_id = normalize_account_id input.account_id in
    let bs = filter_bindings channel account_id cfg.bindings in
    rw
      (
        search_peer_lem input.peer bs,
        search_peer_lem input.parent_peer bs,
        search_guild_lem input.guild_id bs,
        search_team_lem input.team_id bs,
      )
      (cascade-ranked_search cfg input (priorities input) bs
        ∙ ap (route_to cfg input (priorities input))
            (ranked_search-filter channel account_id (priorities input) cfg.bindings))
