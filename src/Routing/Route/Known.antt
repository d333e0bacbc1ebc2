-- ===== src/Routing/Route/Known.antt =====
-- The agents that `ResolveRoute` of route.go can name.
use text.Mathlib.Text.{◌==◌ as str_eq}
use myagent_bot.Base.{
  ℕ, subst, String, true, not, ◌&&◌, ◌≡◌, ◌≢◌, ◌⊎◌, refl, sym, Option, none, some, List, [], ◌∷◌,
  if◌then◌else◌, Bool-cases, inl, inr, arith, eq_iff,
}
use myagent_bot.Base.Text.{trim_space}
use myagent_bot.Routing.AgentId.{default_agent_id, is_valid_id, normalize_agent_id}
use myagent_bot.Routing.AgentId.Fixed.{normalize_valid, normalize-trim_space}
use myagent_bot.Routing.AgentId.Shape.{default_valid}
use myagent_bot.Routing.Route.Cascade.{priorities, best_binding, route_to, resolve_route_best}
use myagent_bot.Routing.Route.{
  Config, RouteInput, AgentBinding, AgentConfig, choose_route, marked_default,
  resolve_default_agent_id, lists_agent, pick_agent_id, resolve_route,
}

-- every configured id is of the form of `validIDRe` once normalised
abbrev pub IsWellNamed : List AgentConfig → Type 0
IsWellNamed [] = Unit
IsWellNamed (a ∷ rest) = (is_valid_id (normalize_agent_id a.id) ≡ true) × IsWellNamed rest

-- the id of an agent of the configuration, or the default id
abbrev pub IsKnown : List AgentConfig → String → Type 0
IsKnown agents id = (lists_agent id agents ≡ true) ⊎ (id ≡ default_agent_id)

lists-later :
    (a : AgentConfig) (rest : List AgentConfig) (id : String)
    → lists_agent id rest ≡ true
    → lists_agent id (a ∷ rest) ≡ true
unfolding lists_agent
lists-later a rest id h = ground arith

-- an agent's own id, normalised over again
lists-own :
    (a : AgentConfig) (rest : List AgentConfig)
    → is_valid_id (normalize_agent_id a.id) ≡ true
    → lists_agent (normalize_agent_id (normalize_agent_id (trim_space a.id))) (a ∷ rest) ≡ true
unfolding lists_agent
lists-own a rest h =
    rw (normalize-trim_space a.id, normalize_valid (normalize_agent_id a.id) h)
      (ground (arith, eq_iff (normalize_agent_id a.id) (normalize_agent_id a.id)))

-- the id that the search for a marked agent returns, if it returns one, is a listed one
abbrev IsListed : List AgentConfig → Option String → Type 0
IsListed agents none = Unit
IsListed agents (some id) = lists_agent (normalize_agent_id id) agents ≡ true

IsListed-later :
    (a : AgentConfig) (rest : List AgentConfig) (o : Option String)
    → IsListed rest o
    → IsListed (a ∷ rest) o
IsListed-later a rest none h = tt
IsListed-later a rest (some id) h = lists-later a rest (normalize_agent_id id) h

marked_default-IsListed :
    (agents : List AgentConfig) → IsWellNamed agents → IsListed agents (marked_default agents)
unfolding marked_default
marked_default-IsListed [] w = tt
marked_default-IsListed (a ∷ rest) (own, w) =
    elim (Bool-cases (a.is_default && not (str_eq (trim_space a.id) ""))) [
      | inl marked ↦ rw marked (lists-own a rest own)
      | inr later ↦
          rw later (IsListed-later a rest (marked_default rest) (marked_default-IsListed rest w))
    ]

default_id_kept : normalize_agent_id default_agent_id ≡ default_agent_id
default_id_kept = normalize_valid default_agent_id default_valid

IsKnown-default :
    (agents : List AgentConfig)
    → IsWellNamed agents
    → IsKnown agents (normalize_agent_id (resolve_default_agent_id agents))
unfolding resolve_default_agent_id
IsKnown-default [] w = inr default_id_kept
IsKnown-default (a ∷ rest) w = from_marked (marked_default (a ∷ rest)) (marked_default-IsListed _ w)
  where
    first : IsKnown (a ∷ rest) (
        normalize_agent_id (
          if str_eq (trim_space a.id) ""
          then default_agent_id
          else normalize_agent_id (trim_space a.id)))
    first = elim (Bool-cases (str_eq (trim_space a.id) "")) [
      | inl blank ↦ rw blank (inr default_id_kept)
      | inr named ↦ rw named (inl (lists-own a rest w.0))
    ]

    from_marked :
        (o : Option String)
        → IsListed (a ∷ rest) o
        → IsKnown (a ∷ rest) (
            normalize_agent_id (elim o [
              | some id ↦ id
              | none ↦
                  if str_eq (trim_space a.id) ""
                  then default_agent_id
                  else normalize_agent_id (trim_space a.id)
            ]))
    from_marked none h = first
    from_marked (some id) h = inl h

pub pick_agent_id-IsKnown :
    (agents : List AgentConfig) (id : String)
    → agents ≢ []
    → IsWellNamed agents
    → IsKnown agents (pick_agent_id agents id)
unfolding pick_agent_id
pick_agent_id-IsKnown [] id n w = absurd (n refl)
pick_agent_id-IsKnown (a ∷ rest) id n w = elim (Bool-cases (str_eq (trim_space id) "")) [
  | inl blank ↦ rw blank (IsKnown-default (a ∷ rest) w)
  | inr named ↦ elim (Bool-cases (lists_agent (normalize_agent_id (trim_space id)) (a ∷ rest))) [
    | inl known ↦ rw (named, known) (inl known)
    | inr unknown ↦ rw (named, unknown) (IsKnown-default (a ∷ rest) w)
  ]
]

-- Where agents are configured and each one's normalised id has the form of `validIDRe`, the agent
-- of every route, whatever the bindings and the message, is one of them or the agent `main`.
pub resolve_route-IsKnown :
    (cfg : Config) (input : RouteInput)
    → cfg.agents ≢ []
    → IsWellNamed cfg.agents
    → IsKnown cfg.agents (resolve_route cfg input).agent_id
resolve_route-IsKnown cfg input n w =
    subst (λ r. IsKnown cfg.agents r.agent_id) (sym (resolve_route_best cfg input))
      (chosen (best_binding _ (priorities input) cfg.bindings))
  where
    chosen :
        (o : Option (ℕ × AgentBinding))
        → IsKnown cfg.agents (route_to cfg input (priorities input) o).agent_id
    chosen none = unfold choose_route in pick_agent_id-IsKnown cfg.agents _ n w
    chosen (some (k, b)) = unfold choose_route in pick_agent_id-IsKnown cfg.agents _ n w
