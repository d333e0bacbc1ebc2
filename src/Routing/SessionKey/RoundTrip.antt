-- ===== src/Routing/SessionKey/RoundTrip.antt =====
-- `ParseAgentSessionKey` of session_key.go reads back the keys that the other functions build.
use text.Mathlib.Text.{◌==◌ as str_eq}
use myagent_bot.Base.{
  String, true, false, ◌≡◌, ◌≢◌, refl, ap, sym, ◌∙◌, Option, none, some, Bool-cases, inl, inr,
  if◌then◌else◌,
}
use myagent_bot.Base.Text.{is_space, trim_right, trim_space, to_lower, ◌+++◌}
use myagent_bot.Base.TextLaws.{empty-to_lower}
use myagent_bot.Routing.AgentId.{is_valid_id, normalize_agent_id}
use myagent_bot.Routing.AgentId.Fixed.{normalize_valid}
use myagent_bot.Routing.AgentId.Shape.{normalize_agent_id-IsAgentId}
use myagent_bot.Routing.SessionKey.Ends.{
  IsEnd, IsEnd-+++, not_filled, parse_form, main-IsEnd, unknown-IsEnd, trim_right-trim_space,
  lower-IsEnd, trim_right-if, trim_right-resolve,
}
use myagent_bot.Routing.SessionKey.{
  unset, main, per_peer, per_channel_peer, per_account_channel_peer, other, SessionKeyParams,
  ParsedSessionKey, RoutePeer, DmScope, default_main_key, build_agent_main_session_key,
  build_agent_peer_session_key, direct_session_key, scoped_session_key, group_session_key,
  direct_peer_id, peer_of, peer_kind_of, scope_of, parse_agent_session_key,
}

-- A main key is read back as the normalised id of its agent and `main`.
pub parse-build_main :
    (id : String)
    → parse_agent_session_key (build_agent_main_session_key id)
      ≡ some (record { agent_id = normalize_agent_id id; rest = default_main_key })
unfolding build_agent_main_session_key
parse-build_main id =
    parse_form (normalize_agent_id-IsAgentId id)
      (unfold trim_right is_space in refl, not_filled refl)

-- The key is `agent:`, the id, a colon and a text with no white space at its end.
abbrev IsKeyOf : String → String → Type 0
IsKeyOf agent key = (rest : String) × (key ≡ "agent:" +++ agent +++ ":" +++ rest) × IsEnd rest

main-IsKeyOf :
    (id : String)
    → is_valid_id (normalize_agent_id id) ≡ true
    → IsKeyOf (normalize_agent_id id) (build_agent_main_session_key (normalize_agent_id id))
unfolding build_agent_main_session_key
main-IsKeyOf id h = (
  "main",
  ap (λ a. "agent:" +++ a +++ ":main") (normalize_valid (normalize_agent_id id) h),
  main-IsEnd,
)

direct_prefix : (id : String) → ":direct:" +++ id ≡ ":" +++ "direct:" +++ id
unfolding ◌+++◌
direct_prefix id = refl

scoped-IsKeyOf :
    (params : SessionKeyParams) (scope : DmScope) (peer_id : String)
    → is_valid_id (normalize_agent_id params.agent_id) ≡ true
    → IsEnd peer_id
    → IsKeyOf (normalize_agent_id params.agent_id) (scoped_session_key params scope peer_id)
unfolding scoped_session_key
scoped-IsKeyOf params per_account_channel_peer peer_id h e =
    (_, refl, IsEnd-+++ _ (IsEnd-+++ ":" (IsEnd-+++ _ (IsEnd-+++ ":direct:" e))))
scoped-IsKeyOf params per_channel_peer peer_id h e = (_, refl, IsEnd-+++ _ (IsEnd-+++ ":direct:" e))
scoped-IsKeyOf params per_peer peer_id h e = (
  "direct:" +++ peer_id,
  ap (λ t. "agent:" +++ normalize_agent_id params.agent_id +++ t) (direct_prefix peer_id),
  IsEnd-+++ "direct:" e,
)
scoped-IsKeyOf params unset peer_id h e = main-IsKeyOf params.agent_id h
scoped-IsKeyOf params main peer_id h e = main-IsKeyOf params.agent_id h
scoped-IsKeyOf params other peer_id h e = main-IsKeyOf params.agent_id h

direct_peer_id-IsEnd :
    (params : SessionKeyParams) (scope : DmScope) (peer : RoutePeer)
    → str_eq (direct_peer_id params scope peer) "" ≡ false
    → IsEnd (direct_peer_id params scope peer)
unfolding direct_peer_id
direct_peer_id-IsEnd params scope peer h =
    lower-IsEnd _
      (trim_right-if _
        (trim_right-resolve params.identity_links params.channel (trim_space peer.id))
        (trim_right-trim_space peer.id))
      (sym (empty-to_lower _) ∙ h)

direct-IsKeyOf :
    (params : SessionKeyParams) (scope : DmScope) (peer : RoutePeer)
    → is_valid_id (normalize_agent_id params.agent_id) ≡ true
    → IsKeyOf
        (normalize_agent_id params.agent_id)
        (direct_session_key params scope (direct_peer_id params scope peer))
unfolding direct_session_key
direct-IsKeyOf params scope peer h =
    elim (Bool-cases (str_eq (direct_peer_id params scope peer) "")) [
      | inl empty ↦ rw empty (main-IsKeyOf params.agent_id h)
      | inr known ↦
          rw known (scoped-IsKeyOf params scope _ h (direct_peer_id-IsEnd params scope peer known))
    ]

group-IsKeyOf :
    (params : SessionKeyParams) (peer : RoutePeer)
    → IsKeyOf (normalize_agent_id params.agent_id) (group_session_key params peer)
unfolding group_session_key
group-IsKeyOf params peer = (
  _,
  refl,
  IsEnd-+++ _ (
      IsEnd-+++ ":" (
        IsEnd-+++ _
          (IsEnd-+++ ":" (peer_end (trim_space peer.id) (trim_right-trim_space peer.id))))),
)
  where
    peer_end :
        (s : String)
        → trim_right s ≡ s
        → IsEnd (if str_eq (to_lower s) "" then "unknown" else to_lower s)
    peer_end s e = elim (Bool-cases (str_eq (to_lower s) "")) [
      | inl empty ↦ rw empty unknown-IsEnd
      | inr known ↦ rw known (lower-IsEnd s e (sym (empty-to_lower s) ∙ known))
    ]

peer-IsKeyOf :
    (params : SessionKeyParams)
    → is_valid_id (normalize_agent_id params.agent_id) ≡ true
    → IsKeyOf (normalize_agent_id params.agent_id) (build_agent_peer_session_key params)
unfolding build_agent_peer_session_key
peer-IsKeyOf params h =
    let peer = peer_of params.peer in
    elim (Bool-cases (str_eq (peer_kind_of peer) "direct")) [
      | inl direct ↦ rw direct (direct-IsKeyOf params (scope_of params.dm_scope) peer h)
      | inr group ↦ rw group (group-IsKeyOf params peer)
    ]

-- Every key that `BuildAgentPeerSessionKey` builds, for whatever channel, account, peer, scope and
-- identity links, is read back as the normalised id of its agent and the text behind it, where the
-- normalised id has the form of `validIDRe`.
pub parse-build_peer :
    (params : SessionKeyParams)
    → is_valid_id (normalize_agent_id params.agent_id) ≡ true
    → (rest : String) × (build_agent_peer_session_key params
        ≡ "agent:" +++ normalize_agent_id params.agent_id +++ ":" +++ rest)
      × (parse_agent_session_key (build_agent_peer_session_key params)
          ≡ some (record { agent_id = normalize_agent_id params.agent_id; rest = rest }))
parse-build_peer params h =
    let (rest, e, end) = peer-IsKeyOf params h in
    (
      rest,
      e,
      ap parse_agent_session_key e ∙ parse_form (normalize_agent_id-IsAgentId params.agent_id) end,
    )

-- Two agents whose normalised ids differ, both of the form of `validIDRe`, never have a session in
-- common: a key of one is no key of the other, whatever their peers, scopes and links.
pub peer_keys_apart :
    (one two : SessionKeyParams)
    → is_valid_id (normalize_agent_id one.agent_id) ≡ true
    → is_valid_id (normalize_agent_id two.agent_id) ≡ true
    → normalize_agent_id one.agent_id ≢ normalize_agent_id two.agent_id
    → build_agent_peer_session_key one ≢ build_agent_peer_session_key two
peer_keys_apart one two h k apart same =
    let (r, _, p) = parse-build_peer one h in
    let (s, _, q) = parse-build_peer two k in
    apart (agent_of (sym p ∙ ap parse_agent_session_key same ∙ q))
  where
    agents : Option ParsedSessionKey → String
    agents none = ""
    agents (some parsed) = parsed.agent_id

    agent_of : {a b : ParsedSessionKey} → (some a ≡ some b) → a.agent_id ≡ b.agent_id
    agent_of e = ap agents e
