-- ===== src/Platform/Proxy/Request.antt =====
-- `ProxyOfficialChatRequest` of service.go as a whole: the name is resolved, then the chat is proxied.
use Prim.Native.Char.{Char}
use text.Mathlib.Text.{◌==◌}
use myagent_bot.Base.{
  String, ◌≡◌, refl, sym, ap, ◌∙◌, subst, inl, inr, List, [], ◌∷◌, Bool, true, false, ok, err,
  Bool-cases, Option-cases, Result-cases, if◌then◌else◌, eq_iff, ◌⊎◌,
}
use myagent_bot.Base.Dict.{Dict}
use myagent_bot.Base.Int64.{sub64, IsInt64}
use myagent_bot.Base.Text.{trim_space}
use myagent_bot.Platform.Types.{external, unknown_model, model_disabled}
use myagent_bot.Platform.Store.State.{MemoryStore, Outcome}
use myagent_bot.Platform.Store.Entries.{balance}
use myagent_bot.Platform.Billing.{PricingRule}
use myagent_bot.Platform.Failover.{Failover}
use myagent_bot.Platform.Proxy.{Surroundings, ChatProxyResponse, proxy_resolved}
use myagent_bot.Platform.Proxy.Candidates.{OfficialModel}
use myagent_bot.Platform.Proxy.Names.{
  resolve_enabled_official_model_id, resolve_official_model_id, enabled_model_id,
}
use myagent_bot.Platform.Proxy.Cost.{proxy_cost}
use myagent_bot.Platform.Proxy.Exhausted.{NoneAnswers, proxy_exhausted}

-- The service's part of a request: whether it has a client, its models, prices and agreements.
pub record ProxyService : Type 0 where
  pub has_client : Bool
  pub is_word : Char → Bool
  pub models : List OfficialModel
  pub pricing : Dict PricingRule
  pub versions : List String

unfoldable pub proxy_official_chat_request :
    Surroundings
    → ProxyService
    → String
    → String
    → Failover
    → MemoryStore
    → Outcome ChatProxyResponse × Failover
proxy_official_chat_request around service user_id name f s = elim service.has_client [
  | false ↦ ((err (external "official proxy client not configured"), s), f)
  | true ↦ elim (resolve_enabled_official_model_id service.is_word service.models name) [
    | err e ↦ ((err e, s), f)
    | ok id ↦ proxy_resolved around service.models service.pricing service.versions user_id id f s
  ]
]

-- one of the models has the id and is enabled
abbrev pub IsOffered : String → List OfficialModel → Type 0
IsOffered id [] = ⊥
IsOffered id (m ∷ models) = ((trim_space m.id ≡ id) × (m.enabled ≡ true)) ⊎ IsOffered id models

enabled_model_id-IsOffered :
    (id found : String) (models : List OfficialModel)
    → enabled_model_id id models ≡ ok found
    → (found ≡ id) × IsOffered id models
unfolding enabled_model_id
enabled_model_id-IsOffered id found [] h = cc
enabled_model_id-IsOffered id found (m ∷ models) h = elim (Bool-cases (trim_space m.id == id)) [
  | inl same ↦ elim (Bool-cases m.enabled) [
    | inl on ↦
        let e : ok id ≡ ok found = sym (rw (enabled_model_id, same, on) refl) ∙ h in
        (cc, inl ((eq_iff (trim_space m.id) id).0 same, on))
    | inr off ↦
        let e : err model_disabled ≡ ok found = sym (rw (enabled_model_id, same, off) refl) ∙ h in
        cc
  ]
  | inr other ↦
      let e : enabled_model_id id models ≡ ok found = sym (rw (enabled_model_id, other) refl) ∙ h in
      let (found_id, later) = enabled_model_id-IsOffered id found models e in (found_id, inr later)
]

-- Where there are models, the id that a request's name stands for, whatever the name, is that of an
-- enabled one of them: no name, id, alias or default leads to a disabled or an unknown model.
pub resolve_enabled-IsOffered :
    (is_word : Char → Bool) (m : OfficialModel) (models : List OfficialModel) (name id : String)
    → resolve_enabled_official_model_id is_word (m ∷ models) name ≡ ok id
    → IsOffered id (m ∷ models)
unfolding resolve_enabled_official_model_id
resolve_enabled-IsOffered is_word m models name id h =
    elim (Option-cases (resolve_official_model_id is_word (m ∷ models) name)) [
      | inl unknown ↦
          let e : err unknown_model ≡ ok id =
            sym (rw (resolve_enabled_official_model_id, unknown) refl) ∙ h in
          cc
      | inr (found, known) ↦
          let e : enabled_model_id found (m ∷ models) ≡ ok id =
            sym (rw (resolve_enabled_official_model_id, known) refl) ∙ h in
          let (same, offered) = enabled_model_id-IsOffered found id (m ∷ models) e in
          subst (λ i. IsOffered i (m ∷ models)) (sym same) offered
    ]

module _ (around : Surroundings) (silent : NoneAnswers around) (service : ProxyService) where
  -- Where no model answers, a request for a proxied chat leaves every balance as it was, whatever model
  -- it names, where the user's balance is an int64: the reserve that was taken is given back.
  pub request_exhausted :
      (user_id name : String) (f : Failover) (s : MemoryStore) (v : String)
      → IsInt64 (balance s user_id)
      → balance (proxy_official_chat_request around service user_id name f s).0.1 v ≡ balance s v
  unfolding proxy_official_chat_request
  request_exhausted user_id name f s v small = elim (Bool-cases service.has_client) [
    | inr missing ↦ rw (proxy_official_chat_request, missing) refl
    | inl there ↦
        elim (Result-cases
          (resolve_enabled_official_model_id service.is_word service.models name)) [
            | inl (id, resolved) ↦
                rw (proxy_official_chat_request, there, resolved)
                  (proxy_exhausted around silent user_id service.versions id service.models
                    service.pricing f s v small)
            | inr (e, refused) ↦ rw (proxy_official_chat_request, there, refused) refl
          ]
  ]

module _ (around : Surroundings) (service : ProxyService) where
  -- A request for a proxied chat that goes through, whatever model it names, whichever candidate has
  -- answered and after however many failed calls, takes from the user's balance exactly the charge
  -- that its answer shows, in int64, and leaves every other balance.
  pub request_cost :
      (user_id name : String) (f f' : Failover) (s s' : MemoryStore) (shown : ChatProxyResponse)
      (v : String)
      → proxy_official_chat_request around service user_id name f s ≡ ((ok shown, s'), f')
      → balance s' v
        ≡ (if user_id == v then sub64 (balance s user_id) shown.charged_fen else balance s v)
  unfolding proxy_official_chat_request
  request_cost user_id name f f' s s' shown v h = elim (Bool-cases service.has_client) [
    | inr missing ↦
        let stopped : proxy_official_chat_request around service user_id name f s
            ≡ ((err (external "official proxy client not configured"), s), f) =
          rw (proxy_official_chat_request, missing) refl in
        let failed : err (external "official proxy client not configured") ≡ ok shown =
          ap (λ r. r.0.0) (sym stopped ∙ h) in
        cc
    | inl there ↦
        elim (Result-cases
          (resolve_enabled_official_model_id service.is_word service.models name)) [
            | inl (id, resolved) ↦
                proxy_cost around user_id service.versions id service.models service.pricing f f' s
                  s' shown v (sym (rw (proxy_official_chat_request, there, resolved) refl) ∙ h)
            | inr (e, refused) ↦
                let stopped : proxy_official_chat_request around service user_id name f s
                    ≡ ((err e, s), f) =
                  rw (proxy_official_chat_request, there, refused) refl in
                let failed : err e ≡ ok shown = ap (λ r. r.0.0) (sym stopped ∙ h) in cc
          ]
  ]
