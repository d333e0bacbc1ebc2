-- ===== src/Platform/Proxy/Cost.antt =====
-- What a proxied chat costs, `ProxyOfficialChatRequest` of service.go.
use text.Mathlib.Text.{◌==◌}
use text.Mathlib.TextPositions.{eq_refl}
use myagent_bot.Base.{
  ◌&&◌, ℕ, ◌≤◌, String, ◌≡◌, subst, inl, inr, List, Option, none, some, Bool, ok, err, Bool-cases,
  Option-cases, arith, eq_iff, if◌then◌else◌, ltb, length,
}
use myagent_bot.Base.Dict.{Dict, lookup}
use myagent_bot.Base.Int.{ℤ, pos, ltb_ℤ, leb_ℤ}
use myagent_bot.Base.Int64.{sub64, neg64, sub64-eq-add64-neg64}
use myagent_bot.Platform.Types.{WalletSummary, ChatUsageRecord, Error, Clock}
use myagent_bot.Platform.Store.State.{MemoryStore, Outcome, wallet_of}
use myagent_bot.Platform.Store.Wallet.{debit}
use myagent_bot.Platform.Store.Entries.{Posts, balance}
use myagent_bot.Platform.Ledger.Entry.{debit_lem}
use myagent_bot.Platform.Billing.{PricingRule, and_then, record_chat_usage, reserve_charge}
use myagent_bot.Platform.Billing.Settle.{Moved, IsSettled, settle_reserved_charge-IsSettled}
use myagent_bot.Platform.Billing.Cost.{get_wallet_lem, whole}
use myagent_bot.Platform.Failover.{Failover, should_skip}
use myagent_bot.Platform.Proxy.Candidates.{OfficialModel, candidate_model_ids}
use myagent_bot.Platform.Proxy.{
  ChatProxyResponse, ProxyAttempt, Surroundings, Tried, answered, exhausted, proxy_charge,
  settle_answer, proxy_failure, settle_tried, proxy_attempts, proxy_resolved, try_attempts,
  attempts_for, tried_models, reserve_for,
}

-- What a chat that goes through leaves of the balances: the user's less the charge that it shows.
abbrev pub IsCharged : MemoryStore → String → Outcome ChatProxyResponse → Type 0
IsCharged s u (ok shown, s') = Moved s u (sub64 (balance s u) shown.charged_fen) s'
IsCharged s u (err _, s') = 0 ≤ 0

IsCharged-same :
    (s s' : MemoryStore) (u : String) (o : Outcome ChatProxyResponse)
    → ((v : String) → balance s' v ≡ balance s v)
    → IsCharged s' u o
    → IsCharged s u o
IsCharged-same s s' u (ok shown, s'') same paid = λ v. ground (arith, paid v, same u, same v)
IsCharged-same s s' u (err _, s'') same paid = paid

pub reserve_taken :
    (u : String) (reserved : ℤ) (s s' : MemoryStore)
    → Posts s u (neg64 reserved) s'
    → balance s' u ≡ sub64 (balance s u) reserved
reserve_taken u reserved s s' posts =
    ground (arith, posts.balances u, eq_refl u, sub64-eq-add64-neg64 (balance s u) reserved)

module _ (clocks : ℕ → Clock) (u : String) (versions : List String) (reserved : ℤ) where
  settled-IsCharged :
      (shown : ChatProxyResponse) (usage : ChatUsageRecord) (s s' : MemoryStore) (o : Outcome Bool)
      → Posts s u (neg64 reserved) s'
      → IsSettled s' u (sub64 (balance s u) shown.charged_fen) o
      → IsCharged s u (and_then o (λ _ s''. (ok shown, record_chat_usage usage s'')))
  unfolding record_chat_usage wallet_of
  settled-IsCharged shown usage s s' (ok _, s'') posts settled =
      λ v. ground (arith, posts.balances v, settled v, eq_iff u v)
  settled-IsCharged shown usage s s' (err _, s'') posts settled = omega arith

  failure-IsCharged :
      (s : MemoryStore) (last : Option Error) (o : Outcome WalletSummary)
      → IsCharged s u (proxy_failure last o)
  unfolding proxy_failure
  failure-IsCharged s none (ok _, s') = omega arith
  failure-IsCharged s none (err _, s') = omega arith
  failure-IsCharged s (some e) (ok _, s') = omega arith
  failure-IsCharged s (some e) (err _, s') = omega arith

  settle_tried-IsCharged :
      (resolved : String) (tried : Tried) (s s' : MemoryStore)
      → Posts s u (neg64 reserved) s'
      → IsCharged s u (settle_tried clocks u versions resolved reserved tried s').0
  unfolding settle_tried settle_answer
  settle_tried-IsCharged resolved (answered attempt response f) s s' posts =
      settled-IsCharged _ _ s s' _ posts (
        settle_reserved_charge-IsSettled (clocks 2) u (balance s u) reserved
          (proxy_charge attempt.rule response.usage) "official platform chat" s'
          (reserve_taken u reserved s s' posts))
  settle_tried-IsCharged resolved (exhausted n last f) s s' posts = failure-IsCharged s last _

module _ (around : Surroundings) (u : String) (versions : List String) (resolved : String) where
  attempts-IsCharged :
      (reserved : ℤ) (attempts : List ProxyAttempt) (f : Failover) (s : MemoryStore)
      → IsCharged s u (proxy_attempts around u versions resolved reserved attempts f s).0
  unfolding proxy_attempts
  attempts-IsCharged reserved attempts f s =
      let (w, s', read, same_funds, same) = get_wallet_lem (around.clocks 0) u s in
      elim (Bool-cases (leb_ℤ w.balance_fen (pos 0))) [
        | inl empty ↦ rw (proxy_attempts, read, empty) (omega arith)
        | inr funded ↦ elim (Bool-cases (ltb_ℤ w.balance_fen reserved)) [
          | inl short ↦ rw (proxy_attempts, read, funded, short) (omega arith)
          | inr enough ↦
              elim (debit_lem (around.clocks 1) u reserved "official platform chat reserve" s') [
                | inl (_, refused) ↦
                    rw (proxy_attempts, read, funded, enough, refused) (omega arith)
                | inr (_, (w', done, _, posts)) ↦
                    rw
                      (
                        proxy_attempts,
                        read,
                        funded,
                        enough,
                        whole
                            (debit (around.clocks 1) u reserved "official platform chat reserve" s')
                            done,
                      )
                      (IsCharged-same s s' u _ same (
                        settle_tried-IsCharged around.clocks u versions reserved resolved
                          (try_attempts around resolved attempts 0 none f) s' _ posts))
              ]
        ]
      ]

  resolved-IsCharged :
      (models : List OfficialModel) (pricing : Dict PricingRule) (f : Failover) (s : MemoryStore)
      → IsCharged s u (proxy_resolved around models pricing versions u resolved f s).0
  unfolding proxy_resolved
  resolved-IsCharged models pricing f s = elim (Option-cases (lookup resolved pricing)) [
    | inl unknown ↦ rw (proxy_resolved, unknown) (omega arith)
    | inr (rule, known) ↦
        let ids = candidate_model_ids resolved models in
        let (skip, asked) = should_skip around.skip_answer resolved around.started f in
        let several = ltb 1 (length ids) in
        let f' = if several then asked else f in
        let attempts =
          attempts_for pricing resolved (tried_models resolved (several && skip) ids) in
        elim (Bool-cases (ltb 0 (length attempts))) [
          | inl some_left ↦
              rw (proxy_resolved, known, some_left)
                (attempts-IsCharged (reserve_for (reserve_charge rule) attempts) attempts f' s)
          | inr none_left ↦ rw (proxy_resolved, known, none_left) (omega arith)
        ]
  ]

  -- A proxied chat that goes through, whichever candidate has answered and after however many failed
  -- calls, takes from the user's balance exactly the charge that its answer shows, in int64, and
  -- leaves every other balance.
  pub proxy_cost :
      (models : List OfficialModel) (pricing : Dict PricingRule) (f f' : Failover)
      (s s' : MemoryStore) (shown : ChatProxyResponse) (v : String)
      → proxy_resolved around models pricing versions u resolved f s ≡ ((ok shown, s'), f')
      → balance s' v ≡ (if u == v then sub64 (balance s u) shown.charged_fen else balance s v)
  proxy_cost models pricing f f' s s' shown v h =
      subst (λ o. IsCharged s u o.0) h (resolved-IsCharged models pricing f s) v
