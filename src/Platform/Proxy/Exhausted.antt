-- ===== src/Platform/Proxy/Exhausted.antt =====
-- A proxied chat whose calls all fail, `ProxyOfficialChatRequest` of service.go.
use myagent_bot.Base.{
  ℕ, zero, suc, ◌+◌, ◌&&◌, String, ◌≡◌, refl, sym, ap, ◌∙◌, subst, inl, inr, List, [], ◌∷◌, Option,
  none, some, ok, err, Bool-cases, Option-cases, arith, eq_iff, if◌then◌else◌, ltb, length,
}
use myagent_bot.Base.Dict.{Dict, lookup}
use myagent_bot.Base.Int.{ℤ, pos, ltb_ℤ, leb_ℤ}
use myagent_bot.Base.Int64.{neg64, add64-sub64, IsInt64}
use myagent_bot.Platform.Types.{WalletSummary, Error}
use myagent_bot.Platform.Store.State.{MemoryStore, Outcome}
use myagent_bot.Platform.Store.Wallet.{credit, debit}
use myagent_bot.Platform.Store.Entries.{Posts, balance}
use myagent_bot.Platform.Ledger.Entry.{credit-Posts, debit_lem}
use myagent_bot.Platform.Billing.{PricingRule, reserve_charge}
use myagent_bot.Platform.Billing.Cost.{get_wallet_lem, whole}
use myagent_bot.Platform.Failover.{Failover, should_skip}
use myagent_bot.Platform.Proxy.Candidates.{OfficialModel, candidate_model_ids}
use myagent_bot.Platform.Proxy.Cost.{reserve_taken}
use myagent_bot.Platform.Proxy.{
  ProxyAttempt, Surroundings, Tried, answered, exhausted, proxy_failure, settle_tried,
  proxy_attempts, proxy_resolved, try_attempt, try_attempts, after_failure, attempts_for,
  tried_models, reserve_for,
}

-- the calls that the attempts allow
abbrev pub total_attempts : List ProxyAttempt → ℕ
total_attempts [] = 0
total_attempts (a ∷ rest) = a.max_attempts + total_attempts rest

-- the calls have run out, and `n` is the number of the next
abbrev pub IsExhausted : ℕ → Tried → Type 0
IsExhausted n (answered attempt response f) = ⊥
IsExhausted n (exhausted m last f) = m ≡ n

-- no model answers any call
abbrev pub NoneAnswers : Surroundings → Type 0
NoneAnswers around = (n : ℕ) (model_id : String) → (e : Error) × (around.call n model_id ≡ err e)

module _ (around : Surroundings) (silent : NoneAnswers around) (resolved : String) where
  try_failed :
      (a : ProxyAttempt) (left n : ℕ) (last : Option Error) (f : Failover) (e : Error)
      → around.call n a.model_id ≡ err e
      → try_attempt around resolved a (suc left) n last f
        ≡ try_attempt around resolved a left (suc n) (some e) (after_failure around resolved a n f)
  unfolding try_attempt
  try_failed a left n last f e failed = rw (try_attempt, failed) refl

  try_attempt-IsExhausted :
      (a : ProxyAttempt) (left n : ℕ) (last : Option Error) (f : Failover)
      → IsExhausted (left + n) (try_attempt around resolved a left n last f)
  try_attempt-IsExhausted a zero n last f = unfold try_attempt in omega arith
  try_attempt-IsExhausted a (suc left) n last f =
      let (e, failed) = silent n a.model_id in
      let f' = after_failure around resolved a n f in
      let later = try_attempt-IsExhausted a left (suc n) (some e) f' in
      subst (IsExhausted (suc left + n)) (sym (try_failed a left n last f e failed)) (
        subst (λ m. IsExhausted m (try_attempt around resolved a left (suc n) (some e) f'))
          (omega arith) later)

  -- Every attempt is made as often as it may be.
  try_attempts-IsExhausted :
      (as_left : List ProxyAttempt) (n : ℕ) (last : Option Error) (f : Failover)
      → IsExhausted (total_attempts as_left + n) (try_attempts around resolved as_left n last f)
  unfolding try_attempts
  try_attempts-IsExhausted [] n last f = omega arith
  try_attempts-IsExhausted (a ∷ rest) n last f =
      onward (try_attempt around resolved a a.max_attempts n last f)
        (try_attempt-IsExhausted a a.max_attempts n last f)
        (λ m last' f'. try_attempts-IsExhausted rest m last' f')
    where
      onward :
          (t : Tried)
          → IsExhausted (a.max_attempts + n) t
          → ((m : ℕ) (last' : Option Error) (f' : Failover)
              → IsExhausted
                  (total_attempts rest + m)
                  (try_attempts around resolved rest m last' f'))
          → IsExhausted (a.max_attempts + total_attempts rest + n) (elim t [
            | answered attempt response f' ↦ answered attempt response f'
            | exhausted n' last' f' ↦ try_attempts around resolved rest n' last' f'
          ])
      onward (answered attempt response f') h later = absurd h
      onward (exhausted m last' f') h later =
          subst (λ k. IsExhausted k (try_attempts around resolved rest m last' f'))
            (omega (arith, h)) (later m last' f')

failure_state : (last : Option Error) (o : Outcome WalletSummary) → (proxy_failure last o).1 ≡ o.1
unfolding proxy_failure
failure_state none (ok _, s) = refl
failure_state none (err _, s) = refl
failure_state (some e) (ok _, s) = refl
failure_state (some e) (err _, s) = refl

module _ (around : Surroundings) (silent : NoneAnswers around) (u : String) (versions : List String)
    (resolved : String) where
  -- the reserve that was taken is given back
  returned :
      (reserved : ℤ) (n : ℕ) (tried : Tried) (s s' : MemoryStore) (v : String)
      → IsExhausted n tried
      → IsInt64 (balance s u)
      → Posts s u (neg64 reserved) s'
      → balance (settle_tried around.clocks u versions resolved reserved tried s').0.1 v
        ≡ balance s v
  unfolding settle_tried
  returned reserved n (answered attempt response f) s s' v h small posts = absurd h
  returned reserved n (exhausted m last f) s s' v h small posts =
      let back =
        credit-Posts (around.clocks 2) u reserved "official platform chat reserve refund" s' in
      ap (λ m'. balance m' v)
        (failure_state last
          (credit (around.clocks 2) u reserved "official platform chat reserve refund" s'))
      ∙ ground (
        arith,
        posts.balances v,
        back.balances v,
        reserve_taken u reserved s s' posts,
        add64-sub64 (balance s u) reserved small,
        eq_iff u v,
      )

  attempts_returned :
      (reserved : ℤ) (attempts : List ProxyAttempt) (f : Failover) (s : MemoryStore) (v : String)
      → IsInt64 (balance s u)
      → balance (proxy_attempts around u versions resolved reserved attempts f s).0.1 v
        ≡ balance s v
  unfolding proxy_attempts
  attempts_returned reserved attempts f s v small =
      let (w, s', read, same_funds, same) = get_wallet_lem (around.clocks 0) u s in
      elim (Bool-cases (leb_ℤ w.balance_fen (pos 0))) [
        | inl empty ↦ rw (proxy_attempts, read, empty) (same v)
        | inr funded ↦ elim (Bool-cases (ltb_ℤ w.balance_fen reserved)) [
          | inl short ↦ rw (proxy_attempts, read, funded, short) (same v)
          | inr enough ↦
              elim (debit_lem (around.clocks 1) u reserved "official platform chat reserve" s') [
                | inl (_, refused) ↦ rw (proxy_attempts, read, funded, enough, refused) (same v)
                | inr (_, (w', done, _, posts)) ↦
                    rw
                      (
                        proxy_attempts,
                        read,
                        funded,
                        enough,
                        whole
                            (debit (around.clocks 1) u reserved "official platform chat reserve" s')
                            done,
                      )
                      (returned reserved (total_attempts attempts + 0)
                          (try_attempts around resolved attempts 0 none f) s' _ v
                          (try_attempts-IsExhausted around silent resolved attempts 0 none f)
                          (subst IsInt64 (sym (same u)) small) posts
                        ∙ same v)
              ]
        ]
      ]

  -- Where no model answers, a proxied chat leaves every balance as it was, where the user's balance is
  -- an int64: the reserve is given back.
  pub proxy_exhausted :
      (models : List OfficialModel) (pricing : Dict PricingRule) (f : Failover) (s : MemoryStore)
      (v : String)
      → IsInt64 (balance s u)
      → balance (proxy_resolved around models pricing versions u resolved f s).0.1 v ≡ balance s v
  unfolding proxy_resolved
  proxy_exhausted models pricing f s v small = elim (Option-cases (lookup resolved pricing)) [
    | inl unknown ↦ rw (proxy_resolved, unknown) refl
    | inr (rule, known) ↦
        let ids = candidate_model_ids resolved models in
        let (skip, asked) = should_skip around.skip_answer resolved around.started f in
        let several = ltb 1 (length ids) in
        let f' = if several then asked else f in
        let attempts =
          attempts_for pricing resolved (tried_models resolved (several && skip) ids) in
        elim (Bool-cases (ltb 0 (length attempts))) [
          | inl some_left ↦
              rw (proxy_resolved, known, some_left)
                (attempts_returned (reserve_for (reserve_charge rule) attempts) attempts f' s v
                  small)
          | inr none_left ↦ rw (proxy_resolved, known, none_left) refl
        ]
  ]
