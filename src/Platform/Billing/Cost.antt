-- ===== src/Platform/Billing/Cost.antt =====
-- What a whole chat costs, `ProxyOfficialChat` of service.go.
use text.Mathlib.Text.{◌==◌}
use text.Mathlib.TextPositions.{eq_refl}
use myagent_bot.Base.{
  ℕ, ◌≤◌, String, ◌≡◌, refl, sym, ap, ◌∙◌, subst, inl, inr, List, Option, Bool, some, ok, err,
  Result, Bool-cases, Option-cases, arith, eq_iff, if◌then◌else◌,
}
use myagent_bot.Base.Dict.{lookup, insert}
use myagent_bot.Base.Int.{ℤ, pos, ltb_ℤ, leb_ℤ}
use myagent_bot.Base.Int64.{sub64, neg64, add64-sub64, sub64-eq-add64-neg64, IsInt64}
use myagent_bot.Platform.Types.{WalletSummary, Error, Clock}
use myagent_bot.Platform.Store.State.{MemoryStore, Outcome, wallet_of, unix}
use myagent_bot.Platform.Store.Wallet.{get_wallet, credit, debit}
use myagent_bot.Platform.Store.Entries.{Posts, balance, balance-insert}
use myagent_bot.Platform.Ledger.Entry.{credit-Posts, debit_lem}
use myagent_bot.Platform.Billing.{
  PricingRule, ChatInput, ChatResult, reserve_charge, charge_for, settle_chat, charge_chat,
  and_then, refund_failure, usage_of, record_chat_usage,
}
use myagent_bot.Platform.Billing.Settle.{Moved, IsSettled, settle_reserved_charge-IsSettled}

-- Reading a wallet gives the balance, and changes none.
pub get_wallet_lem :
    (t : Clock) (u : String) (s : MemoryStore)
    → (w : WalletSummary) × (s' : MemoryStore) × (get_wallet t u s ≡ (ok w, s'))
      × (w.balance_fen ≡ balance s u)
      × ((v : String) → balance s' v ≡ balance s v)
unfolding get_wallet wallet_of
get_wallet_lem t u s = elim (Option-cases (lookup u s.wallets)) [
  | inr (w, known) ↦ (w, s, rw (known, get_wallet) refl, ground (arith, known), λ v. refl)
  | inl new ↦
      let w = record (wallet_of s u) { updated_unix = unix (t 0) } in
      let s' = record s { wallets = insert u w s.wallets } in
      (w, s', rw (new, get_wallet) refl, refl, balance-insert s s' u w refl refl)
]

pub whole : {A : Type 0} (o : Outcome A) {r : Result Error A} → o.0 ≡ r → o ≡ (r, o.1)
whole o h = ap (λ r. (r, o.1)) h

-- What a chat that goes through leaves of the balances.
abbrev IsPaid : MemoryStore → String → PricingRule → Outcome ChatResult → Type 0
IsPaid s u rule (ok result, s') = Moved s u (sub64 (balance s u) (charge_for rule result.usage)) s'
IsPaid s u rule (err _, s') = 0 ≤ 0

module _ (clocks : ℕ → Clock) (rule : PricingRule) (versions : List String) (u : String)
    (input : ChatInput) where
  abbrev reserve : ℤ
  reserve = reserve_charge rule

  settled-IsPaid :
      (result : ChatResult) (s s' : MemoryStore) (o : Outcome Bool)
      → Posts s u (neg64 reserve) s'
      → IsSettled s' u (sub64 (balance s u) (charge_for rule result.usage)) o
      → IsPaid s u rule (
          and_then o (λ _ s''. (
            ok result,
            record_chat_usage (usage_of (clocks 3 0) (clocks 3 1) rule u input result versions) s'',
          )))
  unfolding record_chat_usage wallet_of
  settled-IsPaid result s s' (ok _, s'') posts settled =
      λ v. ground (arith, posts.balances v, settled v, eq_iff u v)
  settled-IsPaid result s s' (err _, s'') posts settled = omega arith

  failed-IsPaid :
      (s : MemoryStore) (e : Error) (o : Outcome WalletSummary)
      → IsPaid s u rule (refund_failure e o)
  failed-IsPaid s e (ok _, s') = omega arith
  failed-IsPaid s e (err _, s') = omega arith

  reserved_balance :
      (s s' : MemoryStore)
      → Posts s u (neg64 reserve) s'
      → balance s' u ≡ sub64 (balance s u) reserve
  reserved_balance s s' posts =
      ground (arith, posts.balances u, eq_refl u, sub64-eq-add64-neg64 (balance s u) reserve)

  -- The settlement, from the state after the reserve was taken.
  settle_chat-IsPaid :
      (answer : Result Error ChatResult) (s s' : MemoryStore)
      → Posts s u (neg64 reserve) s'
      → IsPaid s u rule (settle_chat clocks rule versions u input answer s')
  unfolding settle_chat
  settle_chat-IsPaid (err e) s s' posts = failed-IsPaid s e _
  settle_chat-IsPaid (ok result) s s' posts = settled-IsPaid result s s' _ posts (
      settle_reserved_charge-IsSettled (clocks 2) u (balance s u) reserve
        (charge_for rule result.usage) "official model usage" s' (reserved_balance s s' posts))

  -- The same from the balances of a state that has the same ones.
  IsPaid-same :
      (s s' : MemoryStore) (o : Outcome ChatResult)
      → ((v : String) → balance s' v ≡ balance s v)
      → IsPaid s' u rule o
      → IsPaid s u rule o
  IsPaid-same s s' (ok result, s'') same paid = λ v. ground (arith, paid v, same u, same v)
  IsPaid-same s s' (err _, s'') same paid = paid

  charge_chat-IsPaid :
      (chat : Option (Result Error ChatResult)) (s : MemoryStore)
      → IsPaid s u rule (charge_chat clocks rule versions u input chat s)
  unfolding charge_chat
  charge_chat-IsPaid chat s =
      let (w, s', read, same_funds, same) = get_wallet_lem (clocks 0) u s in
      elim (Bool-cases (leb_ℤ w.balance_fen (pos 0))) [
        | inl empty ↦ rw (charge_chat, read, empty) (omega arith)
        | inr funded ↦ elim (Option-cases chat) [
          | inl no_client ↦ rw (charge_chat, read, funded, no_client) (omega arith)
          | inr (answer, client) ↦ elim (Bool-cases (ltb_ℤ w.balance_fen reserve)) [
            | inl short ↦ rw (charge_chat, read, funded, client, short) (omega arith)
            | inr enough ↦ elim (debit_lem (clocks 1) u reserve "official model usage reserve" s') [
              | inl (_, refused) ↦
                  rw (charge_chat, read, funded, client, enough, refused) (omega arith)
              | inr (_, (w', done, _, posts)) ↦
                  rw
                    (
                      charge_chat,
                      read,
                      funded,
                      client,
                      enough,
                      whole (debit (clocks 1) u reserve "official model usage reserve" s') done,
                    )
                    (IsPaid-same s s' _ same (settle_chat-IsPaid answer s' _ posts))
            ]
          ]
        ]
      ]

  refund_failure_state : (e : Error) (o : Outcome WalletSummary) → (refund_failure e o).1 ≡ o.1
  refund_failure_state e (ok _, s) = refl
  refund_failure_state e (err _, s) = refl

  -- The reserve that was taken and is given back.
  returned :
      (e : Error) (s s' : MemoryStore) (v : String)
      → IsInt64 (balance s u)
      → Posts s u (neg64 reserve) s'
      → balance (settle_chat clocks rule versions u input (err e) s').1 v ≡ balance s v
  unfolding settle_chat
  returned e s s' v small posts =
      let back = credit-Posts (clocks 2) u reserve "official model usage reserve refund" s' in
      ap (λ m. balance m v)
        (refund_failure_state e
          (credit (clocks 2) u reserve "official model usage reserve refund" s'))
      ∙ ground (
        arith,
        posts.balances v,
        back.balances v,
        reserved_balance s s' posts,
        add64-sub64 (balance s u) reserve small,
        eq_iff u v,
      )

  -- A chat that goes through takes from the user's balance exactly the charge for its usage, in
  -- int64, and leaves every other balance.
  pub charge_chat_cost :
      (chat : Option (Result Error ChatResult)) (s s' : MemoryStore) (result : ChatResult)
      (v : String)
      → charge_chat clocks rule versions u input chat s ≡ (ok result, s')
      → balance s' v
        ≡ (if u == v then sub64 (balance s u) (charge_for rule result.usage) else balance s v)
  charge_chat_cost chat s s' result v h = subst (IsPaid s u rule) h (charge_chat-IsPaid chat s) v

  -- A chat whose model call fails leaves every balance as it was, where the user's balance is an
  -- int64.
  pub charge_chat_failure :
      (e : Error) (s : MemoryStore) (v : String)
      → IsInt64 (balance s u)
      → balance (charge_chat clocks rule versions u input (some (err e)) s).1 v ≡ balance s v
  unfolding charge_chat
  charge_chat_failure e s v small =
      let (w, s', read, same_funds, same) = get_wallet_lem (clocks 0) u s in
      elim (Bool-cases (leb_ℤ w.balance_fen (pos 0))) [
        | inl empty ↦ rw (charge_chat, read, empty) (same v)
        | inr funded ↦ elim (Bool-cases (ltb_ℤ w.balance_fen reserve)) [
          | inl short ↦ rw (charge_chat, read, funded, short) (same v)
          | inr enough ↦ elim (debit_lem (clocks 1) u reserve "official model usage reserve" s') [
            | inl (_, refused) ↦ rw (charge_chat, read, funded, enough, refused) (same v)
            | inr (_, (w', done, _, posts)) ↦
                rw
                  (
                    charge_chat,
                    read,
                    funded,
                    enough,
                    whole (debit (clocks 1) u reserve "official model usage reserve" s') done,
                  )
                  (returned e s' _ v (subst IsInt64 (sym (same u)) small) posts ∙ same v)
          ]
        ]
      ]
