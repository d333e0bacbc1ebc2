-- ===== src/Platform/Billing/Settle.antt =====
-- What a chat costs, `ProxyOfficialChat` and `settleReservedCharge` of service.go.
use Prim.Native.String.{◌++◌ as append}
use text.Mathlib.Text.{◌==◌}
use myagent_bot.Base.{
  String, ◌≡◌, ap, ◌∙◌, inl, inr, ok, err, Result, Bool, Bool-cases, arith, eq_iff, ◌≤◌,
  if◌then◌else◌,
}
use myagent_bot.Base.Int.{ℤ, ltb_ℤ, eq_of_parts}
use myagent_bot.Base.Int64.{add64, sub64, neg64, add64-sub64-sub64, neg64-sub64}
use myagent_bot.Platform.Types.{WalletSummary, Error, Clock}
use myagent_bot.Platform.Store.State.{MemoryStore, Outcome}
use myagent_bot.Platform.Store.Entries.{Posts, balance}
use myagent_bot.Platform.Ledger.Entry.{credit-Posts, debit_lem}
use myagent_bot.Platform.Billing.{settle_reserved_charge, without_value}

-- What one entry does to each balance.
abbrev pub Moved : MemoryStore → String → ℤ → MemoryStore → Type 0
Moved s u new s' = (v : String) → balance s' v ≡ (if u == v then new else balance s v)

-- From the state after the reserve, a settlement that goes through leaves the balance before the
-- reserve less the charge.
abbrev pub IsSettled : MemoryStore → String → ℤ → Result Error Bool × MemoryStore → Type 0
IsSettled s u new (ok _, s') = Moved s u new s'
IsSettled s u new (err _, s') = 0 ≤ 0

without_value-IsSettled :
    (s : MemoryStore) (u : String) (new amount : ℤ) (o : Outcome WalletSummary)
    → Posts s u amount o.1
    → add64 (balance s u) amount ≡ new
    → IsSettled s u new (without_value o)
without_value-IsSettled s u new amount (ok _, s') posts e = λ v. ground (arith, posts.balances v, e)
without_value-IsSettled s u new amount (err _, s') posts e = omega arith

pub settle_reserved_charge-IsSettled :
    (t : Clock) (u : String) (before reserved charge : ℤ) (description : String) (s : MemoryStore)
    → balance s u ≡ sub64 before reserved
    → IsSettled s u (sub64 before charge) (settle_reserved_charge t u reserved charge description s)
unfolding settle_reserved_charge
settle_reserved_charge-IsSettled t u before reserved charge description s taken =
    elim (Bool-cases (ltb_ℤ reserved charge)) [
      | inl more ↦
          rw (settle_reserved_charge, more)
            (elim (debit_lem t u (sub64 charge reserved) (append description " settlement") s) [
              | inl (_, refused) ↦ rw refused (omega arith)
              | inr (_, (w, done, _, posts)) ↦
                  without_value-IsSettled s u (sub64 before charge) (neg64 (sub64 charge reserved))
                    _ posts
                    (ap (λ b. add64 b (neg64 (sub64 charge reserved))) taken
                      ∙ ap (add64 (sub64 before reserved)) (neg64-sub64 charge reserved)
                      ∙ add64-sub64-sub64 before reserved charge)
            ])
      | inr no_more ↦ elim (Bool-cases (ltb_ℤ charge reserved)) [
        | inl less ↦
            rw (settle_reserved_charge, no_more, less)
              (without_value-IsSettled s u (sub64 before charge) (sub64 reserved charge) _
                (credit-Posts t u (sub64 reserved charge) (append description " refund") s)
                (ap (λ b. add64 b (sub64 reserved charge)) taken
                  ∙ add64-sub64-sub64 before reserved charge))
        | inr no_less ↦
            let same : reserved ≡ charge = eq_of_parts reserved charge (ground arith) in
            rw (settle_reserved_charge, no_more, no_less)
              (λ v. ground (arith, taken, ap (sub64 before) same, eq_iff u v))
      ]
    ]
