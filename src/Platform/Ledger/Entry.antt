-- ===== src/Platform/Ledger/Entry.antt =====
-- What each method of `MemoryStore` does to the ledger: one entry of a known amount, or none.
use myagent_bot.Base.{String, ◌≡◌, refl, true, false, ok, err, arith, Bool-cases, inl, inr, ◌⊎◌}
use myagent_bot.Base.Int.{ℤ, ltb_ℤ}
use myagent_bot.Base.Int64.{sub64, neg64, sub64-eq-add64-neg64}
use myagent_bot.Platform.Types.{
  WalletSummary, WalletTransaction, RechargeOrder, RefundRequest, Clock, insufficient_funds,
}
use myagent_bot.Platform.Store.State.{MemoryStore, wallet_of, unix}
use myagent_bot.Platform.Store.Wallet.{credit, debit, adjust}
use myagent_bot.Platform.Store.Orders.{finalize_unpaid}
use myagent_bot.Platform.Store.Refunds.{pay_out}
use myagent_bot.Platform.Store.Entries.{balance, Posts, append_transaction-Posts}

-- Crediting a user is one entry of that amount.
pub credit-Posts :
    (t : Clock) (u : String) (amount : ℤ) (description : String) (s : MemoryStore)
    → Posts s u amount (credit t u amount description s).1
unfolding credit
credit-Posts t u amount description s = append_transaction-Posts s _ _ _ refl refl refl

-- A debit is refused exactly when the balance is below the amount, and then changes nothing;
-- otherwise it returns the lowered balance and is one entry of the opposite amount.
pub debit_lem :
    (t : Clock) (u : String) (amount : ℤ) (description : String) (s : MemoryStore)
    → ((ltb_ℤ (balance s u) amount ≡ true)
        × (debit t u amount description s ≡ (err insufficient_funds, s)))
      ⊎ ((ltb_ℤ (balance s u) amount ≡ false)
          × ((w : WalletSummary) × ((debit t u amount description s).0 ≡ ok w)
              × (w.balance_fen ≡ sub64 (balance s u) amount)
              × Posts s u (neg64 amount) (debit t u amount description s).1))
unfolding debit
debit_lem t u amount description s = elim (Bool-cases (ltb_ℤ (balance s u) amount)) [
  | inl short ↦ inl (short, ground arith)
  | inr covered ↦ inr (
    covered,
    (
      record (wallet_of s u) {
        balance_fen = sub64 (balance s u) amount;
        updated_unix = unix (t 0);
      },
      rw (covered, debit) refl,
      refl,
      rw (covered, debit)
          (append_transaction-Posts s _ _ _ refl refl (sub64-eq-add64-neg64 (balance s u) amount)),
    ),
  )
]

pub adjust-Posts :
    (t : Clock) (tx : WalletTransaction) (s : MemoryStore)
    → Posts s tx.user_id tx.amount_fen (adjust t tx s).1
unfolding adjust
adjust-Posts t tx s = append_transaction-Posts s _ _ _ refl refl (ground arith)

-- An order that becomes paid is one entry of its amount for its owner.
pub finalize_unpaid-Posts :
    (t : Clock) (id provider external_id description : String) (order : RechargeOrder)
    (s : MemoryStore)
    → Posts s order.user_id order.amount_fen
        (finalize_unpaid t id provider external_id description order s).1
unfolding finalize_unpaid
finalize_unpaid-Posts t id provider external_id description order s =
    append_transaction-Posts s _ _ _ refl refl refl

-- A payout is one entry of the opposite of the refunded amount.
pub pay_out-Posts :
    (t : Clock) (updated_unix : ℤ) (request : RefundRequest) (order : RechargeOrder)
    (s : MemoryStore)
    → Posts s request.user_id (neg64 request.amount_fen) (pay_out t updated_unix request order s).1
unfolding pay_out
pay_out-Posts t updated_unix request order s =
    append_transaction-Posts s _ _ _ refl refl
      (sub64-eq-add64-neg64 (balance s request.user_id) request.amount_fen)
