-- ===== src/Platform/Ledger/Refund.antt =====
-- Refund decisions, `ApplyRefundDecision` of memory_store.go: what may be paid out, and how often.
use text.Mathlib.TextPositions.{eq_refl}
use myagent_bot.Base.{String, ◌≡◌, false, some, arith}
use myagent_bot.Base.Dict.{lookup, lookup-insert}
use myagent_bot.Base.Int.{ℤ, pos, ◌+ℤ◌, ◌-ℤ◌, ◌≤ℤ◌, ◌<ℤ◌, +ℤ_parts, -ℤ_parts, one_part}
use myagent_bot.Base.Int64.{neg64, IsInt64, add64_of_IsInt64, sub64_of_IsInt64}
use myagent_bot.Platform.Types.{RechargeOrder, RefundRequest, RefundDecisionInput, Clock}
use myagent_bot.Platform.Store.State.{
  MemoryStore, Outcome, append_transaction, wallet_of, transactions_of,
}
use myagent_bot.Platform.Store.Refunds.{
  decided, remaining_refundable, refunded_order, pay_out, record_decision, allow_negative_balance,
}
use myagent_bot.Platform.Store.Entries.{balance, Posts}
use myagent_bot.Platform.Ledger.Entry.{pay_out-Posts}
use myagent_bot.Platform.Ledger.Decide.{is_short, is_poor}

-- No more than the order's amount has been refunded of it.
abbrev pub IsWithin : RechargeOrder → Type 0
IsWithin order =
    IsInt64 order.amount_fen
    × (pos 0 ≤ℤ order.refunded_fen)
    × (order.refunded_fen ≤ℤ order.amount_fen)

module _ (order : RechargeOrder) (request : RefundRequest) (u : ℤ) where
  remaining_eq :
      IsWithin order → remaining_refundable order ≡ order.amount_fen -ℤ order.refunded_fen
  remaining_eq w = sub64_of_IsInt64 order.amount_fen order.refunded_fen (
      omega (
        arith,
        -ℤ_parts order.amount_fen order.refunded_fen,
        one_part (order.amount_fen -ℤ order.refunded_fen),
        one_part order.amount_fen,
        one_part order.refunded_fen,
      ))

  -- What the guard lets through fits into what is left of the order.
  fits :
      IsWithin order
      → is_short order request ≡ false
      → order.refunded_fen +ℤ request.amount_fen ≤ℤ order.amount_fen
  fits w short = ground (
    arith,
    remaining_eq w,
    -ℤ_parts order.amount_fen order.refunded_fen,
    +ℤ_parts order.refunded_fen request.amount_fen,
  )

  refunded_eq :
      IsWithin order
      → pos 0 <ℤ request.amount_fen
      → is_short order request ≡ false
      → ((refunded_order request.amount_fen u order).refunded_fen
          ≡ order.refunded_fen +ℤ request.amount_fen)
        × ((refunded_order request.amount_fen u order).amount_fen ≡ order.amount_fen)
  unfolding refunded_order
  refunded_eq w p short =
      let sum = add64_of_IsInt64 order.refunded_fen request.amount_fen (
        omega (
          arith,
          fits w short,
          +ℤ_parts order.refunded_fen request.amount_fen,
          one_part (order.refunded_fen +ℤ request.amount_fen),
        )) in
      ground (arith, sum, fits w short)

  pub payout-IsWithin :
      IsWithin order
      → pos 0 <ℤ request.amount_fen
      → is_short order request ≡ false
      → IsWithin (refunded_order request.amount_fen u order)
  payout-IsWithin w p short =
      let sum = refunded_eq w p short in
      rw (sum.0, sum.1)
        (w.0, omega (arith, +ℤ_parts order.refunded_fen request.amount_fen, w.1, p), fits w short)

-- No order is refunded beyond its amount, and every refund request is for more than nothing.
pub record IsValid (s : MemoryStore) : Type 0 where
  pub within :
      (id : String) (order : RechargeOrder) → lookup id s.orders ≡ some order → IsWithin order
  pub positive :
      (id : String) (request : RefundRequest)
      → lookup id s.refund_requests ≡ some request
      → pos 0 <ℤ request.amount_fen

-- What a payout does: `order` and `order'` are the refunded order before and after it.
pub record PaysOut (s : MemoryStore) (r : RefundRequest) (s' : MemoryStore) : Type 0 where
  pub order : RechargeOrder
  pub order' : RechargeOrder
  pub before : lookup r.order_id s.orders ≡ some order
  pub after : lookup r.order_id s'.orders ≡ some order'
  pub refunded : order'.refunded_fen ≡ order.refunded_fen +ℤ r.amount_fen
  pub within : IsWithin order'
  pub amount : order'.amount_fen ≡ order.amount_fen
  pub entry : Posts s r.user_id (neg64 r.amount_fen) s'
  pub funded : allow_negative_balance r ≡ false → r.amount_fen ≤ℤ balance s r.user_id

-- A request with a decision to refund on it, as it stands after the payout.
abbrev pub settled : RefundDecisionInput → ℤ → RefundRequest → RefundRequest
settled input u found = record (decided input u found) { settled_unix = u }

module _ (t : Clock) (id : String) (input : RefundDecisionInput) (u : ℤ) (s : MemoryStore) where
  abbrev pub after_payout : RefundRequest → RechargeOrder → Outcome RefundRequest
  after_payout found order = record_decision id (pay_out t u (decided input u found) order s)

  pub payout_entry :
      (found : RefundRequest) (order : RechargeOrder)
      → Posts s found.user_id (neg64 found.amount_fen) (after_payout found order).1
  unfolding record_decision pay_out decided wallet_of transactions_of
  payout_entry found order =
      let p = pay_out-Posts t u (decided input u found) order s in
      record { balances = p.balances; entries = p.entries }

  pub payout_lem :
      (found : RefundRequest) (order : RechargeOrder)
      → IsWithin order
      → pos 0 <ℤ found.amount_fen
      → lookup found.order_id s.orders ≡ some order
      → is_short order found ≡ false
      → is_poor (decided input u found) s ≡ false
      → PaysOut s (settled input u found) (after_payout found order).1
  unfolding record_decision pay_out decided append_transaction allow_negative_balance
  payout_lem found order w p has short poor =
      let sum = refunded_eq order found u w p short in
      record {
        order = order;
        order' = refunded_order found.amount_fen u order;
        before = has;
        after = simp (lookup-insert, eq_refl);
        refunded = sum.0;
        within = payout-IsWithin order found u w p short;
        amount = sum.1;
        entry = payout_entry found order;
        funded = λ h. ground arith;
      }
