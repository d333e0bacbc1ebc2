-- ===== src/Platform/Ledger/Decide.antt =====
-- The ways in which `ApplyRefundDecision` of memory_store.go ends.
use text.Mathlib.Text.{◌==◌}
use myagent_bot.Base.{
  String, ◌≡◌, refl, Bool, true, false, not, ◌&&◌, ◌||◌, some, ok, err, Bool-cases, inl, inr,
  Option-cases,
}
use myagent_bot.Base.Dict.{lookup, insert}
use myagent_bot.Base.Int.{ℤ, pos, eqb_ℤ, ltb_ℤ, leb_ℤ}
use myagent_bot.Platform.Types.{
  RechargeOrder, RefundRequest, RefundDecisionInput, Error, Clock, order_not_found,
  refund_request_not_found, refund_not_allowed,
}
use myagent_bot.Platform.Store.State.{MemoryStore, Outcome}
use myagent_bot.Platform.Store.Refunds.{
  is_open, is_decision, decided, allow_negative_balance, remaining_refundable, pay_out, settle,
  record_decision, apply_refund_decision,
}
use myagent_bot.Platform.Store.Entries.{balance}

-- The order has less to refund than the request asks for, or nothing.
abbrev pub is_short : RechargeOrder → RefundRequest → Bool
is_short order request =
    leb_ℤ (remaining_refundable order) (pos 0)
    || ltb_ℤ (remaining_refundable order) request.amount_fen

-- The reviewer is no system, and the wallet holds less than the request asks for.
abbrev pub is_poor : RefundRequest → MemoryStore → Bool
is_poor request s =
    not (allow_negative_balance request) && ltb_ℤ (balance s request.user_id) request.amount_fen

-- The decision is to refund, and the request has not been settled before.
abbrev pub pays : RefundRequest → Bool
pays request = request.status == "refunded" && eqb_ℤ request.settled_unix (pos 0)

abbrev pub with_request : String → RefundRequest → MemoryStore → MemoryStore
with_request id request s = record s { refund_requests = insert id request s.refund_requests }

module _ (t : Clock) (id : String) (input : RefundDecisionInput) (updated_unix : ℤ)
    (s : MemoryStore) where
  -- A decision is refused and changes nothing, or is written down, or is also paid out.
  pub data Decision (o : Outcome RefundRequest) : Type 0 where
    refused : (e : Error) → o ≡ (err e, s) → Decision o
    noted :
        (found : RefundRequest)
        → lookup id s.refund_requests ≡ some found
        → is_open found ≡ true
        → is_decision (decided input updated_unix found).status ≡ true
        → pays (decided input updated_unix found) ≡ false
        → o ≡ (
          ok (decided input updated_unix found),
          with_request id (decided input updated_unix found) s,
        )
        → Decision o
    paid :
        (found : RefundRequest) (order : RechargeOrder)
        → lookup id s.refund_requests ≡ some found
        → is_open found ≡ true
        → pays (decided input updated_unix found) ≡ true
        → lookup found.order_id s.orders ≡ some order
        → is_short order found ≡ false
        → is_poor (decided input updated_unix found) s ≡ false
        → o ≡ record_decision id (pay_out t updated_unix (decided input updated_unix found) order s)
        → Decision o

  settle_found :
      (found : RefundRequest) (order : RechargeOrder)
      → lookup id s.refund_requests ≡ some found
      → is_open found ≡ true
      → pays (decided input updated_unix found) ≡ true
      → lookup found.order_id s.orders ≡ some order
      → Decision (record_decision id (settle t updated_unix (decided input updated_unix found) s))
  unfolding settle record_decision decided
  settle_found found order e pending p has =
      let request = decided input updated_unix found in
      elim (Bool-cases (is_short order found)) [
        | inl a ↦ refused refund_not_allowed (rw (has, settle, a) refl)
        | inr a ↦ elim (Bool-cases (is_poor request s)) [
          | inl b ↦ refused refund_not_allowed (rw (has, settle, a, b) refl)
          | inr b ↦ paid found order e pending p has a b (rw (has, settle, a, b) refl)
        ]
      ]

  settle_cases :
      (found : RefundRequest)
      → lookup id s.refund_requests ≡ some found
      → is_open found ≡ true
      → pays (decided input updated_unix found) ≡ true
      → Decision (record_decision id (settle t updated_unix (decided input updated_unix found) s))
  unfolding settle record_decision decided
  settle_cases found e pending p = elim (Option-cases (lookup found.order_id s.orders)) [
    | inl missing ↦ refused (order_not_found found.order_id) (rw (missing, settle) refl)
    | inr (order, has) ↦ settle_found found order e pending p has
  ]

  decide_found :
      (found : RefundRequest)
      → lookup id s.refund_requests ≡ some found
      → Decision (apply_refund_decision t id input updated_unix s)
  unfolding apply_refund_decision record_decision
  decide_found found e =
      let request = decided input updated_unix found in
      elim (Bool-cases (is_open found)) [
        | inr closed ↦ refused refund_not_allowed (rw (e, apply_refund_decision, closed) refl)
        | inl pending ↦ elim (Bool-cases (is_decision request.status)) [
          | inr unknown ↦
              refused refund_not_allowed (rw (e, apply_refund_decision, pending, unknown) refl)
          | inl known ↦ elim (Bool-cases (pays request)) [
            | inr notes ↦
                noted found e pending known notes
                  (rw (e, apply_refund_decision, pending, known, notes) refl)
            | inl p ↦
                rw (e, apply_refund_decision, pending, known, p) (settle_cases found e pending p)
          ]
        ]
      ]

  pub decide_cases : Decision (apply_refund_decision t id input updated_unix s)
  unfolding apply_refund_decision
  decide_cases = elim (Option-cases (lookup id s.refund_requests)) [
    | inl missing ↦ refused (refund_request_not_found id) (rw (missing, apply_refund_decision) refl)
    | inr (found, e) ↦ decide_found found e
  ]
