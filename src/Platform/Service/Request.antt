-- ===== src/Platform/Service/Request.antt =====
-- Refund requests as customers make them, `CreateRefundRequest` of governance.go.
use text.Mathlib.Text.{◌==◌}
use text.Mathlib.TextPositions.{eq_refl}
use myagent_bot.Base.{
  ℕ, String, true, false, ◌||◌, ◌≡◌, inl, inr, refl, sym, ap, ◌∙◌, subst, ok, err, none, some,
  arith, eq_iff, Bool-cases, Option-cases,
}
use myagent_bot.Base.Dict.{lookup, insert, lookup-insert}
use myagent_bot.Base.Int.{ℤ, pos, ltb_ℤ, leb_ℤ, ◌<ℤ◌, ◌≤ℤ◌}
use myagent_bot.Platform.Types.{WalletSummary, RechargeOrder, RefundRequest, Clock, order_not_found}
use myagent_bot.Platform.Store.State.{MemoryStore, Outcome, wallet_of, unix}
use myagent_bot.Platform.Store.Wallet.{get_wallet, append_audit_log}
use myagent_bot.Platform.Store.Orders.{with_owner, get_order}
use myagent_bot.Platform.Store.Refunds.{create_refund_request}
use myagent_bot.Platform.Store.Entries.{balance}
use myagent_bot.Platform.Billing.{and_then}
use myagent_bot.Platform.Service.Provider.{append_service_audit}
use myagent_bot.Platform.Service.Refunding.{
  save_refund_request, check_refund, request_refund, refundable_of,
}
use myagent_bot.Platform.Service.Frames.{IsSameMoney, with_owner-IsSameMoney}

-- What a request that was accepted rests on: the customer's own paid order, with as much left to refund,
-- and a wallet that holds as much; it stands on record as it was returned.
pub record IsGrounded (user_id : String) (fen : ℤ) (order_id : String) (s : MemoryStore)
    (r : RefundRequest) (s' : MemoryStore) : Type 0 where
  pub order : RechargeOrder
  pub found : lookup order_id s.orders ≡ some order
  pub own : order.user_id ≡ user_id
  pub paid : order.status ≡ "paid"
  pub positive : pos 0 <ℤ fen
  pub refundable : fen ≤ℤ refundable_of order
  pub funded : fen ≤ℤ balance s user_id
  pub recorded : lookup r.id s'.refund_requests ≡ some r
  pub pending : r.status ≡ "pending"
  pub amount : r.amount_fen ≡ fen
  pub asked_by : r.user_id ≡ user_id
  pub asked_of : r.order_id ≡ order_id

-- a request that was accepted is grounded; one that was refused has left wallets, entries, orders and
-- refund requests alone
abbrev pub RequestEnds : String → ℤ → String → MemoryStore → Outcome RefundRequest → Type 0
RequestEnds user_id fen order_id s (ok r, s') =
    IsGrounded user_id fen order_id s r s'
    × (s'.transactions ≡ s.transactions)
    × (s'.orders ≡ s.orders)
RequestEnds user_id fen order_id s (err e, s') =
    (s'.refund_requests ≡ s.refund_requests)
    × (s'.transactions ≡ s.transactions)
    × (s'.orders ≡ s.orders)

module _ (clocks : ℕ → Clock) (user_id : String) (fen : ℤ) (order_id reason : String)
    (s : MemoryStore) where
  saved_ends :
      (order : RechargeOrder) (wallet : WalletSummary) (t : MemoryStore)
      → lookup order_id s.orders ≡ some order
      → order.user_id ≡ user_id
      → order.status ≡ "paid"
      → pos 0 <ℤ fen
      → fen ≤ℤ refundable_of order
      → wallet.balance_fen ≡ balance s user_id
      → t.refund_requests ≡ s.refund_requests
      → t.transactions ≡ s.transactions
      → t.orders ≡ s.orders
      → RequestEnds user_id fen order_id s
          (save_refund_request clocks user_id fen order_id reason wallet t)
  unfolding save_refund_request create_refund_request append_service_audit append_audit_log
  saved_ends order wallet t found own paid positive enough funds e f g =
      elim (Bool-cases (ltb_ℤ wallet.balance_fen fen)) [
        | inl poor ↦ rw poor (e, f, g)
        | inr funded ↦ rw funded (
          record {
            order = order;
            found = found;
            own = own;
            paid = paid;
            positive = positive;
            refundable = enough;
            funded = ground (arith, funds, funded);
            recorded = simp (lookup-insert, eq_refl);
            pending = refl;
            amount = refl;
            asked_by = refl;
            asked_of = refl;
          },
          f,
          g,
        )
      ]

  abbrev after_wallet : Outcome WalletSummary → Outcome RefundRequest
  after_wallet o = and_then o (save_refund_request clocks user_id fen order_id reason)

  read_ends :
      (order : RechargeOrder) (t : MemoryStore)
      → lookup order_id s.orders ≡ some order
      → order.user_id ≡ user_id
      → order.status ≡ "paid"
      → pos 0 <ℤ fen
      → fen ≤ℤ refundable_of order
      → IsSameMoney s t
      → RequestEnds user_id fen order_id s (after_wallet (get_wallet (clocks 1) user_id t))
  read_ends order t found own paid positive enough same =
      elim (Option-cases (lookup user_id t.wallets)) [
        | inr (w, known) ↦
            let funds = sym (balance_known w (ap (lookup user_id) (sym same.wallets) ∙ known)) in
            subst (λ o. RequestEnds user_id fen order_id s (after_wallet o))
              (sym (wallet_known t w known))
              (saved_ends order w t found own paid positive enough funds same.refund_requests
                same.transactions same.orders)
        | inl new ↦
            let funds : balance t user_id ≡ balance s user_id =
              unfold wallet_of in rw same.wallets refl in
            subst (λ o. RequestEnds user_id fen order_id s (after_wallet o))
              (sym (wallet_new t new))
              (saved_ends order _ _ found own paid positive enough funds same.refund_requests
                same.transactions same.orders)
      ]
    where
      balance_known :
          (w : WalletSummary)
          → lookup user_id s.wallets ≡ some w
          → balance s user_id ≡ w.balance_fen
      balance_known w known = unfold wallet_of in rw (balance, wallet_of, known) refl

      opened : MemoryStore → WalletSummary
      opened t = record (wallet_of t user_id) { updated_unix = unix (clocks 1 0) }

      wallet_known :
          (t : MemoryStore) (w : WalletSummary)
          → lookup user_id t.wallets ≡ some w
          → get_wallet (clocks 1) user_id t ≡ (ok w, t)
      wallet_known t w known = unfold get_wallet in rw (known, get_wallet) refl

      wallet_new :
          (t : MemoryStore)
          → lookup user_id t.wallets ≡ none
          → get_wallet (clocks 1) user_id t
            ≡ (ok (opened t), record t { wallets = insert user_id (opened t) t.wallets })
      wallet_new t new = unfold get_wallet in rw (new, get_wallet) refl

  -- the order that is read: the guards of its status and of the amount
  check_ends :
      (order named : RechargeOrder) (t : MemoryStore)
      → lookup order_id s.orders ≡ some order
      → order.user_id ≡ user_id
      → named.status ≡ order.status
      → refundable_of named ≡ refundable_of order
      → IsSameMoney s t
      → RequestEnds user_id fen order_id s (check_refund clocks user_id fen order_id reason named t)
  unfolding check_refund
  check_ends order named t found own status rest same = elim (Bool-cases (named.status == "paid")) [
    | inr unpaid ↦ rw unpaid (same.refund_requests, same.transactions, same.orders)
    | inl paid ↦ elim (Bool-cases (leb_ℤ fen (pos 0))) [
      | inl none_asked ↦
          rw (paid, none_asked) (same.refund_requests, same.transactions, same.orders)
      | inr positive ↦
          elim (Bool-cases
            (leb_ℤ (refundable_of named) (pos 0) || ltb_ℤ (refundable_of named) fen)) [
              | inl short ↦
                  rw (paid, positive, short) (same.refund_requests, same.transactions, same.orders)
              | inr enough ↦
                  let is_paid : order.status ≡ "paid" =
                    sym status ∙ (eq_iff named.status "paid").0 paid in
                  rw (paid, positive, enough)
                    (read_ends order t found own is_paid (ground (arith, positive))
                      (ground (arith, enough, rest)) same)
            ]
    ]
  ]

-- However a customer asks for a refund: a request that is accepted stands on record as pending, under
-- the customer, the order and the amount that were asked for; the amount is more than nothing, the
-- order is the customer's own, is paid and has as much left to refund, and the wallet covers it. A
-- request that is refused is not on record. Neither makes a ledger entry or changes an order.
pub request_refund_ends :
    (clocks : ℕ → Clock) (user_id : String) (fen : ℤ) (order_id reason : String) (s : MemoryStore)
    → RequestEnds user_id fen order_id s (request_refund clocks user_id fen order_id reason s)
unfolding request_refund
request_refund_ends clocks user_id fen order_id reason s =
    elim (Option-cases (lookup order_id s.orders)) [
      | inl missing ↦ subst Ends (sym (order_missing missing)) (refl, refl, refl)
      | inr (order, found) ↦ elim (Bool-cases (order.user_id == user_id)) [
        | inr other ↦ subst Ends (sym (order_other order found other)) (refl, refl, refl)
        | inl own ↦ subst Ends (sym (order_own order found own)) (
            unfold with_owner in
            check_ends clocks user_id fen order_id reason s order _ _ found
              ((eq_iff order.user_id user_id).0 own) refl refl (with_owner-IsSameMoney order s))
      ]
    ]
  where
    Ends : Outcome RechargeOrder → Type 0
    Ends o =
        RequestEnds user_id fen order_id s
          (and_then o (check_refund clocks user_id fen order_id reason))

    order_missing :
        lookup order_id s.orders ≡ none
        → get_order user_id order_id s ≡ (err (order_not_found order_id), s)
    order_missing missing = unfold get_order in rw (missing, get_order) refl

    order_other :
        (order : RechargeOrder)
        → lookup order_id s.orders ≡ some order
        → (order.user_id == user_id) ≡ false
        → get_order user_id order_id s ≡ (err (order_not_found order_id), s)
    order_other order found other = unfold get_order in rw (found, get_order, other) refl

    order_own :
        (order : RechargeOrder)
        → lookup order_id s.orders ≡ some order
        → (order.user_id == user_id) ≡ true
        → get_order user_id order_id s ≡ with_owner order s
    order_own order found own = unfold get_order in rw (found, get_order, own) refl
