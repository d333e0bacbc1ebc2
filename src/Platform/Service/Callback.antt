-- ===== src/Platform/Service/Callback.antt =====
-- What a payment provider's callback does to the ledger: `HandleSuccessfulRechargeCallback` of service.go.
use text.Mathlib.Text.{◌==◌}
use myagent_bot.Base.{
  ℕ, String, Bool, true, false, not, ◌||◌, ◌≡◌, ◌≢◌, ◌⊎◌, inl, inr, refl, sym, ap, ◌∙◌, ok, err,
  none, some, arith, eq_iff, Bool-cases, Option-cases, subst,
}
use myagent_bot.Base.Dict.{lookup}
use myagent_bot.Base.Int.{ℤ, pos, eqb_ℤ, leb_ℤ, ◌<ℤ◌}
use myagent_bot.Platform.Types.{
  WalletSummary, RechargeOrder, Clock, order_not_found, callback_amount, Error,
}
use myagent_bot.Platform.Store.State.{MemoryStore, Outcome}
use myagent_bot.Platform.Store.Orders.{with_owner, find_order_by_id, finalize_unpaid}
use myagent_bot.Platform.Store.Entries.{Posts}
use myagent_bot.Platform.Ledger.Entry.{finalize_unpaid-Posts}
use myagent_bot.Platform.Ledger.Recharge.{finalize_paid, finalize_open}
use myagent_bot.Platform.Service.Frames.{
  IsSameMoney, same_money, with_owner-IsSameMoney, audit-IsSameMoney, Posts-IsSameMoney,
}
use myagent_bot.Platform.Service.Recharge.{
  audit_paid, handle_successful_recharge, check_callback, handle_successful_recharge_callback,
}

pub find_missing :
    (id : String) (s : MemoryStore)
    → lookup id s.orders ≡ none
    → find_order_by_id id s ≡ (err (order_not_found id), s)
unfolding find_order_by_id
find_missing id s missing = rw (missing, find_order_by_id) refl

pub find_known :
    (id : String) (order : RechargeOrder) (s : MemoryStore)
    → lookup id s.orders ≡ some order
    → find_order_by_id id s ≡ with_owner order s
unfolding find_order_by_id
find_known id order s found = rw (found, find_order_by_id) refl

-- A callback has credited the order's owner with the amount that it reports, or has moved no money.
abbrev pub CallbackEnds : String → ℤ → MemoryStore → Outcome Bool → Type 0
CallbackEnds order_id fen s o =
    ((order : RechargeOrder) × (lookup order_id s.orders ≡ some order)
      × (order.status ≢ "paid")
      × (fen ≡ order.amount_fen)
      × (pos 0 <ℤ fen)
      × (o.0 ≡ ok true)
      × Posts s order.user_id fen o.1)
    ⊎ ((o.0 ≢ ok true) × (o.1.wallets ≡ s.wallets) × (o.1.transactions ≡ s.transactions))

audit_paid-IsSameMoney :
    (clocks : ℕ → Clock) (provider : String) (o : Outcome (RechargeOrder × WalletSummary × Bool))
    → IsSameMoney o.1 (audit_paid clocks provider o).1
unfolding audit_paid
audit_paid-IsSameMoney clocks provider (err e, s) = same_money s
audit_paid-IsSameMoney clocks provider (ok (order, wallet, false), s) = same_money s
audit_paid-IsSameMoney clocks provider (ok (order, wallet, true), s) = audit-IsSameMoney _ _ s

module _ (clocks : ℕ → Clock) (id provider external_id : String) where
  handle_paid :
      (order : RechargeOrder) (s : MemoryStore)
      → lookup id s.orders ≡ some order
      → order.status ≡ "paid"
      → handle_successful_recharge clocks id provider external_id s ≡ (ok false, s)
  unfolding handle_successful_recharge audit_paid
  handle_paid order s found paid =
      ap (audit_paid clocks provider)
        (finalize_paid (clocks 1) id provider external_id "recharge order paid" order s found paid)

  -- an order that is not paid: one entry for its owner
  handle_open :
      (order : RechargeOrder) (s : MemoryStore)
      → lookup id s.orders ≡ some order
      → order.status ≢ "paid"
      → let o = handle_successful_recharge clocks id provider external_id s in
        (o.0 ≡ ok true) × Posts s order.user_id order.amount_fen o.1
  unfolding handle_successful_recharge
  handle_open order s found open_order =
      rw
        (finalize_open (clocks 1) id provider external_id "recharge order paid" order s found
          open_order)
        (unfold audit_paid finalize_unpaid in refl, audited)
    where
      text : String
      text = "recharge order paid"

      audited :
          Posts s order.user_id order.amount_fen
            (audit_paid clocks provider
              (finalize_unpaid (clocks 1) id provider external_id text order s)).1
      audited =
          Posts-IsSameMoney (same_money s)
            (finalize_unpaid-Posts (clocks 1) id provider external_id text order s)
            (audit_paid-IsSameMoney clocks provider
              (finalize_unpaid (clocks 1) id provider external_id text order s))

  callback_refused :
      (fen : ℤ) (s : MemoryStore) (o : Outcome Bool) {e : Error}
      → o.0 ≡ err e
      → IsSameMoney s o.1
      → CallbackEnds id fen s o
  callback_refused fen s o h same = inr ((λ done. cc), same.wallets, same.transactions)

  -- the callback on an order that is found, in a state with the same money
  check-CallbackEnds :
      (fen : ℤ) (order named : RechargeOrder) (s t : MemoryStore)
      → lookup id s.orders ≡ some order
      → named.amount_fen ≡ order.amount_fen
      → IsSameMoney s t
      → CallbackEnds id fen s (check_callback clocks id provider external_id fen (ok named, t))
  unfolding check_callback
  check-CallbackEnds fen order named s t found amount same =
      elim (Bool-cases (leb_ℤ fen (pos 0) || not (eqb_ℤ fen named.amount_fen))) [
        | inl wrong ↦ rw wrong (callback_refused fen s (err callback_amount, t) refl same)
        | inr right ↦ elim (Bool-cases (order.status == "paid")) [
          | inl paid ↦
              rw
                (
                  right,
                  handle_paid order t (ap (lookup id) same.orders ∙ found)
                      (ground (arith, eq_iff order.status "paid")),
                )
                (inr ((λ done. cc), same.wallets, same.transactions))
          | inr open_order ↦
              let unpaid : order.status ≢ "paid" = ground (arith, eq_iff order.status "paid") in
              let reported : fen ≡ order.amount_fen = ground (arith, amount, right) in
              let positive : pos 0 <ℤ fen = ground (arith, right) in
              let (done, posted) =
                handle_open order t (ap (lookup id) same.orders ∙ found) unpaid in
              let entry =
                subst
                  (λ a.
                    Posts s order.user_id a
                      (handle_successful_recharge clocks id provider external_id t).1)
                  (sym reported) (Posts-IsSameMoney same posted (same_money _)) in
              rw right (inl (order, found, unpaid, reported, positive, done, entry))
        ]
      ]

-- However a callback is delivered, and whatever the store holds: it has either credited the owner of
-- an order on record that was not paid, by one ledger entry of that order's amount, which is the
-- amount it reports and positive, and reported the credit; or it has moved no money and reported none.
pub callback_ends :
    (clocks : ℕ → Clock) (id provider external_id : String) (fen : ℤ) (s : MemoryStore)
    → CallbackEnds id fen s
        (handle_successful_recharge_callback clocks id provider external_id fen s)
unfolding handle_successful_recharge_callback
callback_ends clocks id provider external_id fen s =
    let Ends : Outcome RechargeOrder → Type 0 =
      λ o. CallbackEnds id fen s (check_callback clocks id provider external_id fen o) in
    elim (Option-cases (lookup id s.orders)) [
      | inl missing ↦ subst Ends (sym (find_missing id s missing)) (
          unfold check_callback in
          callback_refused clocks id provider external_id fen s (err (order_not_found id), s) refl
            (same_money s))
      | inr (order, found) ↦ subst Ends (sym (find_known id order s found)) (
          unfold with_owner in
          check-CallbackEnds clocks id provider external_id fen order _ s _ found refl
            (with_owner-IsSameMoney order s))
    ]
