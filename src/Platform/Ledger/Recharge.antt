-- ===== src/Platform/Ledger/Recharge.antt =====
-- `FinalizeRechargeOrder` of memory_store.go under callbacks that come more than once.
use text.Mathlib.Text.{◌==◌}
use text.Mathlib.TextPositions.{eq_refl}
use myagent_bot.Base.{
  String, ◌≡◌, refl, ◌≢◌, false, ok, some, Bool-cases, inl, inr, List, [], ◌∷◌, eq_iff,
}
use myagent_bot.Base.Dict.{lookup, lookup-insert}
use myagent_bot.Platform.Types.{RechargeOrder, Clock}
use myagent_bot.Platform.Store.State.{MemoryStore, wallet_of, append_transaction}
use myagent_bot.Platform.Store.Orders.{paid_order, finalize_unpaid, finalize_recharge_order}
use myagent_bot.Platform.Store.Entries.{Posts}
use myagent_bot.Platform.Ledger.Entry.{finalize_unpaid-Posts}

-- What a payment provider's callback says of an order.
pub record Callback : Type 0 where
  pub clock : Clock
  pub provider : String
  pub external_id : String
  pub description : String

unfoldable pub finalize_all : String → List Callback → MemoryStore → MemoryStore
finalize_all id [] s = s
finalize_all id (c ∷ cs) s =
    finalize_all id cs
      (finalize_recharge_order c.clock id c.provider c.external_id c.description s).1

pub finalize_paid :
    (t : Clock) (id provider external_id description : String) (order : RechargeOrder)
    (s : MemoryStore)
    → lookup id s.orders ≡ some order
    → order.status ≡ "paid"
    → finalize_recharge_order t id provider external_id description s
      ≡ (ok (order, wallet_of s order.user_id, false), s)
unfolding finalize_recharge_order
finalize_paid t id provider external_id description order s found paid =
    rw (found, finalize_recharge_order, (eq_iff order.status "paid").1 paid) refl

pub finalize_open :
    (t : Clock) (id provider external_id description : String) (order : RechargeOrder)
    (s : MemoryStore)
    → lookup id s.orders ≡ some order
    → order.status ≢ "paid"
    → finalize_recharge_order t id provider external_id description s
      ≡ finalize_unpaid t id provider external_id description order s
unfolding finalize_recharge_order
finalize_open t id provider external_id description order s found unpaid =
    elim (Bool-cases (order.status == "paid")) [
      | inl paid ↦ absurd (unpaid ((eq_iff order.status "paid").0 paid))
      | inr e ↦ rw (found, finalize_recharge_order, e) refl
    ]

finalize_unpaid_order :
    (t : Clock) (id provider external_id description : String) (order : RechargeOrder)
    (s : MemoryStore)
    → lookup id (finalize_unpaid t id provider external_id description order s).1.orders
      ≡ some (paid_order t provider external_id order)
unfolding finalize_unpaid append_transaction
finalize_unpaid_order t id provider external_id description order s = simp (lookup-insert, eq_refl)

finalize_all_paid :
    (id : String) (cs : List Callback) (order : RechargeOrder) (s : MemoryStore)
    → lookup id s.orders ≡ some order
    → order.status ≡ "paid"
    → finalize_all id cs s ≡ s
unfolding finalize_all
finalize_all_paid id [] order s found paid = refl
finalize_all_paid id (c ∷ cs) order s found paid =
    rw (finalize_paid c.clock id c.provider c.external_id c.description order s found paid)
      (finalize_all_paid id cs order s found paid)

-- For an order that is known and not paid, the first callback makes one ledger entry of the order's
-- amount for its owner and puts the order on record as paid, with the provider and the external id
-- that the callback names; any number of further callbacks for that order, whatever they name, leave
-- the whole state as the first has left it.
pub finalize_once :
    (id : String) (c : Callback) (cs : List Callback) (order : RechargeOrder) (s : MemoryStore)
    → lookup id s.orders ≡ some order
    → order.status ≢ "paid"
    → let first = finalize_recharge_order c.clock id c.provider c.external_id c.description s in
      Posts s order.user_id order.amount_fen first.1
      × (lookup id first.1.orders ≡ some (paid_order c.clock c.provider c.external_id order))
      × (finalize_all id (c ∷ cs) s ≡ first.1)
unfolding finalize_all
finalize_once id c cs order s found unpaid =
    let after = (finalize_unpaid c.clock id c.provider c.external_id c.description order s).1 in
    let paid = paid_order c.clock c.provider c.external_id order in
    let known = finalize_unpaid_order c.clock id c.provider c.external_id c.description order s in
    rw (finalize_open c.clock id c.provider c.external_id c.description order s found unpaid) (
      finalize_unpaid-Posts c.clock id c.provider c.external_id c.description order s,
      known,
      finalize_all_paid id cs paid after known refl,
    )
