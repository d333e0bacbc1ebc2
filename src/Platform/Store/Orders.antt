-- ===== src/Platform/Store/Orders.antt =====
-- The order methods of `MemoryStore`.
use text.Mathlib.Text.{◌==◌}
use myagent_bot.Base.{String, Bool, true, false, none, some, ok, err, if◌then◌else◌}
use myagent_bot.Base.Dict.{lookup, insert}
use myagent_bot.Base.Int.{ℤ, pos, eqb_ℤ}
use myagent_bot.Base.Int64.{add64}
use myagent_bot.Platform.Types.{WalletSummary, RechargeOrder, order_not_found, Clock}
use myagent_bot.Platform.Store.State.{
  MemoryStore, Outcome, unix, wallet_of, append_transaction, new_transaction, tx_id,
}
use myagent_bot.Platform.Store.Users.{ensure_user_identity}

-- `SaveOrder`
unfoldable pub save_order : Clock → RechargeOrder → MemoryStore → MemoryStore
save_order clock order s =
    let inherited : ℤ = elim (lookup order.id s.orders) [
      | none ↦ order.created_unix
      | some existing ↦
          if eqb_ℤ order.created_unix (pos 0) then existing.created_unix else order.created_unix
    ] in
    let saved = record order {
      created_unix = if eqb_ℤ inherited (pos 0) then unix (clock 0) else inherited;
      updated_unix =
          if eqb_ℤ order.updated_unix (pos 0) then unix (clock 1) else order.updated_unix;
    } in
    record s { orders = insert order.id saved s.orders }

-- The owner's number and name, put on an order that is handed out.
unfoldable pub with_owner : RechargeOrder → MemoryStore → Outcome RechargeOrder
unfolding ensure_user_identity
with_owner order s =
    let (identity, s') = ensure_user_identity order.user_id s in
    (ok (record order { user_no = identity.user_no; username = identity.username }), s')

-- `FindOrderByID`
unfoldable pub find_order_by_id : String → MemoryStore → Outcome RechargeOrder
unfolding with_owner
find_order_by_id order_id s = elim (lookup order_id s.orders) [
  | none ↦ (err (order_not_found order_id), s)
  | some order ↦ with_owner order s
]

-- `GetOrder`
unfoldable pub get_order : String → String → MemoryStore → Outcome RechargeOrder
unfolding with_owner
get_order user_id order_id s = elim (lookup order_id s.orders) [
  | none ↦ (err (order_not_found order_id), s)
  | some order ↦
      if order.user_id == user_id then with_owner order s else (err (order_not_found order_id), s)
]

-- The five assignments that mark an order as paid.
abbrev pub paid_order : Clock → String → String → RechargeOrder → RechargeOrder
paid_order clock provider external_id order = record order {
  status = "paid";
  provider = provider;
  external_id = external_id;
  paid_unix = unix (clock 0);
  updated_unix = unix (clock 1);
}

-- `MarkOrderPaid`: the order, and whether it changed.
unfoldable pub mark_order_paid :
    Clock → String → String → String → MemoryStore → Outcome (RechargeOrder × Bool)
mark_order_paid clock order_id provider external_id s = elim (lookup order_id s.orders) [
  | none ↦ (err (order_not_found order_id), s)
  | some order ↦
      let paid = paid_order clock provider external_id order in
      if order.status == "paid"
      then (ok (order, false), s)
      else (ok (paid, true), record s { orders = insert order_id paid s.orders })
]

-- The part of `FinalizeRechargeOrder` after its guards: the order is paid, and its owner credited.
unfoldable pub finalize_unpaid :
    Clock
    → String
    → String
    → String
    → String
    → RechargeOrder
    → MemoryStore
    → Outcome (RechargeOrder × WalletSummary × Bool)
finalize_unpaid clock order_id provider external_id description order s =
    let paid = paid_order clock provider external_id order in
    let old = wallet_of s order.user_id in
    let wallet = record old {
      balance_fen = add64 old.balance_fen order.amount_fen;
      updated_unix = unix (clock 2);
    } in
    let tx =
      new_transaction (tx_id (clock 3)) order.user_id "credit" order.amount_fen description
        "recharge_order" order.id (unix (clock 4)) in
    let marked = record s { orders = insert order_id paid s.orders } in
    (
      ok (paid, wallet, true),
      append_transaction tx (record marked { wallets = insert order.user_id wallet s.wallets }),
    )

-- `FinalizeRechargeOrder`: the order, its owner's wallet, and whether anything changed.
unfoldable pub finalize_recharge_order :
    Clock
    → String
    → String
    → String
    → String
    → MemoryStore
    → Outcome (RechargeOrder × WalletSummary × Bool)
unfolding finalize_unpaid
finalize_recharge_order clock order_id provider external_id description s =
    elim (lookup order_id s.orders) [
      | none ↦ (err (order_not_found order_id), s)
      | some order ↦
          if order.status == "paid"
          then (ok (order, wallet_of s order.user_id, false), s)
          else finalize_unpaid clock order_id provider external_id description order s
    ]
