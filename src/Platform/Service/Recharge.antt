-- ===== src/Platform/Service/Recharge.antt =====
-- Recharge orders and their payment: service.go and governance.go of Platform/internal/service. The
-- clocks of a method are those of its own readings, the one numbered 0, and of the calls it makes.
use Prim.Native.String.{◌++◌ as append}
use myagent_bot.Base.{
  ℕ, String, Bool, true, false, not, ◌||◌, List, Option, none, some, Result, ok, err, if◌then◌else◌,
}
use myagent_bot.Base.Int.{ℤ, pos, ltb_ℤ, leb_ℤ, eqb_ℤ}
use myagent_bot.Base.Text.{decimal}
use myagent_bot.Platform.Types.{
  WalletSummary, RechargeOrder, Clock, invalid_amount, recharge_amount_too_small, callback_amount,
  external,
}
use myagent_bot.Platform.Store.State.{MemoryStore, Outcome, unix}
use myagent_bot.Platform.Store.Orders.{save_order, find_order_by_id, finalize_recharge_order}
use myagent_bot.Platform.Service.Provider.{
  Provider, PaymentOrder, PaymentError, error_text, manual_provider, signed_decimal,
  append_service_audit, blank_audit,
}

pub record CreateOrderInput : Type 0 where
  pub amount_fen : ℤ
  pub channel : String

abbrev pub default_min_recharge_amount_fen : ℤ
default_min_recharge_amount_fen = pos 10

-- `NormalizeWalletSettings`, of its one field
unfoldable pub normalize_min_recharge : ℤ → ℤ
normalize_min_recharge amount_fen =
    if ltb_ℤ amount_fen (pos 1) then default_min_recharge_amount_fen else amount_fen

-- the provider of the service, or the manual one
abbrev pub provider_or_manual : Option Provider → Provider
provider_or_manual none = manual_provider
provider_or_manual (some provider) = provider

-- The order of `CreateRechargeOrder` before the provider is asked. The versions are those of the
-- pricing catalogue and of the agreements in force.
unfoldable pub new_recharge_order :
    Clock → String → List String → String → CreateOrderInput → RechargeOrder
new_recharge_order clock pricing_version agreement_versions user_id input = record {
  id = append "ord_" (decimal (clock 0));
  user_id = user_id;
  user_no = pos 0;
  username = "";
  amount_fen = input.amount_fen;
  refunded_fen = pos 0;
  channel = input.channel;
  provider = "";
  status = "pending";
  pay_url = "";
  external_id = "";
  provider_status = "";
  pricing_version = pricing_version;
  agreement_versions = agreement_versions;
  created_unix = unix (clock 1);
  updated_unix = unix (clock 2);
  paid_unix = pos 0;
  last_checked_unix = pos 0;
}

-- the part of `CreateRechargeOrder` after the provider's answer
unfoldable pub save_created :
    (ℕ → Clock)
    → String
    → RechargeOrder
    → Result PaymentError PaymentOrder
    → MemoryStore
    → Outcome RechargeOrder
save_created clocks user_id order (err e) s = (err (external (error_text e)), s)
save_created clocks user_id order (ok payment) s =
    let placed = record order {
      provider = payment.provider;
      status = payment.status;
      pay_url = payment.pay_url;
      external_id = payment.external_order_id;
    } in
    let amount = append "amount_fen=" (signed_decimal placed.amount_fen) in
    let detail = append amount (
      append " channel="
        (append placed.channel (append " pricing_version=" placed.pricing_version))) in
    let audit = record blank_audit {
      action = "wallet.order.created";
      actor_user_id = user_id;
      target_type = "recharge_order";
      target_id = placed.id;
      detail = detail;
      created_unix = unix (clocks 0 3);
    } in
    (ok placed, append_service_audit (clocks 2) audit (save_order (clocks 1) placed s))

unfoldable pub create_recharge_order :
    (ℕ → Clock)
    → Option Provider
    → ℤ
    → String
    → List String
    → String
    → CreateOrderInput
    → MemoryStore
    → Outcome RechargeOrder
create_recharge_order clocks payment min_fen pricing_version agreement_versions user_id input s =
    let minimum = normalize_min_recharge min_fen in
    let order = new_recharge_order (clocks 0) pricing_version agreement_versions user_id input in
    if leb_ℤ input.amount_fen (pos 0)
    then (err invalid_amount, s)
    else if ltb_ℤ input.amount_fen minimum
    then (err (recharge_amount_too_small minimum), s)
    else save_created clocks user_id order
        ((provider_or_manual payment).create_order order.id order.amount_fen) s

-- the part of `HandleSuccessfulRecharge` after the store's answer; the answer is `changed`
unfoldable pub audit_paid :
    (ℕ → Clock) → String → Outcome (RechargeOrder × WalletSummary × Bool) → Outcome Bool
audit_paid clocks provider (err e, s) = (err e, s)
audit_paid clocks provider (ok (order, wallet, false), s) = (ok false, s)
audit_paid clocks provider (ok (order, wallet, true), s) =
    let detail =
      append "provider="
        (append provider (append " amount_fen=" (signed_decimal order.amount_fen))) in
    (
      ok true,
      append_service_audit (clocks 2)
          (record blank_audit {
            action = "wallet.order.paid";
            target_type = "recharge_order";
            target_id = order.id;
            risk_level = "medium";
            detail = detail;
            created_unix = unix (clocks 0 0);
          })
          s,
    )

unfoldable pub handle_successful_recharge :
    (ℕ → Clock) → String → String → String → MemoryStore → Outcome Bool
handle_successful_recharge clocks order_id provider external_id s =
    audit_paid clocks provider
      (finalize_recharge_order (clocks 1) order_id provider external_id "recharge order paid" s)

-- the part of `HandleSuccessfulRechargeCallback` after the order is found
unfoldable pub check_callback :
    (ℕ → Clock) → String → String → String → ℤ → Outcome RechargeOrder → Outcome Bool
check_callback clocks order_id provider external_id callback_fen (err e, s) = (err e, s)
check_callback clocks order_id provider external_id callback_fen (ok order, s) =
    if leb_ℤ callback_fen (pos 0) || not (eqb_ℤ callback_fen order.amount_fen)
    then (err callback_amount, s)
    else handle_successful_recharge clocks order_id provider external_id s

unfoldable pub handle_successful_recharge_callback :
    (ℕ → Clock) → String → String → String → ℤ → MemoryStore → Outcome Bool
handle_successful_recharge_callback clocks order_id provider external_id callback_fen s =
    check_callback clocks order_id provider external_id callback_fen (find_order_by_id order_id s)
