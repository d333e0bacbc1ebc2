-- ===== src/Platform/Service/Provider.antt =====
-- Payment providers: Platform/internal/payments/provider.go. A provider is reached over the network; its
-- answers are a parameter, and a method asks each question once at most.
use Prim.Native.String.{◌++◌ as append}
use myagent_bot.Base.{String, Bool, if◌then◌else◌, List, [], ◌∷◌, Result, ok, err}
use myagent_bot.Base.Int.{ℤ, pos, negsuc, eqb_ℤ}
use myagent_bot.Base.Text.{trim_space, decimal}
use myagent_bot.Base.{suc}
use myagent_bot.Platform.Types.{AdminAuditLog, Clock}
use myagent_bot.Platform.Store.State.{MemoryStore, unix}
use myagent_bot.Platform.Store.Wallet.{append_audit_log}
use text.Mathlib.Text.{◌==◌}

pub record PaymentOrder : Type 0 where
  pub order_id : String
  pub external_order_id : String
  pub status : String
  pub pay_url : String
  pub provider : String
  pub amount_fen : ℤ

pub record OrderStatusResult : Type 0 where
  pub order_id : String
  pub external_order_id : String
  pub amount_fen : ℤ
  pub status : String
  pub provider_status : String
  pub paid : Bool
  pub refunded : Bool
  pub last_checked_unix : ℤ

pub record RefundInput : Type 0 where
  pub order_id : String
  pub external_order_id : String
  pub amount_fen : ℤ
  pub reason : String

pub record RefundResult : Type 0 where
  pub order_id : String
  pub external_order_id : String
  pub external_refund_id : String
  pub amount_fen : ℤ
  pub status : String
  pub provider_status : String
  pub succeeded : Bool
  pub pending : Bool
  pub message : String

-- `ErrOperationNotSupported`, by its text or wrapped, and any other error by its text
pub data PaymentError : Type 0 where
  not_supported : String → PaymentError
  failed : String → PaymentError

-- The methods that the service calls: `CreateOrder` by order id and amount, `QueryOrder` by order
-- id and external id, `Refund`, and `Name`.
pub record Provider : Type 0 where
  pub name : String
  pub create_order : String → ℤ → Result PaymentError PaymentOrder
  pub query_order : String → String → Result PaymentError OrderStatusResult
  pub refund : RefundInput → Result PaymentError RefundResult

abbrev pub not_supported_text : String
not_supported_text = "payment provider operation not supported"

-- `ManualProvider`, which the service uses where it has none
abbrev pub manual_provider : Provider
manual_provider = record {
  name = "manual";
  create_order = λ order_id amount_fen. ok (record {
    order_id = order_id;
    external_order_id = "";
    status = "pending";
    pay_url = "";
    provider = "manual";
    amount_fen = amount_fen;
  });
  query_order = λ order_id external_id. err (not_supported not_supported_text);
  refund = λ input. err (not_supported not_supported_text);
}

abbrev pub error_text : PaymentError → String
error_text (not_supported text) = text
error_text (failed text) = text

-- `firstNonEmpty`
unfoldable pub first_non_empty : List String → String
first_non_empty [] = ""
first_non_empty (value ∷ values) =
    let later = first_non_empty values in if trim_space value == "" then later else trim_space value

-- `%d` of an int64
unfoldable pub signed_decimal : ℤ → String
signed_decimal (pos n) = decimal n
signed_decimal (negsuc n) = append "-" (decimal (suc n))

-- `appendAuditLog` of governance.go, on a store that is there
unfoldable pub append_service_audit : Clock → AdminAuditLog → MemoryStore → MemoryStore
append_service_audit clock entry s =
    append_audit_log
      (record entry {
        id = if trim_space entry.id == "" then append "audit_" (decimal (clock 0)) else entry.id;
        created_unix =
            if eqb_ℤ entry.created_unix (pos 0) then unix (clock 1) else entry.created_unix;
      })
      s

abbrev pub blank_audit : AdminAuditLog
blank_audit = record {
  id = "";
  actor_user_id = "";
  actor_email = "";
  action = "";
  target_type = "";
  target_id = "";
  risk_level = "";
  detail = "";
  created_unix = pos 0;
}
