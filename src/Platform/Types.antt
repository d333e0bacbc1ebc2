-- ===== src/Platform/Types.antt =====
-- The records of Platform/internal/service: service.go and governance.go.
use myagent_bot.Base.{ℕ, String, Bool, List}
use myagent_bot.Base.Int.{ℤ}

-- Amounts in fen and Unix seconds are int64.
pub record WalletSummary : Type 0 where
  pub user_id : String
  pub balance_fen : ℤ
  pub currency : String
  pub updated_unix : ℤ

pub record RechargeOrder : Type 0 where
  pub id : String
  pub user_id : String
  pub user_no : ℤ
  pub username : String
  pub amount_fen : ℤ
  pub refunded_fen : ℤ
  pub channel : String
  pub provider : String
  pub status : String
  pub pay_url : String
  pub external_id : String
  pub provider_status : String
  pub pricing_version : String
  pub agreement_versions : List String
  pub created_unix : ℤ
  pub updated_unix : ℤ
  pub paid_unix : ℤ
  pub last_checked_unix : ℤ

pub record WalletTransaction : Type 0 where
  pub id : String
  pub user_id : String
  pub user_no : ℤ
  pub username : String
  pub kind : String
  pub amount_fen : ℤ
  pub description : String
  pub reference_type : String
  pub reference_id : String
  pub pricing_version : String
  pub created_unix : ℤ

pub record UserIdentity : Type 0 where
  pub user_id : String
  pub user_no : ℤ
  pub username : String
  pub email : String
  pub created_unix : ℤ
  pub updated_unix : ℤ
  pub last_seen_unix : ℤ

pub record AdminAuditLog : Type 0 where
  pub id : String
  pub actor_user_id : String
  pub actor_email : String
  pub action : String
  pub target_type : String
  pub target_id : String
  pub risk_level : String
  pub detail : String
  pub created_unix : ℤ

pub record ChatUsageRecord : Type 0 where
  pub id : String
  pub user_id : String
  pub model_id : String
  pub pricing_version : String
  pub prompt_tokens : ℤ
  pub completion_tokens : ℤ
  pub charged_fen : ℤ
  pub fallback_applied : Bool
  pub request_kind : String
  pub created_unix : ℤ
  pub agreement_versions : List String

pub record RefundRequest : Type 0 where
  pub id : String
  pub user_id : String
  pub user_no : ℤ
  pub username : String
  pub order_id : String
  pub amount_fen : ℤ
  pub reason : String
  pub status : String
  pub review_note : String
  pub reviewed_by : String
  pub refund_provider : String
  pub external_refund_id : String
  pub external_status : String
  pub failure_reason : String
  pub created_unix : ℤ
  pub updated_unix : ℤ
  pub settled_unix : ℤ

pub record RefundDecisionInput : Type 0 where
  pub status : String
  pub review_note : String
  pub reviewed_by : String
  pub refund_provider : String
  pub external_refund_id : String
  pub external_status : String
  pub failure_reason : String

-- The errors that the code tells apart, and the messages that it only prints.
pub data Error : Type 0 where
  invalid_amount insufficient_funds invalid_request_id idempotency_conflict : Error
  unknown_model model_disabled callback_amount : Error
  recharge_amount_too_small : ℤ → Error
  refund_not_allowed : Error
  order_not_found refund_request_not_found : String → Error
  external : String → Error
  joined : Error → Error → Error

-- The readings of `time.Now()` in one call, in nanoseconds since 1970: one for each place in the
-- method at which it reads the clock, in the order of the text.
abbrev pub Clock : Type 0
Clock = ℕ → ℕ
