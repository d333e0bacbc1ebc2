-- ===== src/Platform/Store/State.antt =====
-- The fields of `MemoryStore` that hold wallets, orders and refunds, and the helpers on them.
use myagent_bot.Base.{ℕ, ◌/◌, String, Bool, ◌&&◌, ◌||◌, List, [], ◌∷◌, ◌++◌, Result, if◌then◌else◌}
use myagent_bot.Base.Dict.{Dict, insert, lookup_or}
use myagent_bot.Base.Int.{ℤ, pos, eqb_ℤ}
use myagent_bot.Base.Text.{trim_space, decimal}
use myagent_bot.Platform.Types.{
  WalletSummary, RechargeOrder, WalletTransaction, UserIdentity, AdminAuditLog, ChatUsageRecord,
  RefundRequest, Error,
}
use Prim.Native.String.{◌++◌ as append}
use text.Mathlib.Text.{◌==◌}

pub record MemoryStore : Type 0 where
  pub wallets : Dict WalletSummary
  pub users : Dict UserIdentity
  pub next_user_no : ℤ
  pub transactions : Dict (List WalletTransaction)
  pub transaction_refs : Dict WalletTransaction
  pub orders : Dict RechargeOrder
  pub chat_usage : List ChatUsageRecord
  pub audit_logs : List AdminAuditLog
  pub refund_requests : Dict RefundRequest

-- `NewMemoryStore`
unfoldable pub new_memory_store : MemoryStore
new_memory_store = record {
  wallets = [];
  users = [];
  next_user_no = pos 0;
  transactions = [];
  transaction_refs = [];
  orders = [];
  chat_usage = [];
  audit_logs = [];
  refund_requests = [];
}

-- A method's outcome: its result, and the state after it.
abbrev pub Outcome : Type 0 → Type 0
Outcome A = Result Error A × MemoryStore

-- `time.Now().Unix()`, of a reading in nanoseconds
abbrev pub unix : ℕ → ℤ
unix t = pos (t / 1_000_000_000)

-- The wallet that a method starts from where the user has none: `UserID` and `Currency` alone.
abbrev pub fresh_wallet : String → WalletSummary
fresh_wallet user_id = record {
  user_id = user_id;
  balance_fen = pos 0;
  currency = "CNY";
  updated_unix = pos 0;
}

-- `wallet, ok := s.wallets[userID]; if !ok { wallet = … }`
unfoldable pub wallet_of : MemoryStore → String → WalletSummary
wallet_of s user_id = lookup_or (fresh_wallet user_id) user_id s.wallets

unfoldable pub transactions_of : MemoryStore → String → List WalletTransaction
transactions_of s user_id = lookup_or [] user_id s.transactions

-- `walletMutationReferenceKey`
unfoldable pub wallet_mutation_reference_key : String → String → String
wallet_mutation_reference_key reference_type reference_id =
    let t = trim_space reference_type in
    let i = trim_space reference_id in if t == "" || i == "" then "" else append t (append "::" i)

-- `walletMutationMatches`
unfoldable pub wallet_mutation_matches : WalletTransaction → WalletTransaction → Bool
wallet_mutation_matches existing current =
    trim_space existing.user_id == trim_space current.user_id
    && trim_space existing.kind == trim_space current.kind
    && eqb_ℤ existing.amount_fen current.amount_fen
    && trim_space existing.description == trim_space current.description
    && trim_space existing.reference_type == trim_space current.reference_type
    && trim_space existing.reference_id == trim_space current.reference_id

-- `appendTransactionLocked`
unfoldable pub append_transaction : WalletTransaction → MemoryStore → MemoryStore
append_transaction tx s =
    let ref_key = wallet_mutation_reference_key tx.reference_type tx.reference_id in
    let refs = if ref_key == "" then s.transaction_refs else insert ref_key tx s.transaction_refs in
    record s {
      transactions = insert tx.user_id (transactions_of s tx.user_id ++ tx ∷ []) s.transactions;
      transaction_refs = refs;
    }

-- A transaction with the fields that a store method leaves at their zero values.
abbrev pub new_transaction :
    String → String → String → ℤ → String → String → String → ℤ → WalletTransaction
new_transaction id user_id kind amount_fen description reference_type reference_id created_unix =
    record {
      id = id;
      user_id = user_id;
      user_no = pos 0;
      username = "";
      kind = kind;
      amount_fen = amount_fen;
      description = description;
      reference_type = reference_type;
      reference_id = reference_id;
      pricing_version = "";
      created_unix = created_unix;
    }

-- `fmt.Sprintf("tx_%d", time.Now().UnixNano())`
abbrev pub tx_id : ℕ → String
tx_id t = append "tx_" (decimal t)
