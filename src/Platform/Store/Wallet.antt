-- ===== src/Platform/Store/Wallet.antt =====
-- The wallet methods of `MemoryStore`: reads, credits, debits and the adjustments of operators.
use text.Mathlib.Text.{◌==◌}
use Prim.Native.String.{◌++◌ as append, compare}
use Prim.Native.Nat.{Ordering}
use myagent_bot.Base.{
  String, Bool, true, false, ◌&&◌, ◌||◌, none, some, List, [], ◌∷◌, ok, err, if◌then◌else◌,
}
use myagent_bot.Base.Dict.{lookup, insert}
use myagent_bot.Base.Int.{ℤ, pos, eqb_ℤ, ltb_ℤ}
use myagent_bot.Base.Int64.{add64, sub64, neg64}
use myagent_bot.Base.Text.{trim_space, decimal}
use myagent_bot.Platform.Types.{
  WalletSummary, WalletTransaction, AdminAuditLog, invalid_amount, insufficient_funds,
  invalid_request_id, idempotency_conflict, Clock,
}
use myagent_bot.Platform.Store.State.{
  MemoryStore, Outcome, unix, wallet_of, wallet_mutation_reference_key, wallet_mutation_matches,
  append_transaction, new_transaction, tx_id,
}
use myagent_bot.Platform.Store.Users.{ensure_user_identity}

-- `SetBalance`
unfoldable pub set_balance : Clock → String → ℤ → MemoryStore → MemoryStore
unfolding ensure_user_identity
set_balance clock user_id balance_fen s =
    let (_, s') = ensure_user_identity user_id s in
    let wallet : WalletSummary = record {
      user_id = user_id;
      balance_fen = balance_fen;
      currency = "CNY";
      updated_unix = unix (clock 0);
    } in
    record s' { wallets = insert user_id wallet s'.wallets }

-- `GetWallet`, which stores the empty wallet of a user who had none.
unfoldable pub get_wallet : Clock → String → MemoryStore → Outcome WalletSummary
get_wallet clock user_id s =
    let wallet = record (wallet_of s user_id) { updated_unix = unix (clock 0) } in
    elim (lookup user_id s.wallets) [
      | some known ↦ (ok known, s)
      | none ↦ (ok wallet, record s { wallets = insert user_id wallet s.wallets })
    ]

-- `Credit`
unfoldable pub credit : Clock → String → ℤ → String → MemoryStore → Outcome WalletSummary
credit clock user_id amount_fen description s =
    let old = wallet_of s user_id in
    let wallet = record old {
      balance_fen = add64 old.balance_fen amount_fen;
      updated_unix = unix (clock 0);
    } in
    let tx =
      new_transaction (tx_id (clock 1)) user_id "credit" amount_fen description "" ""
        (unix (clock 2)) in
    (ok wallet, append_transaction tx (record s { wallets = insert user_id wallet s.wallets }))

-- `Debit`
unfoldable pub debit : Clock → String → ℤ → String → MemoryStore → Outcome WalletSummary
debit clock user_id amount_fen description s =
    let old = wallet_of s user_id in
    let wallet = record old {
      balance_fen = sub64 old.balance_fen amount_fen;
      updated_unix = unix (clock 0);
    } in
    let tx =
      new_transaction (tx_id (clock 1)) user_id "debit" (neg64 amount_fen) description "" ""
        (unix (clock 2)) in
    if ltb_ℤ old.balance_fen amount_fen
    then (err insufficient_funds, s)
    else (ok wallet, append_transaction tx (record s { wallets = insert user_id wallet s.wallets }))

-- `walletAdjustmentKind` of governance.go
unfoldable pub wallet_adjustment_kind : ℤ → String
wallet_adjustment_kind amount_fen = if ltb_ℤ amount_fen (pos 0) then "debit" else "credit"

abbrev pub with_currency : WalletSummary → WalletSummary
with_currency w = if w.currency == "" then record w { currency = "CNY" } else w

-- The transaction with the fields that were left empty filled in. `t` is the clock of the call.
abbrev pub filled_transaction : Clock → WalletTransaction → WalletTransaction
filled_transaction t tx = record tx {
  id = if tx.id == "" then tx_id (t 1) else tx.id;
  kind = if tx.kind == "" then wallet_adjustment_kind tx.amount_fen else tx.kind;
  created_unix = if eqb_ℤ tx.created_unix (pos 0) then unix (t 2) else tx.created_unix;
}

-- The wallet that an adjustment writes.
abbrev pub adjusted_wallet : Clock → WalletTransaction → MemoryStore → WalletSummary
adjusted_wallet t tx s =
    let old = with_currency (wallet_of s tx.user_id) in
    record old { balance_fen = add64 old.balance_fen tx.amount_fen; updated_unix = unix (t 0) }

-- What both adjustments write once their guards have passed.
unfoldable pub adjust : Clock → WalletTransaction → MemoryStore → WalletSummary × MemoryStore
adjust t tx s =
    let wallet = adjusted_wallet t tx s in
    (
      wallet,
      append_transaction (filled_transaction t tx)
          (record s { wallets = insert tx.user_id wallet s.wallets }),
    )

-- `tx.AmountFen < 0 && wallet.BalanceFen < -tx.AmountFen`
unfoldable pub overdraws : WalletTransaction → MemoryStore → Bool
overdraws tx s =
    ltb_ℤ tx.amount_fen (pos 0) && ltb_ℤ (wallet_of s tx.user_id).balance_fen (neg64 tx.amount_fen)

-- `ApplyWalletAdjustment`
unfoldable pub apply_wallet_adjustment :
    Clock → WalletTransaction → MemoryStore → Outcome WalletSummary
apply_wallet_adjustment clock tx s =
    let (wallet, s') = adjust clock tx s in
    if tx.user_id == "" || eqb_ℤ tx.amount_fen (pos 0)
    then (err invalid_amount, s)
    else if overdraws tx s
    then (err insufficient_funds, s)
    else (ok wallet, s')

-- The order of the audit log: the newest first, and the greater id first among those of one second.
unfoldable pub audit_before : AdminAuditLog → AdminAuditLog → Bool
audit_before a b =
    if eqb_ℤ a.created_unix b.created_unix
    then elim (compare a.id b.id) [ Ordering.gt ↦ true | _ ↦ false ]
    else ltb_ℤ b.created_unix a.created_unix

unfoldable pub insert_audit : AdminAuditLog → List AdminAuditLog → List AdminAuditLog
insert_audit e [] = e ∷ []
insert_audit e (x ∷ xs) = if audit_before e x then e ∷ x ∷ xs else x ∷ insert_audit e xs

-- `appendAuditLogLocked`: `sort.Slice` of a log that was in order puts the new entry in its place.
unfoldable pub append_audit_log : AdminAuditLog → MemoryStore → MemoryStore
append_audit_log entry s = record s { audit_logs = insert_audit entry s.audit_logs }

-- The audit entry with the fields that were left empty filled in.
abbrev pub filled_audit : Clock → AdminAuditLog → AdminAuditLog
filled_audit t audit = record audit {
  id = if trim_space audit.id == "" then append "audit_" (decimal (t 3)) else audit.id;
  created_unix = if eqb_ℤ audit.created_unix (pos 0) then unix (t 4) else audit.created_unix;
}

-- `ApplyAdminWalletMutation`: the wallet, and whether the request was a replay.
unfoldable pub apply_admin_wallet_mutation :
    Clock → WalletTransaction → AdminAuditLog → MemoryStore → Outcome (WalletSummary × Bool)
apply_admin_wallet_mutation clock tx audit s =
    let ref_key = wallet_mutation_reference_key tx.reference_type tx.reference_id in
    let (wallet, s') = adjust clock tx s in
    let fresh : Outcome (WalletSummary × Bool) =
      if overdraws tx s
      then (err insufficient_funds, s)
      else (ok (wallet, false), append_audit_log (filled_audit clock audit) s') in
    if tx.user_id == "" || eqb_ℤ tx.amount_fen (pos 0)
    then (err invalid_amount, s)
    else if ref_key == ""
    then (err invalid_request_id, s)
    else elim (lookup ref_key s.transaction_refs) [
      | none ↦ fresh
      | some existing ↦
          if wallet_mutation_matches existing tx
          then (ok (with_currency (wallet_of s existing.user_id), true), s)
          else (err idempotency_conflict, s)
    ]
