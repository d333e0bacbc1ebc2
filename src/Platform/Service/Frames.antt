-- ===== src/Platform/Service/Frames.antt =====
-- Calls of the service that leave wallets, entries, orders and refund requests alone.
use myagent_bot.Base.{Option-cases, inl, inr, String, ◌≡◌, refl, arith}
use myagent_bot.Base.Int.{ℤ}
use myagent_bot.Platform.Types.{RechargeOrder, AdminAuditLog, Clock}
use myagent_bot.Platform.Store.State.{MemoryStore, wallet_of, transactions_of}
use myagent_bot.Platform.Store.Wallet.{append_audit_log}
use myagent_bot.Platform.Store.Users.{ensure_user_identity}
use myagent_bot.Platform.Store.Orders.{with_owner, find_order_by_id}
use myagent_bot.Platform.Store.Refunds.{get_refund_request}
use myagent_bot.Base.Dict.{lookup}
use myagent_bot.Platform.Store.Entries.{balance, amounts, Posts}
use myagent_bot.Platform.Service.Provider.{append_service_audit}

-- Two states that differ in users and logs at most.
pub record IsSameMoney (s s' : MemoryStore) : Type 0 where
  pub wallets : s'.wallets ≡ s.wallets
  pub transactions : s'.transactions ≡ s.transactions
  pub orders : s'.orders ≡ s.orders
  pub refund_requests : s'.refund_requests ≡ s.refund_requests

pub same_money : (s : MemoryStore) → IsSameMoney s s
same_money s = record { wallets = refl; transactions = refl; orders = refl; refund_requests = refl }

pub ensure_user_identity-IsSameMoney :
    (u : String) (s : MemoryStore) → IsSameMoney s (ensure_user_identity u s).1
unfolding ensure_user_identity
ensure_user_identity-IsSameMoney u s = record {
  wallets = ground arith;
  transactions = ground arith;
  orders = ground arith;
  refund_requests = ground arith;
}

pub with_owner-IsSameMoney :
    (order : RechargeOrder) (s : MemoryStore) → IsSameMoney s (with_owner order s).1
unfolding with_owner
with_owner-IsSameMoney order s = ensure_user_identity-IsSameMoney order.user_id s

pub audit-IsSameMoney :
    (clock : Clock) (entry : AdminAuditLog) (s : MemoryStore)
    → IsSameMoney s (append_service_audit clock entry s)
unfolding append_service_audit append_audit_log
audit-IsSameMoney clock entry s = record {
  wallets = refl;
  transactions = refl;
  orders = refl;
  refund_requests = refl;
}

-- An entry between two states is one between any that hold the same money.
pub Posts-IsSameMoney :
    {s t t' s' : MemoryStore} {u : String} {amount : ℤ}
    → IsSameMoney s t
    → Posts t u amount t'
    → IsSameMoney t' s'
    → Posts s u amount s'
Posts-IsSameMoney {s} {t} {t'} {s'} {u} {amount} a p b = record {
  balances =
      λ v. ground (arith, p.balances v, same_balance a v, same_balance a u, same_balance b v);
  entries = λ v. ground (arith, p.entries v, same_amounts a v, same_amounts a u, same_amounts b v);
}
  where
    same_balance : {m n : MemoryStore} → IsSameMoney m n → (v : String) → balance n v ≡ balance m v
    same_balance h v = unfold wallet_of in rw h.wallets refl

    same_amounts : {m n : MemoryStore} → IsSameMoney m n → (v : String) → amounts n v ≡ amounts m v
    same_amounts h v = unfold transactions_of in rw h.transactions refl

pub find_order_by_id-IsSameMoney :
    (id : String) (s : MemoryStore) → IsSameMoney s (find_order_by_id id s).1
unfolding find_order_by_id
find_order_by_id-IsSameMoney id s = elim (Option-cases (lookup id s.orders)) [
  | inl missing ↦ rw (missing, find_order_by_id) (same_money s)
  | inr (order, found) ↦ rw (found, find_order_by_id) (with_owner-IsSameMoney order s)
]

pub get_refund_request-IsSameMoney :
    (id : String) (s : MemoryStore) → IsSameMoney s (get_refund_request id s).1
unfolding get_refund_request
get_refund_request-IsSameMoney id s = elim (Option-cases (lookup id s.refund_requests)) [
  | inl missing ↦ rw (missing, get_refund_request) (same_money s)
  | inr (request, found) ↦
      rw (found, get_refund_request) (ensure_user_identity-IsSameMoney request.user_id s)
]
