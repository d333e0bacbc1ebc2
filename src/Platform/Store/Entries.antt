-- ===== src/Platform/Store/Entries.antt =====
-- The ledger of `MemoryStore`: what one entry does to balances and to the list of transactions.
use text.Mathlib.Text.{◌==◌}
use mathlib.Core.List.{foldl, map-append, foldl-append}
use myagent_bot.Base.{
  String, ◌≡◌, sym, ap, ◌∙◌, List, [], ◌∷◌, ◌++◌, map, arith, eq_iff, if◌then◌else◌,
}
use myagent_bot.Base.Dict.{insert, lookup_or, lookup-insert}
use myagent_bot.Base.Int.{ℤ, pos}
use myagent_bot.Base.Int64.{add64}
use myagent_bot.Platform.Types.{WalletSummary, WalletTransaction}
use myagent_bot.Platform.Store.State.{MemoryStore, wallet_of, transactions_of, append_transaction}

abbrev pub balance : MemoryStore → String → ℤ
balance s u = (wallet_of s u).balance_fen

abbrev amount_of : WalletTransaction → ℤ
amount_of tx = tx.amount_fen

-- The amounts of a user's transactions, the oldest first.
abbrev pub amounts : MemoryStore → String → List ℤ
amounts s u = map amount_of (transactions_of s u)

-- The running sum, in int64.
unfoldable pub sum64 : List ℤ → ℤ
sum64 = foldl add64 (pos 0)

-- Every balance is the sum of the amounts that stand in the user's transactions.
abbrev pub IsReconciled : MemoryStore → Type 0
IsReconciled s = (u : String) → balance s u ≡ sum64 (amounts s u)

-- From `s` to `s'` the user `u` was given one entry of `amount`, and nobody else any.
pub record Posts (s : MemoryStore) (u : String) (amount : ℤ) (s' : MemoryStore) : Type 0 where
  pub balances :
      (v : String) → balance s' v ≡ (if u == v then add64 (balance s u) amount else balance s v)
  pub entries :
      (v : String) → amounts s' v ≡ (if u == v then amounts s u ++ amount ∷ [] else amounts s v)

sum64-snoc : (xs : List ℤ) (x : ℤ) → sum64 (xs ++ x ∷ []) ≡ add64 (sum64 xs) x
unfolding sum64
sum64-snoc xs x = foldl-append add64 (pos 0) xs (x ∷ [])

-- One entry keeps the ledger reconciled.
pub Posts-IsReconciled :
    {s s' : MemoryStore} {u : String} {amount : ℤ}
    → Posts s u amount s'
    → IsReconciled s
    → IsReconciled s'
Posts-IsReconciled {s} {s'} {u} {amount} p r v =
    ground (arith, p.balances v, p.entries v, r u, r v, sum64-snoc (amounts s u) amount, eq_iff u v)

-- A wallet written beside the transaction that explains it is one entry.
pub append_transaction-Posts :
    (s m : MemoryStore) (w : WalletSummary) (tx : WalletTransaction)
    → m.wallets ≡ insert tx.user_id w s.wallets
    → m.transactions ≡ s.transactions
    → w.balance_fen ≡ add64 (balance s tx.user_id) tx.amount_fen
    → Posts s tx.user_id tx.amount_fen (append_transaction tx m)
unfolding append_transaction wallet_of transactions_of
append_transaction-Posts s m w tx e f h = record {
  balances = λ v. ground (arith, lookup-insert tx.user_id v w s.wallets, eq_iff tx.user_id v);
  entries = λ v. rw f (
      ground (
        arith,
        lookup-insert tx.user_id v (transactions_of s tx.user_id ++ tx ∷ []) s.transactions,
        eq_iff tx.user_id v,
        map-append amount_of (transactions_of s tx.user_id) (tx ∷ []),
      ));
}

-- What leaves balances and transactions alone leaves the ledger reconciled.
pub IsReconciled-same :
    (s s' : MemoryStore)
    → ((v : String) → balance s' v ≡ balance s v)
    → s'.transactions ≡ s.transactions
    → IsReconciled s
    → IsReconciled s'
unfolding transactions_of
IsReconciled-same s s' e f r v =
    e v ∙ r v ∙ ap (λ m. sum64 (map amount_of (lookup_or [] v m))) (sym f)

pub IsReconciled-frame :
    (s s' : MemoryStore)
    → s'.wallets ≡ s.wallets
    → s'.transactions ≡ s.transactions
    → IsReconciled s
    → IsReconciled s'
unfolding wallet_of
IsReconciled-frame s s' e = IsReconciled-same s s' (λ v. ground arith)

-- A wallet that is written with the balance it had changes nobody's balance.
pub balance-insert :
    (s m : MemoryStore) (u : String) (w : WalletSummary)
    → m.wallets ≡ insert u w s.wallets
    → w.balance_fen ≡ balance s u
    → (v : String) → balance m v ≡ balance s v
unfolding wallet_of
balance-insert s m u w e h v = ground (arith, eq_iff u v, lookup-insert u v w s.wallets)
