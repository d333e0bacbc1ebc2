-- ===== src/Platform/Ledger/Sound.antt =====
-- A sound end of a call, and the reads and debits of `MemoryStore`, which all end soundly.
use text.Mathlib.Text.{◌==◌}
use myagent_bot.Base.{String, ◌≡◌, refl, ok, err, arith, Bool-cases, inl, inr, Option-cases}
use myagent_bot.Base.Dict.{lookup}
use myagent_bot.Base.Int.{ℤ}
use myagent_bot.Platform.Types.{RechargeOrder, Error, Clock}
use myagent_bot.Platform.Store.State.{MemoryStore, Outcome}
use myagent_bot.Platform.Store.Users.{ensure_user_identity}
use myagent_bot.Platform.Store.Wallet.{get_wallet, debit}
use myagent_bot.Platform.Store.Orders.{with_owner, get_order, find_order_by_id, mark_order_paid}
use myagent_bot.Platform.Store.Refunds.{get_refund_request}
use myagent_bot.Platform.Store.Entries.{
  Posts-IsReconciled, IsReconciled, IsReconciled-frame, IsReconciled-same, balance-insert,
}
use myagent_bot.Platform.Ledger.{ended, Ended}
use myagent_bot.Platform.Ledger.Entry.{debit_lem}

-- How a call may end: with an error and the state as it was, or reconciled if it began so.
abbrev pub IsSound : MemoryStore → Ended → Type 0
IsSound s (err _, s') = s' ≡ s
IsSound s (ok _, s') = IsReconciled s → IsReconciled s'

pub err-IsSound :
    {A : Type 0} (s : MemoryStore) (o : Outcome A) {e : Error}
    → o ≡ (err e, s)
    → IsSound s (ended o)
err-IsSound s o h = rw h refl

pub ok-IsSound :
    {A : Type 0} (s : MemoryStore) (o : Outcome A) {a : A}
    → o.0 ≡ ok a
    → (IsReconciled s → IsReconciled o.1)
    → IsSound s (ended o)
ok-IsSound s (ok a, s') h r = r
ok-IsSound s (err e, s') h r = cc

pub get_wallet-IsSound :
    (t : Clock) (u : String) (s : MemoryStore) → IsSound s (ended (get_wallet t u s))
unfolding get_wallet
get_wallet-IsSound t u s = elim (Option-cases (lookup u s.wallets)) [
  | inr (w, known) ↦ rw (known, get_wallet) (λ r. r)
  | inl new ↦ rw (new, get_wallet) (IsReconciled-same s _ (balance-insert s _ u _ refl refl) refl)
]

pub debit-IsSound :
    (t : Clock) (u : String) (amount : ℤ) (description : String) (s : MemoryStore)
    → IsSound s (ended (debit t u amount description s))
debit-IsSound t u amount description s = elim (debit_lem t u amount description s) [
  | inl (_, refused) ↦ err-IsSound s _ refused
  | inr (_, (w, done, _, posted)) ↦ ok-IsSound s _ done (Posts-IsReconciled posted)
]

ensure_user_identity_frame :
    (u : String) (s : MemoryStore)
    → ((ensure_user_identity u s).1.wallets ≡ s.wallets)
      × ((ensure_user_identity u s).1.transactions ≡ s.transactions)
unfolding ensure_user_identity
ensure_user_identity_frame u s = ground arith

pub with_owner-IsSound :
    (order : RechargeOrder) (s : MemoryStore) → IsSound s (ended (with_owner order s))
unfolding with_owner
with_owner-IsSound order s =
    let frame = ensure_user_identity_frame order.user_id s in IsReconciled-frame s _ frame.0 frame.1

pub get_order-IsSound : (u id : String) (s : MemoryStore) → IsSound s (ended (get_order u id s))
unfolding get_order
get_order-IsSound u id s = elim (Option-cases (lookup id s.orders)) [
  | inl missing ↦ rw (missing, get_order) refl
  | inr (order, found) ↦ elim (Bool-cases (order.user_id == u)) [
    | inl own ↦ rw (found, get_order, own) (with_owner-IsSound order s)
    | inr other ↦ rw (found, get_order, other) refl
  ]
]

pub find_order_by_id-IsSound :
    (id : String) (s : MemoryStore) → IsSound s (ended (find_order_by_id id s))
unfolding find_order_by_id
find_order_by_id-IsSound id s = elim (Option-cases (lookup id s.orders)) [
  | inl missing ↦ rw (missing, find_order_by_id) refl
  | inr (order, found) ↦ rw (found, find_order_by_id) (with_owner-IsSound order s)
]

pub get_refund_request-IsSound :
    (id : String) (s : MemoryStore) → IsSound s (ended (get_refund_request id s))
unfolding get_refund_request
get_refund_request-IsSound id s = elim (Option-cases (lookup id s.refund_requests)) [
  | inl missing ↦ rw (missing, get_refund_request) refl
  | inr (request, found) ↦
      let frame = ensure_user_identity_frame request.user_id s in
      rw (found, get_refund_request) (IsReconciled-frame s _ frame.0 frame.1)
]

pub mark_order_paid-IsSound :
    (t : Clock) (id provider external_id : String) (s : MemoryStore)
    → IsSound s (ended (mark_order_paid t id provider external_id s))
unfolding mark_order_paid
mark_order_paid-IsSound t id provider external_id s = elim (Option-cases (lookup id s.orders)) [
  | inl missing ↦ rw (missing, mark_order_paid) refl
  | inr (order, found) ↦ elim (Bool-cases (order.status == "paid")) [
    | inl paid ↦ rw (found, mark_order_paid, paid) (λ r. r)
    | inr unpaid ↦ rw (found, mark_order_paid, unpaid) (IsReconciled-frame s _ refl refl)
  ]
]
