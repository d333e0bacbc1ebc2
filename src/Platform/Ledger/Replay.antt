-- ===== src/Platform/Ledger/Replay.antt =====
-- The idempotency keys of `ApplyAdminWalletMutation`, memory_store.go.
use text.Mathlib.Text.{◌==◌}
use text.Mathlib.TextPositions.{eq_refl}
use myagent_bot.Base.{
  String, ◌≡◌, refl, sym, ap, ◌∙◌, ◌≢◌, true, false, ◌||◌, ok, err, none, some, Bool-cases, inl,
  inr, Option-cases, arith, if◌then◌else◌, eq_iff,
}
use myagent_bot.Base.Dict.{lookup, lookup-insert}
use myagent_bot.Base.Int.{pos, eqb_ℤ}
use myagent_bot.Platform.Types.{
  WalletSummary, WalletTransaction, AdminAuditLog, Clock, idempotency_conflict,
}
use myagent_bot.Platform.Store.State.{
  MemoryStore, wallet_of, append_transaction, wallet_mutation_reference_key,
  wallet_mutation_matches,
}
use myagent_bot.Platform.Store.Wallet.{
  adjust, overdraws, append_audit_log, apply_admin_wallet_mutation, with_currency,
  filled_transaction, adjusted_wallet, filled_audit,
}

abbrev key_of : WalletTransaction → String
key_of tx = wallet_mutation_reference_key tx.reference_type tx.reference_id

-- The guards that a mutation passed, when it went through as a new one.
record IsFresh (t : Clock) (tx : WalletTransaction) (s : MemoryStore) : Type 0 where
  valid : (tx.user_id == "" || eqb_ℤ tx.amount_fen (pos 0)) ≡ false
  keyed : (key_of tx == "") ≡ false
  new : lookup (key_of tx) s.transaction_refs ≡ none
  covered : overdraws tx s ≡ false

-- The state that a new mutation leaves, but for the audit log.
abbrev mutated : Clock → WalletTransaction → MemoryStore → MemoryStore
mutated t tx s = (adjust t tx s).1

IsFresh-of_ok :
    (t : Clock) (tx : WalletTransaction) (audit : AdminAuditLog) (s : MemoryStore)
    (w : WalletSummary)
    → (apply_admin_wallet_mutation t tx audit s).0 ≡ ok (w, false)
    → IsFresh t tx s
unfolding apply_admin_wallet_mutation
IsFresh-of_ok t tx audit s w h =
    elim (Bool-cases (tx.user_id == "" || eqb_ℤ tx.amount_fen (pos 0))) [
      | inl bad ↦ let h' = rw (bad, apply_admin_wallet_mutation) at h in cc
      | inr valid ↦ elim (Bool-cases (key_of tx == "")) [
        | inl blank ↦ let h' = rw (valid, apply_admin_wallet_mutation, blank) at h in cc
        | inr keyed ↦ elim (Option-cases (lookup (key_of tx) s.transaction_refs)) [
          | inr (e, seen) ↦ elim (Bool-cases (wallet_mutation_matches e tx)) [
            | inl same ↦
                let h' = rw (valid, apply_admin_wallet_mutation, keyed, seen, same) at h in cc
            | inr differs ↦
                let h' = rw (valid, apply_admin_wallet_mutation, keyed, seen, differs) at h in cc
          ]
          | inl new ↦ elim (Bool-cases (overdraws tx s)) [
            | inl over ↦
                let h' = rw (valid, apply_admin_wallet_mutation, keyed, new, over) at h in cc
            | inr covered ↦ record { valid = valid; keyed = keyed; new = new; covered = covered }
          ]
        ]
      ]
    ]

adjust_refs :
    (t : Clock) (tx : WalletTransaction) (s : MemoryStore)
    → (key_of tx == "") ≡ false
    → lookup (key_of tx) (adjust t tx s).1.transaction_refs ≡ some (filled_transaction t tx)
unfolding adjust append_transaction
adjust_refs t tx s keyed = rw keyed (simp (lookup-insert, eq_refl))

filled_transaction_matches :
    (t : Clock) (tx : WalletTransaction)
    → tx.kind ≢ ""
    → wallet_mutation_matches (filled_transaction t tx) tx ≡ true
unfolding wallet_mutation_matches
filled_transaction_matches t tx k = elim (Bool-cases (tx.kind == "")) [
  | inl blank ↦ absurd (k ((eq_iff tx.kind "").0 blank))
  | inr kind ↦ rw kind (simp eq_refl (ground arith))
]

filled_transaction_differs :
    (t : Clock) (tx tx' : WalletTransaction)
    → tx'.amount_fen ≢ tx.amount_fen
    → wallet_mutation_matches (filled_transaction t tx) tx' ≡ false
unfolding wallet_mutation_matches
filled_transaction_differs t tx tx' d = ground arith

adjust_wallet :
    (t : Clock) (tx : WalletTransaction) (s : MemoryStore)
    → wallet_of (adjust t tx s).1 tx.user_id ≡ adjusted_wallet t tx s
unfolding adjust append_transaction wallet_of
adjust_wallet t tx s = ground (
  arith,
  lookup-insert tx.user_id tx.user_id (adjusted_wallet t tx s) s.wallets,
  eq_refl tx.user_id,
)

fresh_lem :
    (t : Clock) (tx : WalletTransaction) (audit : AdminAuditLog) (s : MemoryStore)
    → IsFresh t tx s
    → apply_admin_wallet_mutation t tx audit s
      ≡ (ok ((adjust t tx s).0, false), append_audit_log (filled_audit t audit) (adjust t tx s).1)
unfolding apply_admin_wallet_mutation
fresh_lem t tx audit s f = rw (f.valid, apply_admin_wallet_mutation, f.keyed, f.new, f.covered) refl

-- A request whose reference is already on record, for a valid transaction.
seen_lem :
    (t : Clock) (tx existing : WalletTransaction) (audit : AdminAuditLog) (s : MemoryStore)
    → (tx.user_id == "" || eqb_ℤ tx.amount_fen (pos 0)) ≡ false
    → (key_of tx == "") ≡ false
    → lookup (key_of tx) s.transaction_refs ≡ some existing
    → apply_admin_wallet_mutation t tx audit s ≡ (
        if wallet_mutation_matches existing tx
        then (ok (with_currency (wallet_of s existing.user_id), true), s)
        else (err idempotency_conflict, s))
unfolding apply_admin_wallet_mutation
seen_lem t tx existing audit s valid keyed seen =
    rw (valid, apply_admin_wallet_mutation, keyed, seen) refl

with_currency_adjusted :
    (t : Clock) (tx : WalletTransaction) (s : MemoryStore)
    → with_currency (adjusted_wallet t tx s) ≡ adjusted_wallet t tx s
with_currency_adjusted t tx s = ground (arith, eq_iff "CNY" "")

fresh_wallet_eq :
    (t : Clock) (tx : WalletTransaction) (audit : AdminAuditLog) (s : MemoryStore)
    (w : WalletSummary)
    → IsFresh t tx s
    → (apply_admin_wallet_mutation t tx audit s).0 ≡ ok (w, false)
    → w ≡ adjusted_wallet t tx s
unfolding adjust
fresh_wallet_eq t tx audit s w f done = cc (ap (λ o. o.0) (fresh_lem t tx audit s f))

-- What a mutation that went through leaves: its transaction on record, and the wallet it returned.
record IsDone (t : Clock) (tx : WalletTransaction) (w : WalletSummary) (s' : MemoryStore)
    : Type 0 where
  refs : lookup (key_of tx) s'.transaction_refs ≡ some (filled_transaction t tx)
  wallet : with_currency (wallet_of s' tx.user_id) ≡ w

IsDone-of_ok :
    (t : Clock) (tx : WalletTransaction) (audit : AdminAuditLog) (s : MemoryStore)
    (w : WalletSummary)
    → IsFresh t tx s
    → (apply_admin_wallet_mutation t tx audit s).0 ≡ ok (w, false)
    → IsDone t tx w (apply_admin_wallet_mutation t tx audit s).1
unfolding append_audit_log wallet_of
IsDone-of_ok t tx audit s w f done = rw (fresh_lem t tx audit s f) (record {
  refs = adjust_refs t tx s f.keyed;
  wallet =
      ap with_currency (adjust_wallet t tx s)
      ∙ with_currency_adjusted t tx s
      ∙ sym (fresh_wallet_eq t tx audit s w f done);
})

-- A mutation that went through, with a kind on its transaction, can be sent again at any later
-- reading of the clock: it is answered with the same wallet, as a replay, and changes nothing.
pub mutation_replay :
    (t t' : Clock) (tx : WalletTransaction) (audit audit' : AdminAuditLog) (s : MemoryStore)
    (w : WalletSummary)
    → tx.kind ≢ ""
    → (apply_admin_wallet_mutation t tx audit s).0 ≡ ok (w, false)
    → let s' = (apply_admin_wallet_mutation t tx audit s).1 in
      apply_admin_wallet_mutation t' tx audit' s' ≡ (ok (w, true), s')
mutation_replay t t' tx audit audit' s w kind done =
    let f = IsFresh-of_ok t tx audit s w done in
    let s' = (apply_admin_wallet_mutation t tx audit s).1 in
    let d = IsDone-of_ok t tx audit s w f done in
    seen_lem t' tx (filled_transaction t tx) audit' s' f.valid f.keyed d.refs
    ∙ rw (filled_transaction_matches t tx kind, d.wallet) refl

-- After a mutation went through, one with the same reference and another amount is refused, and
-- changes nothing.
pub mutation_conflict :
    (t t' : Clock) (tx tx' : WalletTransaction) (audit audit' : AdminAuditLog) (s : MemoryStore)
    (w : WalletSummary)
    → (apply_admin_wallet_mutation t tx audit s).0 ≡ ok (w, false)
    → tx'.user_id ≢ ""
    → tx'.amount_fen ≢ pos 0
    → tx'.amount_fen ≢ tx.amount_fen
    → key_of tx' ≡ key_of tx
    → let s' = (apply_admin_wallet_mutation t tx audit s).1 in
      apply_admin_wallet_mutation t' tx' audit' s' ≡ (err idempotency_conflict, s')
mutation_conflict t t' tx tx' audit audit' s w done user amount differs same =
    let f = IsFresh-of_ok t tx audit s w done in
    let s' = (apply_admin_wallet_mutation t tx audit s).1 in
    let d = IsDone-of_ok t tx audit s w f done in
    seen_lem t' tx' (filled_transaction t tx) audit' s' (ground (arith, eq_iff tx'.user_id ""))
      (rw same f.keyed) (rw same d.refs)
    ∙ rw (filled_transaction_differs t tx tx' differs) refl
