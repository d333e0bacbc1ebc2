-- ===== src/Platform/Ledger/Overdraft.antt =====
-- The overdraft guard of the operators' adjustments, memory_store.go, and what they leave in the store.
use text.Mathlib.Text.{◌==◌}
use text.Mathlib.TextPositions.{eq_refl}
use myagent_bot.Base.{
  ◌+◌, ◌≤◌, ◌≡◌, refl, sym, ap, ◌∙◌, subst, ◌≢◌, Bool, false, ◌||◌, ◌&&◌, ok, err, Bool-cases, inl,
  inr, arith, eq_iff,
}
use myagent_bot.Base.Int.{
  ℤ, pos_part, neg_part, one_part, pos, ◌≤ℤ◌, ◌<ℤ◌, ◌+ℤ◌, eqb_ℤ, ltb_ℤ, leb_ℤ, +ℤ_parts,
}
use myagent_bot.Base.Int64.{add64, neg64, IsInt64, min_int64, neg64_parts, add64_of_IsInt64}
use myagent_bot.Platform.Types.{WalletSummary, WalletTransaction, Clock}
use myagent_bot.Platform.Store.State.{MemoryStore, Outcome}
use myagent_bot.Platform.Store.Wallet.{adjust, overdraws, apply_wallet_adjustment, adjusted_wallet}
use myagent_bot.Platform.Store.Entries.{balance, Posts}
use myagent_bot.Platform.Ledger.Entry.{adjust-Posts}

-- The guard, on the two numbers that it reads.
abbrev short_of : ℤ → ℤ → Bool
short_of amount funds = ltb_ℤ amount (pos 0) && ltb_ℤ funds (neg64 amount)

covered_le :
    (amount funds : ℤ)
    → IsInt64 amount
    → amount ≢ min_int64
    → amount <ℤ pos 0
    → short_of amount funds ≡ false
    → neg_part amount + neg_part funds ≤ pos_part funds
covered_le amount funds ha hm neg g = ground (arith, neg64_parts amount ha hm)

covered_nonneg :
    (amount funds : ℤ)
    → IsInt64 funds
    → amount <ℤ pos 0
    → neg_part amount + neg_part funds ≤ pos_part funds
    → (add64 funds amount ≡ funds +ℤ amount) × (pos 0 ≤ℤ add64 funds amount)
covered_nonneg amount funds hf neg le =
    let e =
      add64_of_IsInt64 funds amount
        (omega (arith, +ℤ_parts funds amount, one_part (funds +ℤ amount))) in
    (e, rw e (omega (arith, +ℤ_parts funds amount)))

least_passes : (funds : ℤ) → IsInt64 funds → short_of min_int64 funds ≡ false
unfolding neg64
least_passes funds h = ground arith

least_flips :
    (funds : ℤ) → IsInt64 funds → ltb_ℤ (add64 funds min_int64) (pos 0) ≡ leb_ℤ (pos 0) funds
unfolding add64
least_flips funds h = ground arith

-- The call as it ends once its guards have passed.
adjustment_goes :
    (t : Clock) (tx : WalletTransaction) (s : MemoryStore)
    → (tx.user_id == "" || eqb_ℤ tx.amount_fen (pos 0)) ≡ false
    → overdraws tx s ≡ false
    → apply_wallet_adjustment t tx s ≡ (ok (adjusted_wallet t tx s), (adjust t tx s).1)
unfolding apply_wallet_adjustment adjust
adjustment_goes t tx s good covered = rw (good, apply_wallet_adjustment, covered) refl

-- The guard that a call which went through has passed, and the call as it ended.
adjustment_ok :
    (t : Clock) (tx : WalletTransaction) (s : MemoryStore) (w : WalletSummary)
    → (apply_wallet_adjustment t tx s).0 ≡ ok w
    → (overdraws tx s ≡ false)
      × (apply_wallet_adjustment t tx s ≡ (ok (adjusted_wallet t tx s), (adjust t tx s).1))
unfolding apply_wallet_adjustment
adjustment_ok t tx s w done = elim (Bool-cases (tx.user_id == "" || eqb_ℤ tx.amount_fen (pos 0))) [
  | inl bad ↦ let h = rw (bad, apply_wallet_adjustment) at done in cc
  | inr good ↦ elim (Bool-cases (overdraws tx s)) [
    | inl over ↦ let h = rw (good, apply_wallet_adjustment, over) at done in cc
    | inr covered ↦ (covered, adjustment_goes t tx s good covered)
  ]
]

-- An adjustment that goes through is one ledger entry, and its wallet is the one on record.
abbrev pub IsEntered : MemoryStore → WalletTransaction → Outcome WalletSummary → Type 0
IsEntered s tx (ok w, s') =
    Posts s tx.user_id tx.amount_fen s' × (w.balance_fen ≡ balance s' tx.user_id)
IsEntered s tx (err e, s') = ⊥

adjustment-IsEntered :
    (t : Clock) (tx : WalletTransaction) (s : MemoryStore)
    → IsEntered s tx (ok (adjusted_wallet t tx s), (adjust t tx s).1)
adjustment-IsEntered t tx s =
    let p = adjust-Posts t tx s in (p, ground (arith, p.balances tx.user_id, eq_refl tx.user_id))

-- A withdrawal by an operator that goes through, of an amount other than the least int64 and from a
-- balance that is an int64, is one ledger entry of that amount for the user, and leaves in the store
-- exactly the balance less what was withdrawn, which is not negative and is the one returned.
pub adjustment_nonneg :
    (t : Clock) (tx : WalletTransaction) (s : MemoryStore) (w : WalletSummary)
    → IsInt64 tx.amount_fen
    → tx.amount_fen ≢ min_int64
    → tx.amount_fen <ℤ pos 0
    → IsInt64 (balance s tx.user_id)
    → (apply_wallet_adjustment t tx s).0 ≡ ok w
    → let o = apply_wallet_adjustment t tx s in
      IsEntered s tx o
      × (balance o.1 tx.user_id ≡ balance s tx.user_id +ℤ tx.amount_fen)
      × (pos 0 ≤ℤ balance o.1 tx.user_id)
unfolding overdraws
adjustment_nonneg t tx s w ha hm neg hf done =
    let (covered, e) = adjustment_ok t tx s w done in
    let entered = adjustment-IsEntered t tx s in
    let sum =
      covered_nonneg tx.amount_fen (balance s tx.user_id) hf neg
        (covered_le tx.amount_fen (balance s tx.user_id) ha hm neg covered) in
    let left : balance (adjust t tx s).1 tx.user_id ≡ add64 (balance s tx.user_id) tx.amount_fen =
      ground (arith, entered.0.balances tx.user_id, eq_refl tx.user_id) in
    rw e (entered, left ∙ sum.0, subst (λ b. pos 0 ≤ℤ b) (sym left) sum.1)

-- For the least int64 the overdraft guard compares with the opposite of that amount, which is that
-- amount itself: every withdrawal of it for a user with an id, whose balance is an int64, goes
-- through as one ledger entry, and the balance that it leaves in the store is below zero exactly
-- where the balance before was not.
pub adjustment_min_int64 :
    (t : Clock) (tx : WalletTransaction) (s : MemoryStore)
    → tx.user_id ≢ ""
    → tx.amount_fen ≡ min_int64
    → IsInt64 (balance s tx.user_id)
    → let o = apply_wallet_adjustment t tx s in
      IsEntered s tx o
      × (ltb_ℤ (balance o.1 tx.user_id) (pos 0) ≡ leb_ℤ (pos 0) (balance s tx.user_id))
unfolding overdraws
adjustment_min_int64 t tx s user least hf =
    let entered = adjustment-IsEntered t tx s in
    let left : balance (adjust t tx s).1 tx.user_id ≡ add64 (balance s tx.user_id) min_int64 =
      ground (arith, entered.0.balances tx.user_id, eq_refl tx.user_id, least) in
    rw
      (adjustment_goes t tx s (ground (arith, eq_iff tx.user_id ""))
        (rw least (least_passes (balance s tx.user_id) hf)))
      (entered, ap (λ b. ltb_ℤ b (pos 0)) left ∙ least_flips (balance s tx.user_id) hf)
