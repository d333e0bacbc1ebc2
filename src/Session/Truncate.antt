-- ===== src/Session/Truncate.antt =====
-- What `TruncateHistory` of manager.go leaves, by way of the specification.
use myagent_bot.Base.{
  ℕ, zero, suc, none, sym, ◌-◌, String, ◌≡◌, refl, ap, ◌∙◌, [], ◌++◌, some, length, min, take, drop,
  length-drop, take-append-drop, arith,
}
use myagent_bot.Base.Int.{ℤ, pos, negsuc}
use myagent_bot.Session.{SessionManager, get_history, truncate_history}
use myagent_bot.Session.Spec.{truncates, last_messages, change, perform, Conversation}
use myagent_bot.Session.Refinement.{messages_of, view, own-change, reads-view}

module _ {M : Type 0} where
  last_of_none : (keep : ℤ) → last_messages {M = M} keep [] ≡ []
  last_of_none (negsuc n) = refl
  last_of_none (pos keep) = drop_none (0 - keep)
    where
      drop_none : (n : ℕ) → drop {A = M} n [] ≡ []
      drop_none zero = refl
      drop_none (suc n) = refl

  truncates_messages :
      (now : ℕ) (key : String) (keep : ℤ) (c : Conversation M)
      → messages_of (change (truncates now key keep) c) ≡ last_messages keep (messages_of c)
  unfolding change
  truncates_messages now key keep none = sym (last_of_none keep)
  truncates_messages now key keep (some (ms, summary)) = refl

  truncated :
      (now : ℕ) (key : String) (keep : ℤ) (sm : SessionManager M)
      → get_history key (truncate_history now key keep sm) ≡ last_messages keep (get_history key sm)
  unfolding perform
  truncated now key keep sm =
      (reads-view key (truncate_history now key keep sm)).0
      ∙ ap messages_of (own-change (truncates now key keep) sm)
      ∙ truncates_messages now key keep (view key sm)
      ∙ ap (last_messages keep) (sym (reads-view key sm).0)

  -- A truncation to a number that is not negative leaves that many messages, or all where there
  -- are fewer, and what it leaves is the end of the history before it.
  pub truncate_keeps_last :
      (now : ℕ) (key : String) (keep : ℕ) (sm : SessionManager M)
      → (length (get_history key (truncate_history now key (pos keep) sm))
          ≡ min keep (length (get_history key sm)))
        × (take (length (get_history key sm) - keep) (get_history key sm)
              ++ get_history key (truncate_history now key (pos keep) sm)
            ≡ get_history key sm)
  truncate_keeps_last now key keep sm =
      let old = get_history key sm in
      let e = truncated now key (pos keep) sm in
      (
        ap length e ∙ length-drop (length old - keep) old ∙ ground arith,
        ap (λ new. take (length old - keep) old ++ new) e
            ∙ take-append-drop (length old - keep) old,
      )
