-- ===== src/Session/Refinement.antt =====
-- The session manager of manager.go keeps each conversation as its specification says.
use text.Mathlib.Text.{◌==◌}
use text.Mathlib.TextPositions.{eq_refl}
use myagent_bot.Base.{
  ℕ, zero, suc, ◌-◌, leb, String, ◌≡◌, refl, ap, sym, ◌∙◌, subst, drop_all, false, List, [], ◌∷◌,
  ◌++◌, Option, none, some, if◌then◌else◌, length, drop, Option-cases, Bool-cases, inl, inr, arith,
  eq_iff,
}
use myagent_bot.Base.Int.{ℤ, pos, negsuc}
use myagent_bot.Base.Dict.{lookup, lookup_or, insert, lookup-insert}
use myagent_bot.Session.{
  Session, SessionManager, new_session, get_or_create, add_full_message, get_history, get_summary,
  set_summary, truncate_session, truncate_history, set_history,
}
use myagent_bot.Session.Spec.{
  Call, gets_or_creates, adds, summarizes, truncates, replaces, Conversation, last_messages,
  perform, run, key_of, change, conversation,
}

module _ {M : Type 0} where
  abbrev pub conversation_of : Option (Session M) → Conversation M
  conversation_of none = none
  conversation_of (some s) = some (s.messages, s.summary)

  -- The conversation that the manager has for a key.
  abbrev pub view : String → SessionManager M → Conversation M
  view key sm = conversation_of (lookup key sm)

  truncate_session_view :
      (now : ℕ) (keep : ℤ) (s : Session M)
      → conversation_of (some (truncate_session now keep s))
        ≡ some (last_messages keep s.messages, s.summary)
  unfolding truncate_session
  truncate_session_view now (negsuc n) s = refl
  truncate_session_view now (pos zero) s =
      ap (λ ms. some (ms, s.summary))
        (sym (subst (λ n. drop n s.messages ≡ []) (omega arith) (drop_all s.messages)))
  truncate_session_view now (pos (suc n)) s =
      let some_left : leb (suc n) 0 ≡ false = ground arith in
      elim (Bool-cases (leb (length s.messages) (suc n))) [
        | inl short ↦
            let whole : length s.messages - suc n ≡ 0 = ground arith in
            rw (truncate_session, some_left, short)
              (ap (λ k. some (drop k s.messages, s.summary)) (sym whole))
        | inr long ↦ rw (truncate_session, some_left, long) refl
      ]

  view-other :
      (j key : String) (s : Session M) (sm : SessionManager M)
      → (j == key) ≡ false
      → view key (insert j s sm) ≡ view key sm
  view-other j key s sm apart = ground (arith, lookup-insert j key s sm, apart)

  view-own :
      (j : String) (s : Session M) (sm : SessionManager M)
      → view j (insert j s sm) ≡ conversation_of (some s)
  view-own j s sm = simp (lookup-insert, eq_refl)

  -- A call changes the conversation of its key as specified.
  pub own-change :
      (c : Call M) (sm : SessionManager M)
      → view (key_of c) (perform c sm) ≡ change c (view (key_of c) sm)
  unfolding perform change get_or_create add_full_message set_summary truncate_history set_history
  own-change (gets_or_creates now j) sm = elim (Option-cases (lookup j sm)) [
    | inl new ↦ rw (perform, get_or_create, new) (view-own j _ sm)
    | inr (s, known) ↦ rw (perform, get_or_create, known) (rw known refl)
  ]
  own-change (adds now j msg) sm =
      let added : Session M → Conversation M = λ s. some (s.messages ++ msg ∷ [], s.summary) in
      elim (Option-cases (lookup j sm)) [
        | inl new ↦
            let from : lookup_or (new_session now j) j sm ≡ new_session now j =
              ground (arith, new) in
            let none_yet : view j sm ≡ none = rw new refl in
            view-own j _ sm ∙ ap added from ∙ sym (ap (change (adds now j msg)) none_yet)
        | inr (s, known) ↦
            let from : lookup_or (new_session now j) j sm ≡ s = ground (arith, known) in
            let before : view j sm ≡ conversation_of (some s) = rw known refl in
            view-own j _ sm ∙ ap added from ∙ sym (ap (change (adds now j msg)) before)
      ]
  own-change (summarizes now j summary) sm = elim (Option-cases (lookup j sm)) [
    | inl new ↦ rw (new, set_summary) (rw new refl)
    | inr (s, known) ↦ rw (known, set_summary) (view-own j _ sm)
  ]
  own-change (truncates now j keep) sm = elim (Option-cases (lookup j sm)) [
    | inl new ↦ rw (new, truncate_history) (rw new refl)
    | inr (s, known) ↦
        rw (known, truncate_history) (view-own j _ sm ∙ truncate_session_view now keep s)
  ]
  own-change (replaces now j history) sm = elim (Option-cases (lookup j sm)) [
    | inl new ↦ rw (new, set_history) (rw new refl)
    | inr (s, known) ↦ rw (known, set_history) (view-own j _ sm)
  ]

  -- A call leaves the conversations of all other keys as they are.
  other-change :
      (c : Call M) (key : String) (sm : SessionManager M)
      → (key_of c == key) ≡ false
      → view key (perform c sm) ≡ view key sm
  unfolding perform get_or_create add_full_message set_summary truncate_history set_history
  other-change (gets_or_creates now j) key sm apart = elim (Option-cases (lookup j sm)) [
    | inl new ↦ rw (perform, get_or_create, new) (view-other j key _ sm apart)
    | inr (s, known) ↦ rw (perform, get_or_create, known) refl
  ]
  other-change (adds now j msg) key sm apart = view-other j key _ sm apart
  other-change (summarizes now j summary) key sm apart = elim (Option-cases (lookup j sm)) [
    | inl new ↦ rw (new, set_summary) refl
    | inr (s, known) ↦ rw (known, set_summary) (view-other j key _ sm apart)
  ]
  other-change (truncates now j keep) key sm apart = elim (Option-cases (lookup j sm)) [
    | inl new ↦ rw (new, truncate_history) refl
    | inr (s, known) ↦ rw (known, truncate_history) (view-other j key _ sm apart)
  ]
  other-change (replaces now j history) key sm apart = elim (Option-cases (lookup j sm)) [
    | inl new ↦ rw (new, set_history) refl
    | inr (s, known) ↦ rw (known, set_history) (view-other j key _ sm apart)
  ]

  perform-change :
      (c : Call M) (key : String) (sm : SessionManager M)
      → view key (perform c sm) ≡ (if key_of c == key then change c (view key sm) else view key sm)
  perform-change c key sm = elim (Bool-cases (key_of c == key)) [
    | inl same ↦
        let e = (eq_iff (key_of c) key).0 same in
        rw same (subst (λ k. view k (perform c sm) ≡ change c (view k sm)) e (own-change c sm))
    | inr apart ↦ rw apart (other-change c key sm apart)
  ]

  -- After any history of calls, the history and the summary of each key are those of its
  -- conversation under the calls for that key alone.
  pub run-conversation :
      (cs : List (Call M)) (key : String) (sm : SessionManager M)
      → view key (run cs sm) ≡ conversation key cs (view key sm)
  unfolding run conversation
  run-conversation [] key sm = refl
  run-conversation (c ∷ cs) key sm =
      run-conversation cs key (perform c sm) ∙ ap (conversation key cs) (perform-change c key sm)

  abbrev pub messages_of : Conversation M → List M
  messages_of none = []
  messages_of (some (ms, _)) = ms

  abbrev pub summary_of : Conversation M → String
  summary_of none = ""
  summary_of (some (_, summary)) = summary

  pub reads-view :
      (key : String) (sm : SessionManager M)
      → (get_history key sm ≡ messages_of (view key sm))
        × (get_summary key sm ≡ summary_of (view key sm))
  unfolding get_history get_summary
  reads-view key sm = elim (Option-cases (lookup key sm)) [
    | inl new ↦ (rw (new, get_history) refl, rw (new, get_summary) refl)
    | inr (s, known) ↦ (rw (known, get_history) refl, rw (known, get_summary) refl)
  ]

  -- After any calls from an empty manager, the history and the summary that are read for a key are
  -- those of the specified conversation, which only the calls for this key change.
  pub run-reads :
      (cs : List (Call M)) (key : String)
      → (get_history key (run cs []) ≡ messages_of (conversation key cs none))
        × (get_summary key (run cs []) ≡ summary_of (conversation key cs none))
  unfolding lookup
  run-reads cs key =
      let e = run-conversation cs key [] in
      let reads = reads-view key (run cs []) in
      (reads.0 ∙ ap messages_of e, reads.1 ∙ ap summary_of e)
