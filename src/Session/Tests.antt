-- ===== src/Session/Tests.antt =====
-- The theorems on the session manager at concrete inputs.
use myagent_bot.Base.{String, ◌≡◌, refl, none, some, List, [], ◌∷◌}
use myagent_bot.Base.Int.{pos}
use myagent_bot.Base.Dict.{lookup, insert}
use myagent_bot.Session.{
  SessionManager, get_history, get_summary, truncate_history, truncate_session, add_full_message,
}
use myagent_bot.Session.Spec.{Call, adds, summarizes, truncates, run, conversation}
use myagent_bot.Session.Refinement.{messages_of, summary_of, run-reads}

-- Two conversations, of which one is cut down to its last message.
abbrev calls : List (Call String)
calls =
    adds 1 "a" "hi"
    ∷ adds 2 "b" "yo"
    ∷ adds 3 "a" "how"
    ∷ summarizes 4 "a" "short"
    ∷ truncates 5 "a" (pos 1)
    ∷ []

run-reads_example :
    (get_history "a" (run calls []) ≡ messages_of (conversation "a" calls none))
    × (get_summary "a" (run calls []) ≡ summary_of (conversation "a" calls none))
run-reads_example = run-reads calls "a"

conversation_test : conversation "a" calls none ≡ some ("how" ∷ [], "short")
unfolding conversation
conversation_test = refl

abbrev three : SessionManager String
three = add_full_message 3 "a" "z" (add_full_message 2 "a" "y" (add_full_message 1 "a" "x" []))

three_test : get_history "a" (truncate_history 4 "a" (pos 2) three) ≡ "y" ∷ "z" ∷ []
unfolding get_history truncate_history add_full_message lookup insert truncate_session
three_test = refl
