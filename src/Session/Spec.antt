-- ===== src/Session/Spec.antt =====
-- What the session manager of manager.go promises of one conversation: a list of messages and a
-- summary, which the calls for its key change, and no others do.
use text.Mathlib.Text.{◌==◌}
use myagent_bot.Base.{
  ℕ, ◌-◌, String, List, [], ◌∷◌, ◌++◌, Option, none, some, if◌then◌else◌, length, drop,
}
use myagent_bot.Base.Int.{ℤ, pos, negsuc}
use myagent_bot.Session.{
  SessionManager, get_or_create, add_full_message, set_summary, truncate_history, set_history,
}

-- A call of a method that changes the sessions, with the clock as it reads it.
pub data Call (M : Type 0) : Type 0 where
  gets_or_creates : ℕ → String → Call M
  adds : ℕ → String → M → Call M
  summarizes : ℕ → String → String → Call M
  truncates : ℕ → String → ℤ → Call M
  replaces : ℕ → String → List M → Call M

-- The messages and the summary of a session that there is.
abbrev pub Conversation : Type 0 → Type 0
Conversation M = Option (List M × String)

-- At most the last so many messages.
abbrev pub last_messages : {M : Type 0} → ℤ → List M → List M
last_messages (negsuc _) ms = []
last_messages (pos keep) ms = drop (length ms - keep) ms

module _ {M : Type 0} where
  unfoldable pub perform : Call M → SessionManager M → SessionManager M
  perform (gets_or_creates now key) sm = (get_or_create now key sm).1
  perform (adds now key msg) sm = add_full_message now key msg sm
  perform (summarizes now key summary) sm = set_summary now key summary sm
  perform (truncates now key keep_last) sm = truncate_history now key keep_last sm
  perform (replaces now key history) sm = set_history now key history sm

  unfoldable pub run : List (Call M) → SessionManager M → SessionManager M
  unfolding perform
  run [] sm = sm
  run (c ∷ cs) sm = run cs (perform c sm)

  abbrev pub key_of : Call M → String
  key_of (gets_or_creates now key) = key
  key_of (adds now key msg) = key
  key_of (summarizes now key summary) = key
  key_of (truncates now key keep_last) = key
  key_of (replaces now key history) = key

  -- What a call does to the conversation of its key.
  unfoldable pub change : Call M → Conversation M → Conversation M
  change (gets_or_creates now key) none = some ([], "")
  change (adds now key msg) none = some (msg ∷ [], "")
  change (summarizes now key summary) none = none
  change (truncates now key keep_last) none = none
  change (replaces now key history) none = none
  change (gets_or_creates now key) (some (ms, summary)) = some (ms, summary)
  change (adds now key msg) (some (ms, summary)) = some (ms ++ msg ∷ [], summary)
  change (summarizes now key new) (some (ms, summary)) = some (ms, new)
  change (truncates now key keep_last) (some (ms, summary)) =
      some (last_messages keep_last ms, summary)
  change (replaces now key history) (some (ms, summary)) = some (history, summary)

  -- A conversation under the calls for its key; the calls for other keys pass it by.
  unfoldable pub conversation : String → List (Call M) → Conversation M → Conversation M
  unfolding change
  conversation key [] c = c
  conversation key (call ∷ calls) c =
      conversation key calls (if key_of call == key then change call c else c)
