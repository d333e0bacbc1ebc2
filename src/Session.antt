-- ===== src/Session.antt =====
-- The session manager, PinchBot/pkg/session/manager.go: the sessions in memory. The lock makes a
-- method one step. `now` is the clock as the call reads it, in nanoseconds; a message is any type.
pub mod Spec
pub mod Refinement
pub mod Truncate
mod Tests
use myagent_bot.Base.{
  ℕ, ◌-◌, leb, String, List, [], ◌∷◌, ◌++◌, Option, none, some, if◌then◌else◌, length, drop,
}
use myagent_bot.Base.Int.{ℤ, pos, negsuc}
use myagent_bot.Base.Dict.{Dict, lookup, insert, lookup_or}

-- `created` and `updated` are none for the zero time.
pub record Session (M : Type 0) : Type 0 where
  pub key : String
  pub messages : List M
  pub summary : String
  pub created : Option ℕ
  pub updated : Option ℕ

-- The field `sessions`.
abbrev pub SessionManager : Type 0 → Type 0
SessionManager M = Dict (Session M)

module _ {M : Type 0} where
  -- A session as `AddFullMessage` makes one; `GetOrCreate` sets `Updated` too.
  abbrev pub new_session : ℕ → String → Session M
  new_session now key = record {
    key = key;
    messages = [];
    summary = "";
    created = some now;
    updated = none;
  }

  -- `GetOrCreate`
  unfoldable pub get_or_create : ℕ → String → SessionManager M → Session M × SessionManager M
  get_or_create now key sm = elim (lookup key sm) [
    | some session ↦ (session, sm)
    | none ↦
        let session = record (new_session now key) { updated = some now } in
        (session, insert key session sm)
  ]

  -- `AddFullMessage`; `AddMessage` is a call of it with a message of a role and a text.
  unfoldable pub add_full_message : ℕ → String → M → SessionManager M → SessionManager M
  add_full_message now key msg sm =
      let session = lookup_or (new_session now key) key sm in
      let longer = record session { messages = session.messages ++ msg ∷ []; updated = some now } in
      insert key longer sm

  -- `GetHistory`
  unfoldable pub get_history : String → SessionManager M → List M
  get_history key sm = elim (lookup key sm) [ none ↦ [] | some session ↦ session.messages ]

  -- `GetSummary`
  unfoldable pub get_summary : String → SessionManager M → String
  get_summary key sm = elim (lookup key sm) [ none ↦ "" | some session ↦ session.summary ]

  -- `SetSummary`
  unfoldable pub set_summary : ℕ → String → String → SessionManager M → SessionManager M
  set_summary now key summary sm = elim (lookup key sm) [
    | none ↦ sm
    | some session ↦ insert key (record session { summary = summary; updated = some now }) sm
  ]

  -- `TruncateHistory`, by the sign of `keepLast`
  unfoldable pub truncate_session : ℕ → ℤ → Session M → Session M
  truncate_session now (negsuc _) session = record session { messages = []; updated = some now }
  truncate_session now (pos keep_last) session =
      if leb keep_last 0
      then record session { messages = []; updated = some now }
      else if leb (length session.messages) keep_last
      then session
      else record session {
        messages = drop (length session.messages - keep_last) session.messages;
        updated = some now;
      }

  unfoldable pub truncate_history : ℕ → String → ℤ → SessionManager M → SessionManager M
  truncate_history now key keep_last sm = elim (lookup key sm) [
    | none ↦ sm
    | some session ↦ insert key (truncate_session now keep_last session) sm
  ]

  -- `SetHistory`; values have no aliases, so the copy is the list itself.
  unfoldable pub set_history : ℕ → String → List M → SessionManager M → SessionManager M
  set_history now key history sm = elim (lookup key sm) [
    | none ↦ sm
    | some session ↦ insert key (record session { messages = history; updated = some now }) sm
  ]
