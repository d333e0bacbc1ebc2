-- ===== src/Platform/Store/Users.antt =====
-- The user numbers that `MemoryStore` hands out on first sight of a user.
use text.Mathlib.Text.{◌==◌}
use myagent_bot.Base.{String, none, some, if◌then◌else◌}
use myagent_bot.Base.Dict.{lookup, insert}
use myagent_bot.Base.Int.{ℤ, pos, eqb_ℤ}
use myagent_bot.Base.Int64.{add64}
use myagent_bot.Base.Text.{trim_space}
use myagent_bot.Platform.Types.{UserIdentity}
use myagent_bot.Platform.Store.State.{MemoryStore}

-- `nextUserNumberLocked`
unfoldable pub next_user_number : MemoryStore → ℤ × MemoryStore
next_user_number s = let n = add64 s.next_user_no (pos 1) in (n, record s { next_user_no = n })

abbrev pub zero_identity : UserIdentity
zero_identity = record {
  user_id = "";
  user_no = pos 0;
  username = "";
  email = "";
  created_unix = pos 0;
  updated_unix = pos 0;
  last_seen_unix = pos 0;
}

-- A known identity whose number is still missing gets one.
unfoldable pub number_identity : UserIdentity → String → MemoryStore → UserIdentity × MemoryStore
unfolding next_user_number
number_identity identity user_id s =
    let (n, s') = next_user_number s in
    let numbered = record identity { user_no = n } in
    if eqb_ℤ identity.user_no (pos 0)
    then (numbered, record s' { users = insert user_id numbered s'.users })
    else (identity, s)

-- `ensureUserIdentityLocked`
unfoldable pub ensure_user_identity : String → MemoryStore → UserIdentity × MemoryStore
unfolding number_identity next_user_number
ensure_user_identity raw s =
    let user_id = trim_space raw in
    let (n, s') = next_user_number s in
    let identity = record zero_identity { user_id = user_id; user_no = n } in
    if user_id == "" then (zero_identity, s) else elim (lookup user_id s.users) [
      | some known ↦ number_identity known user_id s
      | none ↦ (identity, record s' { users = insert user_id identity s'.users })
    ]
