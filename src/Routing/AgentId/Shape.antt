-- ===== src/Routing/AgentId/Shape.antt =====
-- The form of the ids that `NormalizeAgentID` of agent_id.go returns.
use Prim.Native.Char.{Char}
use text.Mathlib.Text.{◌==◌ as str_eq}
use myagent_bot.Base.{
  ℕ, zero, suc, ◌≤◌, String, Bool, true, false, ◌&&◌, ◌≡◌, ◌≢◌, ◌⊎◌, inl, inr, refl, ltb,
  if◌then◌else◌, Bool-cases, arith, eq_iff, true≢false, sym, ap, ◌∙◌,
}
use myagent_bot.Base.Text.{trim_space, to_lower, all_chars, count, has_prefix}
use myagent_bot.Routing.AgentId.{
  is_id_start, is_dash, is_id_char, is_valid_id, dash_runs, strip_leading_dashes,
  strip_trailing_dashes, first_chars, sanitized, normalize_agent_id, default_agent_id,
  max_agent_id_length,
}

-- no character but those of ids, and no dash at the front
abbrev starts_dashed : String → Bool
starts_dashed String.[] = false
starts_dashed (String.◌∷◌ c s) = is_dash c

is_id_char-dash : is_id_char "-" ≡ true
unfolding is_id_char
is_id_char-dash = refl

all-dash_runs : (inside : Bool) (s : String) → all_chars is_id_char (dash_runs inside s) ≡ true
unfolding dash_runs all_chars
all-dash_runs inside String.[] = refl
all-dash_runs inside (String.◌∷◌ c s) =
    ground (arith, all-dash_runs true s, all-dash_runs false s, is_id_char-dash)

all-strip_leading :
    (p : Char → Bool) (s : String)
    → all_chars p s ≡ true
    → all_chars p (strip_leading_dashes s) ≡ true
unfolding strip_leading_dashes all_chars
all-strip_leading p String.[] h = h
all-strip_leading p (String.◌∷◌ c s) h = ground (arith, all-strip_leading p s)

all-strip_trailing :
    (p : Char → Bool) (s : String)
    → all_chars p s ≡ true
    → all_chars p (strip_trailing_dashes s) ≡ true
unfolding strip_trailing_dashes all_chars
all-strip_trailing p String.[] h = h
all-strip_trailing p (String.◌∷◌ c s) h =
    elim (Bool-cases (is_dash c && str_eq (strip_trailing_dashes s) "")) [
      | inl blank ↦ rw blank refl
      | inr kept ↦ rw kept (unfold all_chars in ground (arith, all-strip_trailing p s))
    ]

all-first_chars :
    (p : Char → Bool) (n : ℕ) (s : String)
    → all_chars p s ≡ true
    → all_chars p (first_chars n s) ≡ true
unfolding first_chars all_chars
all-first_chars p zero s h = refl
all-first_chars p (suc n) String.[] h = h
all-first_chars p (suc n) (String.◌∷◌ c s) h = ground (arith, all-first_chars p n s)

count-first_chars : (n : ℕ) (s : String) → count (first_chars n s) ≤ n
unfolding first_chars count
count-first_chars zero s = ground arith
count-first_chars (suc n) String.[] = ground arith
count-first_chars (suc n) (String.◌∷◌ c s) = ground (arith, count-first_chars n s)

undashed-strip_leading : (s : String) → starts_dashed (strip_leading_dashes s) ≡ false
unfolding strip_leading_dashes
undashed-strip_leading String.[] = refl
undashed-strip_leading (String.◌∷◌ c s) = ground (arith, undashed-strip_leading s)

undashed-strip_trailing :
    (s : String) → starts_dashed s ≡ false → starts_dashed (strip_trailing_dashes s) ≡ false
unfolding strip_trailing_dashes
undashed-strip_trailing String.[] h = refl
undashed-strip_trailing (String.◌∷◌ c s) h = ground arith

undashed-first_chars :
    (n : ℕ) (s : String) → starts_dashed s ≡ false → starts_dashed (first_chars n s) ≡ false
unfolding first_chars
undashed-first_chars zero s h = refl
undashed-first_chars (suc n) String.[] h = refl
undashed-first_chars (suc n) (String.◌∷◌ c s) h = h

all-valid : (s : String) → is_valid_id s ≡ true → all_chars is_id_char s ≡ true
unfolding is_valid_id all_chars is_id_char
all-valid String.[] h = refl
all-valid (String.◌∷◌ c s) h = ground arith

count-valid : (s : String) → is_valid_id s ≡ true → count s ≤ max_agent_id_length
unfolding is_valid_id count
count-valid String.[] h = ground arith
count-valid (String.◌∷◌ c s) h = ground arith

-- The form of an id that may stand in a session key.
abbrev pub IsAgentId : String → Type 0
IsAgentId s =
    (s ≢ "")
    × (all_chars is_id_char s ≡ true)
    × (count s ≤ max_agent_id_length)
    × ((is_valid_id s ≡ true) ⊎ (has_prefix s "_" ≡ true))

-- characters of ids, as many as are allowed, and no dash at the front
valid_or_underscore :
    (s : String)
    → s ≢ ""
    → all_chars is_id_char s ≡ true
    → count s ≤ max_agent_id_length
    → starts_dashed s ≡ false
    → (is_valid_id s ≡ true) ⊎ (has_prefix s "_" ≡ true)
unfolding is_valid_id all_chars is_id_char count has_prefix
valid_or_underscore String.[] n h k d = absurd (n refl)
valid_or_underscore (String.◌∷◌ c s) n h k d = ground arith

pub valid-IsAgentId : (s : String) → is_valid_id s ≡ true → IsAgentId s
valid-IsAgentId s h = (filled s h, all-valid s h, count-valid s h, inl h)
  where
    filled : (s : String) → is_valid_id s ≡ true → s ≢ ""
    filled s h e = true≢false (sym h ∙ ap is_valid_id e ∙ unfold is_valid_id in refl)

sanitized-IsAgentId :
    (fallback lower : String) → is_valid_id fallback ≡ true → IsAgentId (sanitized fallback lower)
unfolding sanitized
sanitized-IsAgentId fallback lower h =
    elim (Bool-cases (ltb max_agent_id_length (count (stripped lower)))) [
      | inl long ↦ rw long (
          kept (first_chars max_agent_id_length (stripped lower))
            (all-first_chars is_id_char max_agent_id_length (stripped lower) (clean lower))
            (count-first_chars max_agent_id_length (stripped lower))
            (undashed-first_chars max_agent_id_length (stripped lower) (undashed lower)))
      | inr short ↦ rw short (kept (stripped lower) (clean lower) (ground arith) (undashed lower))
    ]
  where
    stripped : String → String
    stripped s = strip_trailing_dashes (strip_leading_dashes (dash_runs false s))

    clean : (s : String) → all_chars is_id_char (stripped s) ≡ true
    clean s =
        all-strip_trailing is_id_char _ (all-strip_leading is_id_char _ (all-dash_runs false s))

    undashed : (s : String) → starts_dashed (stripped s) ≡ false
    undashed s = undashed-strip_trailing _ (undashed-strip_leading (dash_runs false s))

    kept :
        (s : String)
        → all_chars is_id_char s ≡ true
        → count s ≤ max_agent_id_length
        → starts_dashed s ≡ false
        → IsAgentId (if str_eq s "" then fallback else s)
    kept s all few front = elim (Bool-cases (str_eq s "")) [
      | inl empty ↦ rw empty (valid-IsAgentId fallback h)
      | inr filled ↦
          let some_text : s ≢ "" = ground (arith, eq_iff s "") in
          rw filled (some_text, all, few, valid_or_underscore s some_text all few front)
    ]

pub default_valid : is_valid_id default_agent_id ≡ true
unfolding is_valid_id is_id_start is_id_char all_chars count
default_valid = refl

-- For every text, `NormalizeAgentID` returns a text that is not empty, with no character but
-- `a` to `z`, `0` to `9`, `_` and `-`, of 64 characters at most; it is of the form that
-- `validIDRe` matches, or begins with an underscore.
pub normalize_agent_id-IsAgentId : (id : String) → IsAgentId (normalize_agent_id id)
unfolding normalize_agent_id
normalize_agent_id-IsAgentId id = elim (Bool-cases (str_eq (trim_space id) "")) [
  | inl empty ↦ rw empty (valid-IsAgentId default_agent_id default_valid)
  | inr filled ↦ elim (Bool-cases (is_valid_id (to_lower (trim_space id)))) [
    | inl valid ↦ rw (filled, valid) (valid-IsAgentId _ valid)
    | inr odd ↦ rw (filled, odd) (sanitized-IsAgentId default_agent_id _ default_valid)
  ]
]
