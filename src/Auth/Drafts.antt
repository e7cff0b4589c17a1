-- ===== src/Auth/Drafts.antt =====
-- internal/auth/draft.go and operations.go: the drafts that a session holds.
use Prim.Native.Char.{Char, code}
use Prim.Native.String.{◌++◌}
use jimu_studio.Base.{
  ℕ, zero, suc, String, len, Bool, true, not, ◌&&◌, ◌||◌, Option, none, some, Result, ok, err, ltb,
  leb, eqb, is_some, ◌==◌, if◌then◌else◌,
}
use jimu_studio.Base.Lists.{length}
use jimu_studio.Base.Dict.{Dict, lookup, insert, delete}
use jimu_studio.Auth.Types.{
  AuthError, unsafe_draft, unknown_session, draft_limit, draft_allocation, random_failed, bad_scope,
  Any, text, deletion_draft, migration_draft, object, SessionState, Broker, World,
}
use jimu_studio.Auth.Teardown.{update, find_session}

abbrev pub max_draft_category_bytes : ℕ
max_draft_category_bytes = 64

abbrev pub max_session_drafts : ℕ
max_session_drafts = 128

abbrev pub is_category_char : Char → Bool
is_category_char c =
    (leb b'a' (code c) && leb (code c) b'z')
    || (leb b'0' (code c) && leb (code c) b'9')
    || eqb (code c) b'-'

unfoldable pub all_category_chars : String → Bool
all_category_chars String.[] = true
all_category_chars (String.◌∷◌ c s) = is_category_char c && all_category_chars s

unfoldable pub is_safe_category : String → Bool
is_safe_category category =
    not (category == "" || ltb max_draft_category_bytes (len category))
    && all_category_chars category

unfoldable pub draft_state_key : String → String → String
draft_state_key category reference = "state:" ++ (category ++ (":" ++ reference))

-- A write into the session's map of drafts.
abbrev pub set_optimistic : Broker → ℕ → SessionState → Dict Any → Broker
set_optimistic b p s drafts = record b {
  heap = update b.heap p (record s { optimistic = some drafts });
}

-- The object of an active session with its drafts, where the map is not nil.
unfoldable pub find_drafts : String → Broker → Option (ℕ × SessionState × Dict Any)
unfolding find_session
find_drafts id b = elim (find_session id b) [
  | none ↦ none
  | some (p, s) ↦
      if not s.active
      then none
      else elim s.optimistic [ none ↦ none | some drafts ↦ some (p, s, drafts) ]
]

-- The loop over `attempt`: `left` attempts remain, and `attempt` were made.
unfoldable pub allocate_draft :
    ℕ → ℕ → World → String → Any → Dict Any → Result AuthError (String × Dict Any)
allocate_draft zero attempt w category value drafts = err draft_allocation
allocate_draft (suc left) attempt w category value drafts =
    let again = allocate_draft left (suc attempt) w category value drafts in
    elim (w.random attempt) [
      | none ↦ err random_failed
      | some reference ↦
          if is_some (lookup (draft_state_key category reference) drafts)
          then again
          else ok (reference, insert (draft_state_key category reference) value drafts)
    ]

abbrev pub save_draft :
    Broker
    → ℕ
    → SessionState
    → Result AuthError (String × Dict Any)
    → Broker × Result AuthError String
save_draft b p s (err e) = (b, err e)
save_draft b p s (ok (reference, drafts)) = (set_optimistic b p s drafts, ok reference)

unfoldable pub store_draft :
    Broker → World → String → String → Option Any → Broker × Result AuthError String
store_draft b w id category none = (b, err unsafe_draft)
store_draft b w id category (some value) =
    if not (is_safe_category category) then (b, err unsafe_draft) else elim (find_drafts id b) [
      | none ↦ (b, err unknown_session)
      | some (p, s, drafts) ↦
          if leb max_session_drafts (length drafts)
          then (b, err draft_limit)
          else save_draft b p s (allocate_draft 3 0 w category value drafts)
    ]

unfoldable pub load_draft : Broker → String → String → String → Option Any
load_draft b id category reference =
    if not (is_safe_category category) || reference == "" || ltb 256 (len reference)
    then none
    else elim (find_drafts id b) [
      | none ↦ none
      | some (p, s, drafts) ↦ lookup (draft_state_key category reference) drafts
    ]

unfoldable pub delete_draft : Broker → String → String → String → Broker
delete_draft b id category reference =
    if not (is_safe_category category) || reference == "" then b else elim (find_drafts id b) [
      | none ↦ b
      | some (p, s, drafts) ↦
          set_optimistic b p s (delete (draft_state_key category reference) drafts)
    ]

-- `existing, ok := session.optimistic[scope].(string)` with `ok && existing != ""`.
abbrev pub existing_key : Option Any → Option String
existing_key none = none
existing_key (some (text key)) = if key == "" then none else some key
existing_key (some (deletion_draft p s)) = none
existing_key (some (migration_draft es ps s)) = none
existing_key (some (object n)) = none

-- `DraftKey` on the map of drafts.
unfoldable pub draw_key : World → String → Dict Any → Result AuthError (String × Dict Any)
draw_key w scope drafts = elim (existing_key (lookup scope drafts)) [
  | some key ↦ ok (key, drafts)
  | none ↦ if leb max_session_drafts (length drafts) then err draft_limit else elim (w.random 0) [
    | none ↦ err random_failed
    | some key ↦ ok (key, insert scope (text key) drafts)
  ]
]

unfoldable pub draft_key : Broker → World → String → String → Broker × Result AuthError String
draft_key b w id scope =
    if scope == "" || ltb 1024 (len scope) then (b, err bad_scope) else elim (find_drafts id b) [
      | none ↦ (b, err unknown_session)
      | some (p, s, drafts) ↦ save_draft b p s (draw_key w scope drafts)
    ]

unfoldable pub clear_draft : Broker → String → String → Broker
clear_draft b id scope = elim (find_drafts id b) [
  | none ↦ b
  | some (p, s, drafts) ↦ set_optimistic b p s (delete scope drafts)
]
