-- ===== src/Auth/Tests/Sessions.antt =====
-- internal/auth after a login: the session, its drafts and its end.
use jimu_studio.Base.{
  ℕ, ◌+◌, String, true, not, ◌&&◌, Option, none, some, [], ◌∷◌, ◌≡◌, ◌≢◌, ◌<◌, ◌⊎◌, inl, refl, sym,
  ◌∙◌, arith, ok, err, ◌==◌, ap,
}
use jimu_studio.Base.Lists.{contains}
use jimu_studio.Base.Sort.{IsSorted, sort}
use jimu_studio.Base.Dict.{lookup, insert, delete, keep, drop_values}
use jimu_studio.Auth.Types.{Any, text, unknown_session, invalid_csrf, SessionState, SessionView}
use jimu_studio.Auth.Teardown.{
  deactivate, deactivate_all, invalidate, find_session, cleanup_sessions, evict_oldest_session,
  oldest,
}
use jimu_studio.Auth.Begin.{
  constant_time_equal, cleanup_pending, evict_oldest_pending, is_safe_url, prepare_pending,
  admit_pending, begin,
}
use jimu_studio.Auth.Complete.{
  unique_roles, normalized_roles, is_bounded_identity, accepts_identity, accepts_pending,
  new_session, admit_session, open_session, exchange_code, complete,
}
use jimu_studio.Auth.Session.{
  tenant_name, view_of, needs_refresh, refreshed, visit_session, session, switch, logout,
  validate_csrf,
}
use jimu_studio.Auth.Drafts.{
  is_safe_category, all_category_chars, draft_state_key, find_drafts, allocate_draft, store_draft,
  load_draft, draw_key, draft_key,
}
use jimu_studio.Auth.Runs.{step, run}
use jimu_studio.Auth.Disposal.{
  IsDisposed, logout-IsDisposed, wrong_csrf_refused, switch-IsDisposed, session-expired,
}
use jimu_studio.Auth.Shown.{IsViewOf, IsRefreshed, session-view}
use jimu_studio.Auth.DraftLaws.{load_draft-store, draft_key_stable}
use jimu_studio.Auth.RoleLaws.{normalized_roles_lem}
use jimu_studio.Auth.Tests.{
  world, live, live_session, empty, identity, live-find_session, live-Inv, differ,
}

logout-IsDisposed_example :
    ((logout live "w" "x").1 ≡ ok tt) × IsDisposed "w" 0 (logout live "w" "x").0
logout-IsDisposed_example =
    logout-IsDisposed live "w" "x" 0 live_session live-Inv live-find_session refl

abbrev wrong : String
wrong = "wrong"

abbrev csrf_of : Option (ℕ × SessionState) → String
csrf_of none = ""
csrf_of (some (p, s)) = s.csrf

wrong_csrf : (p : ℕ) (s : SessionState) → find_session "w" live ≡ some (p, s) → s.csrf ≢ "wrong"
wrong_csrf p s e h =
    let same : ◌≡◌ {A = Option (ℕ × SessionState)} (some (0, live_session)) (some (p, s)) =
      sym live-find_session ∙ e in
    let csrf : live_session.csrf ≡ s.csrf = ap csrf_of same in
    differ live_session.csrf wrong refl (csrf ∙ h)

wrong_csrf_refused_example :
    ((logout live "w" "wrong").0 ≡ live)
    × ((logout live "w" "wrong").1 ≢ ok tt)
    × ((switch live (world 70 "klmn") "w" "wrong" "two").0 ≡ live)
    × (((switch live (world 70 "klmn") "w" "wrong" "two").1 ≡ err unknown_session)
        ⊎ ((switch live (world 70 "klmn") "w" "wrong" "two").1 ≡ err invalid_csrf))
wrong_csrf_refused_example =
    wrong_csrf_refused live (world 70 "klmn") "w" "wrong" "two" live-Inv wrong_csrf

switch-IsDisposed_example :
    (switch live (world 70 "klmn") "w" "x" "two"
      ≡ begin (invalidate "w" 0 live) (world 70 "klmn") "two")
    × IsDisposed "w" 0 (invalidate "w" 0 live)
switch-IsDisposed_example =
    switch-IsDisposed live (world 70 "klmn") "w" "x" "two" 0 live_session live-Inv live-find_session
      refl

session-expired_example :
    ((session live (world 2000 "klmn") "w").1 ≡ none)
    × IsDisposed "w" 0 (session live (world 2000 "klmn") "w").0
session-expired_example =
    session-expired live (world 2000 "klmn") "w" 0 live_session live-Inv live-find_session
      (inl (omega arith))

abbrev view : SessionView
view = record {
  tenant_id = "one";
  tenant_name = "One";
  subject = "u1";
  display_name = "User";
  roles = "a" ∷ "b" ∷ [];
  csrf = "x";
}

session-shown : (session live (world 70 "klmn") "w").1 ≡ some view
unfolding session visit_session needs_refresh refreshed view_of tenant_name run step begin
    prepare_pending is_safe_url admit_pending cleanup_pending evict_oldest_pending complete
    accepts_pending constant_time_equal exchange_code accepts_identity is_bounded_identity
    open_session new_session normalized_roles unique_roles sort admit_session cleanup_sessions
    evict_oldest_session deactivate_all deactivate find_session lookup insert delete keep
    drop_values oldest
session-shown = refl

session-view_example :
    (p : ℕ) × (s : SessionState) × (find_session "w" live ≡ some (p, s))
    × (s.active ≡ true)
    × (70 < s.expires)
    × IsViewOf live s view
    × ((((s.token_expiry ≡ 0) ⊎ (70 + live.refresh_skew < s.token_expiry))
          × ((session live (world 70 "klmn") "w").0 ≡ live))
        ⊎ IsRefreshed live (session live (world 70 "klmn") "w").0 (world 70 "klmn") p s)
session-view_example = session-view live (world 70 "klmn") "w" view session-shown

abbrev category : String
category = "entity-draft"

abbrev reference : String
reference = "k"

store_draft-reference :
    (store_draft live (world 70 "klmn") "w" category (some (text "draft"))).1 ≡ ok reference
unfolding store_draft is_safe_category all_category_chars allocate_draft draft_state_key find_drafts
    run step begin prepare_pending is_safe_url admit_pending cleanup_pending evict_oldest_pending
    complete accepts_pending constant_time_equal exchange_code accepts_identity is_bounded_identity
    open_session new_session normalized_roles unique_roles sort admit_session cleanup_sessions
    evict_oldest_session deactivate_all deactivate find_session lookup insert delete keep
    drop_values oldest
store_draft-reference = refl

load_draft-store_example :
    let b = (store_draft live (world 70 "klmn") "w" category (some (text "draft"))).0 in
    (load_draft b "w" category reference ≡ some (text "draft"))
    × ((c r : String) (v : Any) → load_draft live "w" c r ≡ some v → load_draft b "w" c r ≡ some v)
    × ((j c r : String) → "w" ≢ j → load_draft b j c r ≡ load_draft live j c r)
load_draft-store_example =
    load_draft-store live (world 70 "klmn") "w" category reference (text "draft") live-Inv
      store_draft-reference (differ reference empty refl) (omega arith)

draft_key-reference : (draft_key live (world 70 "klmn") "w" category).1 ≡ ok reference
unfolding draft_key draw_key find_drafts run step begin prepare_pending is_safe_url admit_pending
    cleanup_pending evict_oldest_pending complete accepts_pending constant_time_equal exchange_code
    accepts_identity is_bounded_identity open_session new_session normalized_roles unique_roles sort
    admit_session cleanup_sessions evict_oldest_session deactivate_all deactivate find_session
    lookup insert delete keep drop_values oldest
draft_key-reference = refl

draft_key_stable_example :
    let b = (draft_key live (world 70 "klmn") "w" category).0 in
    draft_key b (world 80 "qrst") "w" category ≡ (b, ok reference)
draft_key_stable_example =
    draft_key_stable live (world 70 "klmn") (world 80 "qrst") "w" category reference
      draft_key-reference (differ reference empty refl)

normalized_roles_lem_example :
    IsSorted (normalized_roles identity.roles)
    × ((t : String)
        → contains (normalized_roles identity.roles) t
          ≡ (not (t == "") && contains identity.roles t))
normalized_roles_lem_example = normalized_roles_lem identity.roles

csrf-validated : validate_csrf live "w" "x" ≡ ok tt
unfolding validate_csrf run step begin prepare_pending is_safe_url admit_pending cleanup_pending
    evict_oldest_pending complete accepts_pending constant_time_equal exchange_code accepts_identity
    is_bounded_identity open_session new_session normalized_roles unique_roles sort admit_session
    cleanup_sessions evict_oldest_session deactivate_all deactivate find_session lookup insert
    delete keep drop_values oldest
csrf-validated = refl
