-- ===== src/Server/Laws/Reviewed.antt =====
-- internal/server/metadata_delete.go: an entity is deleted by a reviewed plan only, and once.
use jimu_studio.Base.{
  String, true, not, ◌||◌, Option, none, some, ◌≡◌, arith, Bool-cases, Option-cases, inl, inr, ◌==◌,
  ◌!=◌, eq_iff, eq_refl,
}
use jimu_studio.Base.Dict.{delete, lookup-delete}
use jimu_studio.Auth.Types.{Any, text, deletion_draft, migration_draft, object, SessionView, Broker}
use jimu_studio.Auth.Drafts.{
  find_drafts, clear_draft, load_draft, delete_draft, is_safe_category, draft_state_key,
}
use jimu_studio.Auth.DraftLaws.{find_drafts-set}
use jimu_studio.Provider.Types.{DeletionPlan, DeletionReceipt, ProviderError}
use jimu_studio.Provider.Returned.{delete_entity-receipt}
use jimu_studio.Provider.Metadata.{delete_entity_confirmation}
use jimu_studio.Server.Types.{Form, get, Env, page, deletion_done, Response}
use jimu_studio.Server.Guards.{bounded_browser_value, render_metadata_error, is_status}
use jimu_studio.Server.Roles.{allowed_navigation}
use jimu_studio.Server.Deletion.{
  deletion_category, clear_deletion_draft, as_deletion, deletion_refused, apply_deletion_of,
  confirm_deletion, deletion_applied, deletion_apply_scope,
}
use jimu_studio.Server.Laws.Cases.{proceed_split, with_provider-ok}

-- What a session can load after the draft was deleted.
load_draft-delete :
    (b : Broker) (id category reference : String)
    → load_draft (delete_draft b id category reference) id category reference ≡ none
unfolding load_draft delete_draft
load_draft-delete b id category reference =
    elim (Bool-cases (not (is_safe_category category) || reference == "")) [
      | inl unsafe ↦ rw (unsafe, load_draft) (ground arith)
      | inr safe ↦ elim (Option-cases (find_drafts id b)) [
        | inl f ↦ rw (safe, f, delete_draft) (rw (f, load_draft) (ground arith))
        | inr ((p, s, drafts), f) ↦
            let key = draft_state_key category reference in
            rw (safe, f, delete_draft)
              (rw (load_draft, find_drafts-set id b p s drafts (delete key drafts) f)
                (ground (arith, lookup-delete key key drafts, eq_refl key)))
      ]
    ]

load_draft-clear :
    (b : Broker) (id scope category reference : String)
    → load_draft b id category reference ≡ none
    → load_draft (clear_draft b id scope) id category reference ≡ none
unfolding load_draft clear_draft
load_draft-clear b id scope category reference h = elim (Option-cases (find_drafts id b)) [
  | inl f ↦ rw (f, clear_draft) h
  | inr ((p, s, drafts), f) ↦
      let key = draft_state_key category reference in
      let before = rw (f, load_draft) at h in
      rw (f, clear_draft)
        (rw (load_draft, find_drafts-set id b p s drafts (delete scope drafts) f)
          (ground (arith, before, lookup-delete scope key drafts)))
]

load_draft-clear_deletion :
    (b : Broker) (id reference scope : String)
    → load_draft (clear_deletion_draft b id reference scope) id deletion_category reference ≡ none
unfolding clear_deletion_draft
load_draft-clear_deletion b id reference scope =
    load_draft-clear _ id (deletion_apply_scope reference) deletion_category reference (
      load_draft-clear _ id scope deletion_category reference
        (load_draft-delete b id deletion_category reference))

-- A deletion that was done: by a plan that the session held under the form's reference.
pub record IsReviewed (b b' : Broker) (id : String) (form : Form) (receipt : DeletionReceipt)
    : Type 0 where
  pub plan : DeletionPlan
  pub scope : String
  pub stored :
      load_draft b id deletion_category (get "draft" form) ≡ some (deletion_draft plan scope)
  pub deletable : plan.deletable ≡ true
  pub confirmed : get "confirmation" form ≡ "DELETE_ENTITY"
  pub same_entity : receipt.code ≡ plan.code
  pub same_version : receipt.deleted_version ≡ plan.expected_version
  pub spent : load_draft b' id deletion_category (get "draft" form) ≡ none

module _ (env : Env) (id : String) (v : SessionView) (receipt : DeletionReceipt) where
  abbrev Done : Broker × Response → Type 0
  Done x = x.1.view ≡ page v (allowed_navigation v) (deletion_done receipt)

  abbrev Deleted : Broker × Response → String → DeletionPlan → Type 0
  Deleted x reference plan =
      Done x
      → (receipt.code ≡ plan.code)
        × (receipt.deleted_version ≡ plan.expected_version)
        × (load_draft x.0 id deletion_category reference ≡ none)

  deletion_refused-Deleted :
      (b : Broker) (reference scope : String) (plan : DeletionPlan) (e : ProviderError)
      → Deleted (deletion_refused env b id v reference scope e) reference plan
  unfolding deletion_refused render_metadata_error
  deletion_refused-Deleted b reference scope plan e done = elim (Bool-cases (is_status e 409)) [
    | inl conflict ↦ let bad = rw (conflict, deletion_refused) at done in cc
    | inr other ↦ let bad = rw (other, deletion_refused) at done in cc
  ]

  apply_deletion_of-Deleted :
      (b : Broker) (reference : String) (plan : DeletionPlan) (scope : String)
      → Deleted (apply_deletion_of env b id v reference plan scope) reference plan
  unfolding apply_deletion_of render_metadata_error
  apply_deletion_of-Deleted b reference plan scope =
      proceed_split (λ x. Deleted x reference plan) _ _ _ (λ b₁ e drawn done. cc)
        (λ b₁ key drawn.
          proceed_split (λ x. Deleted x reference plan) _ _ _
            (λ b₂ e asked. deletion_refused-Deleted b₂ reference scope plan e)
            (λ b₂ r asked done.
              let (client, answered) = with_provider-ok env 2 b₁ b₂ id _ r asked in
              let (code, version, time, safe, sent) =
                delete_entity-receipt (env.http 2) client plan.code plan.expected_version key r
                  answered in
              let same : r ≡ receipt = cc in
              (
                rw (← same) code,
                rw (← same) version,
                load_draft-clear_deletion b₂ id reference scope,
              )))

  confirm_deletion-IsReviewed :
      (b : Broker) (form : Form) (plan : DeletionPlan) (scope : String)
      → load_draft b id deletion_category (get "draft" form) ≡ some (deletion_draft plan scope)
      → let x = confirm_deletion env b id v form plan scope in
        Done x → IsReviewed b x.0 id form receipt
  unfolding confirm_deletion
  confirm_deletion-IsReviewed b form plan scope stored done = elim (Bool-cases plan.deletable) [
    | inr kept ↦ let bad = rw (kept, confirm_deletion) at done in cc
    | inl deletable ↦ elim (Bool-cases (get "confirmation" form != delete_entity_confirmation)) [
      | inl other ↦ let bad = rw (deletable, other, confirm_deletion) at done in cc
      | inr typed ↦
          simp (deletable, typed, confirm_deletion)
            (let (code, version, spent) =
                apply_deletion_of-Deleted b (get "draft" form) plan scope
                  (simp (deletable, typed, confirm_deletion) at done) in
              record {
                plan = plan;
                scope = scope;
                stored = stored;
                deletable = deletable;
                confirmed = ground (arith, typed, eq_iff (get "confirmation" form) "DELETE_ENTITY");
                same_entity = code;
                same_version = version;
                spent = spent;
              })
    ]
  ]

as_deletion-some :
    (o : Option Any) (plan : DeletionPlan) (scope : String)
    → as_deletion o ≡ some (plan, scope)
    → o ≡ some (deletion_draft plan scope)
as_deletion-some none plan scope e = cc
as_deletion-some (some (text s)) plan scope e = cc
as_deletion-some (some (object n)) plan scope e = cc
as_deletion-some (some (migration_draft es ps s)) plan scope e = cc
as_deletion-some (some (deletion_draft p s)) plan scope e = ground (arith, e)

-- A deletion is shown for a reviewed plan only, and the plan is spent: where the answer shows a
-- receipt, the session held a deletable plan under the form's reference, the confirmation was typed
-- exactly, the receipt is for the entity and the version of that plan, and the session no longer
-- holds a plan under the reference.
pub deletion_applied-IsReviewed :
    (env : Env) (b : Broker) (id : String) (v : SessionView) (form : Form)
    (receipt : DeletionReceipt)
    → let x = deletion_applied env b id v form in
      x.1.view ≡ page v (allowed_navigation v) (deletion_done receipt)
      → IsReviewed b x.0 id form receipt
unfolding deletion_applied
deletion_applied-IsReviewed env b id v form receipt done =
    let reference = get "draft" form in
    elim (Bool-cases (reference == "" || not (bounded_browser_value reference 256))) [
      | inl bad ↦ let refusal = rw (bad, deletion_applied) at done in cc
      | inr good ↦ elim (Option-cases (as_deletion (load_draft b id deletion_category reference))) [
        | inl f ↦ let refusal = rw (good, f, deletion_applied) at done in cc
        | inr ((plan, scope), f) ↦
            rw (good, f, deletion_applied)
              (confirm_deletion-IsReviewed env id v receipt b form plan scope
                (as_deletion-some _ plan scope f) (rw (good, f, deletion_applied) at done))
      ]
    ]
