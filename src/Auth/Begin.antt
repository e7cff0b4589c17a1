-- ===== src/Auth/Begin.antt =====
-- internal/auth/broker.go: `Begin`, with the pending states' cleanup and eviction of session.go.
use jimu_studio.Base.{
  ℕ, zero, suc, ◌+◌, ◌*◌, String, len, Bool, false, not, ◌&&◌, ◌||◌, none, some, Result, ok, err,
  ltb, leb, is_some, ◌==◌, ◌!=◌, if◌then◌else◌,
}
use jimu_studio.Base.Lists.{length}
use jimu_studio.Base.Dict.{Dict, lookup, insert, delete, keep}
use jimu_studio.Auth.Types.{
  AuthError, unknown_tenant, random_failed, unsafe_url, pending_collision, nil_identity, Pending,
  PendingState, Broker, World,
}
use jimu_studio.Auth.Teardown.{oldest}
unfoldable pub use jimu_studio.Auth.Compare.{constant_time_equal}

abbrev pub is_pending_live : ℕ → PendingState → Bool
is_pending_live now p = ltb now p.expires

unfoldable pub cleanup_pending : ℕ → Dict PendingState → Dict PendingState
cleanup_pending now pending = keep (is_pending_live now) pending

-- The loop `for len(broker.pending) >= broker.maxPending`, on fuel.
unfoldable pub evict_oldest_pending : ℕ → ℕ → Dict PendingState → Dict PendingState
evict_oldest_pending zero max_pending pending = pending
evict_oldest_pending (suc fuel) max_pending pending =
    let rest =
      evict_oldest_pending fuel max_pending
        (delete (oldest (λ p. p.created) pending ("", 0, none)).0 pending) in
    if leb max_pending (length pending) then rest else pending

-- The tests on the parsed authorization URL.
unfoldable pub is_safe_url : World → String → Bool
is_safe_url w url = elim (w.parse_url url) [
  | none ↦ false
  | some parsed ↦
      leb (len url) (16 * 1024)
      && (parsed.scheme == "https" || parsed.scheme == "http")
      && parsed.host != ""
      && not parsed.has_user
      && parsed.fragment == ""
]

-- `Begin` up to the lock: the state that is to be admitted.
unfoldable pub prepare_pending : ℕ → ℕ → World → String → Result AuthError PendingState
unfolding is_safe_url
prepare_pending handle ttl w tenant_id = elim (w.random 0) [
  | none ↦ err random_failed
  | some id ↦ elim (w.random 1) [
    | none ↦ err random_failed
    | some state ↦ elim (w.random 2) [
      | none ↦ err random_failed
      | some nonce ↦ elim (w.random 3) [
        | none ↦ err random_failed
        | some verifier ↦
            let url =
              w.authorization_url handle
                (record { state = state; nonce = nonce; code_challenge = w.challenge verifier }) in
            if not (is_safe_url w url)
            then err unsafe_url
            else ok (record {
              pending = record { id = id; state = state; tenant_id = tenant_id; url = url };
              nonce = nonce;
              verifier = verifier;
              created = w.now;
              expires = w.now + ttl;
            })
      ]
    ]
  ]
]

-- `Begin` under the lock.
unfoldable pub admit_pending : Broker → ℕ → PendingState → Broker × Result AuthError Pending
unfolding cleanup_pending evict_oldest_pending
admit_pending b now p =
    let kept = cleanup_pending now b.pending in
    if is_some (lookup p.id kept) then (record b { pending = kept }, err pending_collision) else (
      record b {
        pending = insert p.id p (evict_oldest_pending (suc (length kept)) b.max_pending kept);
      },
      ok p.pending,
    )

abbrev pub then_admit :
    Broker → ℕ → Result AuthError PendingState → Broker × Result AuthError Pending
then_admit b now (err e) = (b, err e)
then_admit b now (ok p) = admit_pending b now p

unfoldable pub begin : Broker → World → String → Broker × Result AuthError Pending
unfolding prepare_pending admit_pending
begin b w tenant_id = elim (lookup tenant_id b.tenants) [
  | none ↦ (b, err unknown_tenant)
  | some tenant ↦ elim tenant.identity [
    | none ↦ (b, err nil_identity)
    | some handle ↦ then_admit b w.now (prepare_pending handle b.pending_ttl w tenant_id)
  ]
]
