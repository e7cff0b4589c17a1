-- ===== src/Release/Verified.antt =====
-- internal/release/acceptance.go: what `Verify` guarantees of a record it accepts.
use jimu_studio.Base.{
  String, Bool, true, false, not, ◌||◌, none, List, [], ◌∷◌, ◌≡◌, ◌≢◌, inl, inr, refl, arith,
  eq_iff, Bool-cases, Option-cases, eqb, ◌==◌, ◌!=◌,
}
use jimu_studio.Base.Lists.{length, contains, All}
use jimu_studio.Base.Int.{pos, leb_ℤ}
use jimu_studio.Release.Acceptance.{
  GateEvidence, Acceptance, ProviderRecord, ContractManifest, required_gates, verify_gates,
  verify_evidence, verify_static, all_successful, verify_state, verify, is_full_commit,
}
use jimu_studio.Base.Distinct.{Distinct, Within-covers}
use jimu_studio.Release.Gates.{names, verify_gates_lem}

verify-parts :
    (parses : String → Bool) (r : Acceptance) (p : ProviderRecord) (m : ContractManifest)
    → verify parses r p m ≡ none
    → (verify_static r p m ≡ none) × (verify_state parses r ≡ none)
unfolding verify
verify-parts parses r p m h = elim (Option-cases (verify_static r p m)) [
  | inl e ↦ (e, rw (e, verify) at h)
  | inr (failed, e) ↦ let bad = rw (e, verify) at h in cc
]

-- The tests of `verifyStatic` before the evidence.
verify_static-evidence :
    (r : Acceptance) (p : ProviderRecord) (m : ContractManifest)
    → verify_static r p m ≡ none
    → verify_evidence r ≡ none
unfolding verify_static
verify_static-evidence r p m h = ground arith

verify_evidence-gates :
    (r : Acceptance)
    → verify_evidence r ≡ none
    → (eqb (length r.evidence) (length required_gates) ≡ true) × (verify_gates [] r.evidence ≡ none)
unfolding verify_evidence
verify_evidence-gates r h = elim (Bool-cases (eqb (length r.evidence) (length required_gates))) [
  | inr other ↦ let bad = rw (other, verify_evidence) at h in cc
  | inl same ↦ elim (Option-cases (verify_gates [] r.evidence)) [
    | inl e ↦ (same, e)
    | inr (failed, e) ↦ let bad = rw (same, e, verify_evidence) at h in cc
  ]
]

length-names : (gates : List GateEvidence) → length (names gates) ≡ length gates
length-names [] = refl
length-names (g ∷ gs) = omega (arith, length-names gs)

-- A record that `Verify` accepts has evidence of every required gate, and of each gate once.
pub verify-covers :
    (parses_time : String → Bool) (r : Acceptance) (p : ProviderRecord) (m : ContractManifest)
    → verify parses_time r p m ≡ none
    → Distinct (names r.evidence)
      × ((gate : String)
          → contains required_gates gate ≡ true
          → contains (names r.evidence) gate ≡ true)
verify-covers parses_time r p m h =
    let (static, state) = verify-parts parses_time r p m h in
    let (count, loop) = verify_evidence-gates r (verify_static-evidence r p m static) in
    let (distinct, within, apart) = verify_gates_lem [] r.evidence loop in
    (
      distinct,
      λ gate required.
          Within-covers (names r.evidence) required_gates gate distinct within
            (ground (arith, length-names r.evidence, count)) required,
    )

-- The gate ran and succeeded.
abbrev pub IsSuccessful : GateEvidence → Type 0
IsSuccessful gate = (leb_ℤ gate.run_id (pos 0) ≡ false) × (gate.conclusion ≡ "success")

all_successful_lem :
    (gates : List GateEvidence) → all_successful gates ≡ none → All IsSuccessful gates
unfolding all_successful
all_successful_lem [] h = tt
all_successful_lem (gate ∷ gates) h =
    elim (Bool-cases (leb_ℤ gate.run_id (pos 0) || gate.conclusion != "success")) [
      | inl bad ↦ let failed = rw bad at h in cc
      | inr good ↦ (
        (ground arith, ground (arith, eq_iff gate.conclusion "success")),
        all_successful_lem gates (rw good at h),
      )
    ]

released_lem :
    (parses_time : String → Bool) (r : Acceptance)
    → r.status ≡ "released"
    → verify_state parses_time r ≡ none
    → (is_full_commit r.release.source_commit ≡ true)
      × (r.release.url ≢ "")
      × (parses_time r.release.published_at ≡ true)
      × All IsSuccessful r.evidence
unfolding verify_state
released_lem parses_time r released h =
    let state = rw (released, verify_state) at h in
    elim (Bool-cases (not (is_full_commit r.release.source_commit) || r.release.url == "")) [
      | inl bad ↦ let failed = rw bad at state in cc
      | inr good ↦ elim (Bool-cases (parses_time r.release.published_at)) [
        | inr bad ↦ let failed = rw (good, bad) at state in cc
        | inl parses ↦ (
          ground arith,
          ground (arith, eq_iff r.release.url ""),
          parses,
          all_successful_lem r.evidence (rw (good, parses) at state),
        )
      ]
    ]

-- A released record that `Verify` accepts names a full source commit, an address and a publication
-- time that parses, and every gate of its evidence ran and succeeded.
pub verify-released :
    (parses_time : String → Bool) (r : Acceptance) (p : ProviderRecord) (m : ContractManifest)
    → verify parses_time r p m ≡ none
    → r.status ≡ "released"
    → (is_full_commit r.release.source_commit ≡ true)
      × (r.release.url ≢ "")
      × (parses_time r.release.published_at ≡ true)
      × All IsSuccessful r.evidence
verify-released parses_time r p m h released =
    released_lem parses_time r released (verify-parts parses_time r p m h).1
