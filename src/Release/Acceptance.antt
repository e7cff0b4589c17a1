-- ===== src/Release/Acceptance.antt =====
-- internal/release/acceptance.go: the record, and `verifyStatic` and `verifyState`.
use Prim.Native.Char.{Char, code}
use jimu_studio.Base.{
  String, len, Bool, true, false, not, ◌||◌, ◌&&◌, Option, none, some, List, [], ◌∷◌, eqb, leb,
  ◌==◌, ◌!=◌, if◌then◌else◌,
}
use jimu_studio.Base.Lists.{length, contains}
use jimu_studio.Base.Int.{ℤ, pos, eqb_ℤ, leb_ℤ}
use jimu_studio.Base.Dict.{Dict, lookup}

pub record ProviderIdentity : Type 0 where
  pub repository : String
  pub commit : String
  pub go_version : String

pub record ContractIdentity : Type 0 where
  pub version : String
  pub source_fingerprint : String
  pub sha256 : Dict String

pub record Baseline : Type 0 where
  pub previous_release_commit : String
  pub previous_release_tag : String
  pub provider_contract_pr : ℤ
  pub provider_contract_run : ℤ
  pub provider_contract_commit : String

pub record ReleaseIdentity : Type 0 where
  pub tag : String
  pub source_commit : String
  pub url : String
  pub published_at : String

pub record GateEvidence : Type 0 where
  pub name : String
  pub run_id : ℤ
  pub conclusion : String

pub record SupportedMatrix : Type 0 where
  pub deployment : String
  pub browsers : List String
  pub go_only : Bool

pub record RollbackContract : Type 0 where
  pub fallback_commit : String
  pub requires_reauthentication : Bool
  pub reverses_provider_mutations : Bool

pub record Acceptance : Type 0 where
  pub schema_version : ℤ
  pub status : String
  pub studio_version : String
  pub go_version : String
  pub packaging : String
  pub provider : ProviderIdentity
  pub contract : ContractIdentity
  pub baseline : Baseline
  pub release : ReleaseIdentity
  pub evidence : List GateEvidence
  pub supported : SupportedMatrix
  pub known_limitations : List String
  pub rollback : RollbackContract

pub record ProviderRecord : Type 0 where
  pub identity : ProviderIdentity
  pub open identity use *
  pub release_status : String
  pub contract : ContractIdentity

pub record ContractManifest : Type 0 where
  pub format_version : ℤ
  pub contract_version : String
  pub sha256 : Dict String

-- The errors: of `verifyStatic` in its order, and of `verifyState`.
pub data ReleaseError : Type 0 where
  release_identity packaging_claim provider_identity release_status : ReleaseError
  contract_version contract_fingerprint contract_digests release_tag : ReleaseError
  baseline_evidence gate_count supported_matrix limitation_count : ReleaseError
  unsafe_rollback candidate_facts source_identity published_facts : ReleaseError
  publication_time unknown_status empty_limitation : ReleaseError
  invalid_gate completed_gate incomplete_gate : String → ReleaseError

-- The regular expression of `fullCommit`: 40 lower-case hexadecimal digits.
abbrev is_hex : Char → Bool
is_hex c = (leb b'0' (code c) && leb (code c) b'9') || (leb b'a' (code c) && leb (code c) b'f')

unfoldable pub all_hex : String → Bool
all_hex String.[] = true
all_hex (String.◌∷◌ c s) = is_hex c && all_hex s

unfoldable pub is_full_commit : String → Bool
is_full_commit s = eqb (len s) 40 && all_hex s

-- `right[key]`, which is empty for a missing key.
abbrev pub value_or_empty : Option String → String
value_or_empty none = ""
value_or_empty (some v) = v

unfoldable pub values_equal : Dict String → Dict String → Bool
values_equal [] right = true
values_equal ((k, v) ∷ left) right =
    let rest = values_equal left right in
    if value_or_empty (lookup k right) != v then false else rest

unfoldable pub equal_map : Dict String → Dict String → Bool
equal_map left right =
    if not (eqb (length left) (length right)) then false else values_equal left right

abbrev pub required_gates : List String
required_gates =
    "contract" ∷ "format" ∷ "vet" ∷ "unit-race-build" ∷ "browser-e2e" ∷ "dependency-review"
    ∷ "vulnerability" ∷ "codeql" ∷ []

-- The loop over the evidence, with the names seen so far.
unfoldable pub verify_gates : List String → List GateEvidence → Option ReleaseError
verify_gates seen [] = none
verify_gates seen (gate ∷ gates) =
    let rest = verify_gates (gate.name ∷ seen) gates in
    if not (contains required_gates gate.name) || contains seen gate.name
    then some (invalid_gate gate.name)
    else rest

abbrev only_chrome : List String → Bool
only_chrome (browser ∷ []) = browser == "Chrome on the protected Ubuntu runner"
only_chrome _ = false

unfoldable pub has_empty : List String → Bool
has_empty [] = false
has_empty (s ∷ ss) = s == "" || has_empty ss

-- `verifyStatic` after the evidence.
unfoldable pub verify_claims : Acceptance → Option ReleaseError
verify_claims r =
    if r.supported.deployment == ""
      || not (only_chrome r.supported.browsers)
      || not r.supported.go_only
    then some supported_matrix
    else if not (eqb (length r.known_limitations) 9)
    then some limitation_count
    else if has_empty r.known_limitations
    then some empty_limitation
    else if r.rollback.fallback_commit != r.baseline.previous_release_commit
        || not r.rollback.requires_reauthentication
        || r.rollback.reverses_provider_mutations
    then some unsafe_rollback
    else none

-- `verifyStatic` from the evidence on.
unfoldable pub verify_evidence : Acceptance → Option ReleaseError
verify_evidence r =
    if not (eqb (length r.evidence) (length required_gates))
    then some gate_count
    else elim (verify_gates [] r.evidence) [ some e ↦ some e | none ↦ verify_claims r ]

unfoldable pub verify_static : Acceptance → ProviderRecord → ContractManifest → Option ReleaseError
verify_static r p m =
    if not (eqb_ℤ r.schema_version (pos 2))
      || r.studio_version != "1.1.0"
      || r.go_version != "go1.26.5"
    then some release_identity
    else if r.packaging != "source-commit; no binary reproducibility claim"
    then some packaging_claim
    else if r.provider.repository != "github.com/drkliu/jimu"
        || r.provider.repository != p.repository
        || r.provider.commit != p.commit
        || r.provider.go_version != p.go_version
    then some provider_identity
    else if p.release_status == ""
    then some release_status
    else if r.contract.version != "1.2.0"
        || not (eqb_ℤ m.format_version (pos 1))
        || r.contract.version != m.contract_version
        || r.contract.version != p.contract.version
    then some contract_version
    else if r.contract.source_fingerprint == ""
        || r.contract.source_fingerprint != p.contract.source_fingerprint
    then some contract_fingerprint
    else if not (equal_map r.contract.sha256 m.sha256)
        || not (equal_map r.contract.sha256 p.contract.sha256)
    then some contract_digests
    else if r.release.tag != "v1.1.0"
    then some release_tag
    else if not (is_full_commit r.baseline.previous_release_commit)
        || r.baseline.previous_release_tag != "v1.0.0"
        || not (eqb_ℤ r.baseline.provider_contract_pr (pos 64))
        || not (eqb_ℤ r.baseline.provider_contract_run (pos 29673464926))
        || r.baseline.provider_contract_commit != p.commit
    then some baseline_evidence
    else verify_evidence r

-- The loop over the evidence of a candidate.
unfoldable pub all_pending : List GateEvidence → Option ReleaseError
all_pending [] = none
all_pending (gate ∷ gates) =
    let rest = all_pending gates in
    if not (eqb_ℤ gate.run_id (pos 0)) || gate.conclusion != "pending"
    then some (completed_gate gate.name)
    else rest

-- The loop over the evidence of an accepted or released record.
unfoldable pub all_successful : List GateEvidence → Option ReleaseError
all_successful [] = none
all_successful (gate ∷ gates) =
    let rest = all_successful gates in
    if leb_ℤ gate.run_id (pos 0) || gate.conclusion != "success"
    then some (incomplete_gate gate.name)
    else rest

-- `verifyState`; `parses_time` is `time.Parse` with RFC 3339.
unfoldable pub verify_state : (String → Bool) → Acceptance → Option ReleaseError
verify_state parses_time r =
    if r.status == "candidate"
    then (if r.release.source_commit != "" || r.release.url != "" || r.release.published_at != ""
        then some candidate_facts
        else all_pending r.evidence)
    else if r.status == "accepted"
    then (if not (is_full_commit r.release.source_commit)
        then some source_identity
        else if r.release.url != "" || r.release.published_at != ""
        then some published_facts
        else all_successful r.evidence)
    else if r.status == "released"
    then (if not (is_full_commit r.release.source_commit) || r.release.url == ""
        then some source_identity
        else if not (parses_time r.release.published_at)
        then some publication_time
        else all_successful r.evidence)
    else some unknown_status

-- `Verify` on the decoded files.
unfoldable pub verify :
    (String → Bool) → Acceptance → ProviderRecord → ContractManifest → Option ReleaseError
verify parses_time r p m = elim (verify_static r p m) [
  | some e ↦ some e
  | none ↦ verify_state parses_time r
]
