-- ===== src/Release/Tests.antt =====
-- internal/release on one released record.
use jimu_studio.Base.{String, Bool, true, false, none, List, [], ◌∷◌, ◌≡◌, ◌≢◌, refl, ◌==◌}
use jimu_studio.Base.Lists.{contains, All}
use jimu_studio.Base.Int.{pos}
use jimu_studio.Base.Dict.{Dict, lookup}
use jimu_studio.Release.Acceptance.{
  ProviderIdentity, ContractIdentity, GateEvidence, Acceptance, ProviderRecord, ContractManifest,
  required_gates, all_hex, is_full_commit, values_equal, equal_map, verify_gates, has_empty,
  verify_claims, verify_evidence, verify_static, all_pending, all_successful, verify_state, verify,
}
use jimu_studio.Base.Distinct.{Distinct}
use jimu_studio.Release.Gates.{names}
use jimu_studio.Release.Verified.{verify-covers, IsSuccessful, verify-released}

abbrev commit : String
commit = "0123456789abcdef0123456789abcdef01234567"

abbrev provider : ProviderIdentity
provider = record {
  repository = "github.com/drkliu/jimu";
  commit = commit;
  go_version = "go1.26.5";
}

abbrev contract : ContractIdentity
contract = record { version = "1.2.0"; source_fingerprint = "f"; sha256 = ("client.ts", "00") ∷ [] }

abbrev passed : List String → List GateEvidence
passed [] = []
passed (name ∷ rest) = record { name = name; run_id = pos 5; conclusion = "success" } ∷ passed rest

abbrev released : Acceptance
released = record {
  schema_version = pos 2;
  status = "released";
  studio_version = "1.1.0";
  go_version = "go1.26.5";
  packaging = "source-commit; no binary reproducibility claim";
  provider = provider;
  contract = contract;
  baseline = record {
    previous_release_commit = commit;
    previous_release_tag = "v1.0.0";
    provider_contract_pr = pos 64;
    provider_contract_run = pos 29673464926;
    provider_contract_commit = commit;
  };
  release = record {
    tag = "v1.1.0";
    source_commit = commit;
    url = "https://example.com/v1.1.0";
    published_at = "2026-07-20T00:00:00Z";
  };
  evidence = passed required_gates;
  supported = record {
    deployment = "single";
    browsers = "Chrome on the protected Ubuntu runner" ∷ [];
    go_only = true;
  };
  known_limitations = "1" ∷ "2" ∷ "3" ∷ "4" ∷ "5" ∷ "6" ∷ "7" ∷ "8" ∷ "9" ∷ [];
  rollback = record {
    fallback_commit = commit;
    requires_reauthentication = true;
    reverses_provider_mutations = false;
  };
}

abbrev provider_record : ProviderRecord
provider_record = record { identity = provider; release_status = "published"; contract = contract }

abbrev manifest : ContractManifest
manifest = record {
  format_version = pos 1;
  contract_version = "1.2.0";
  sha256 = ("client.ts", "00") ∷ [];
}

abbrev parses : String → Bool
parses time = time == "2026-07-20T00:00:00Z"

released-verify : verify parses released provider_record manifest ≡ none
unfolding verify verify_static equal_map values_equal lookup is_full_commit all_hex verify_evidence
    verify_gates verify_claims has_empty verify_state all_successful
released-verify = refl

verify-covers_example :
    Distinct (names released.evidence)
    × ((gate : String)
        → contains required_gates gate ≡ true
        → contains (names released.evidence) gate ≡ true)
verify-covers_example = verify-covers parses released provider_record manifest released-verify

verify-released_example :
    (is_full_commit released.release.source_commit ≡ true)
    × (released.release.url ≢ "")
    × (parses released.release.published_at ≡ true)
    × All IsSuccessful released.evidence
verify-released_example =
    verify-released parses released provider_record manifest released-verify refl

abbrev without_value : Dict String
without_value = ("a", "") ∷ []

abbrev other_key : Dict String
other_key = ("b", "x") ∷ []

-- A map with an empty value counts as equal to one with another key.
equal_map-empty_value : equal_map without_value other_key ≡ true
unfolding equal_map values_equal lookup
equal_map-empty_value = refl

pending-fails : all_pending (passed required_gates) ≢ none
unfolding all_pending
pending-fails = cc
