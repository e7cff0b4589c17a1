-- ===== src/Release/Gates.antt =====
-- internal/release/acceptance.go: what a verified record has as evidence.
use jimu_studio.Base.{String, not, ◌||◌, none, List, [], ◌∷◌, ◌≡◌, inl, inr, arith, Bool-cases}
use jimu_studio.Base.Lists.{contains}
use jimu_studio.Release.Acceptance.{GateEvidence, required_gates, verify_gates}
use jimu_studio.Base.Distinct.{Distinct, Within, Apart, Apart-tail}

abbrev pub names : List GateEvidence → List String
names [] = []
names (g ∷ gs) = g.name ∷ names gs

pub verify_gates_lem :
    (seen : List String) (gates : List GateEvidence)
    → verify_gates seen gates ≡ none
    → Distinct (names gates) × Within (names gates) required_gates × Apart (names gates) seen
unfolding verify_gates
verify_gates_lem seen [] h = (tt, tt, tt)
verify_gates_lem seen (gate ∷ gates) h =
    elim (Bool-cases (not (contains required_gates gate.name) || contains seen gate.name)) [
      | inl bad ↦ let failed = rw bad at h in cc
      | inr good ↦
          let (d, w, a) = verify_gates_lem (gate.name ∷ seen) gates (rw good at h) in
          let (a', fresh) = Apart-tail (names gates) seen gate.name a in
          ((fresh, d), (ground (arith, good), w), (ground (arith, good), a'))
    ]
