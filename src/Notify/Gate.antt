-- ===== src/Notify/Gate.antt =====
-- The gate lets nothing out that policy, verification or sensitivity holds back.
use pr_reviewer.Base.{refl, List, String, Option, ◌≡◌, true, ◌↔◌, ◌&&◌, false, holds, not, arith}
use pr_reviewer.Notify.{
  route_finding, Finding, ReviewPolicy, SensitivityScore, VerificationStatus, is_security,
  is_critical, is_inconclusive, is_high_sensitivity, score_of, restricted,
}

-- A finding is posted publicly exactly when the policy posts by itself and in public, the finding
-- is verified and safe to publish, it is no critical security finding, its verification did not
-- fail or stay open, and its file is not of high sensitivity. Otherwise, and only then, it goes to
-- a person; and a restricted decision is never a public one.
pub route_finding_lem :
    (f : Finding) (p : ReviewPolicy) (s : List (String × SensitivityScore))
    (v : Option VerificationStatus)
    → let d = route_finding f p s v in
      ((d.allow_public_post ≡ true) ↔ (
        (p.auto_post ≡ true)
        × (p.public_posting ≡ true)
        × (f.verified ≡ true)
        × (f.public_safe ≡ true)
        × (is_security f.concern && is_critical f.severity ≡ false)
        × (is_inconclusive v ≡ false)
        × (holds is_high_sensitivity (score_of f.file_path s) ≡ false)))
      × (d.queue_for_human ≡ not d.allow_public_post)
      × (d.confidentiality ≡ restricted → d.allow_public_post ≡ false)
unfolding route_finding
route_finding_lem f p s v = (((λ h. ground arith), (λ h. ground arith)), refl, ground arith)
