-- ===== src/Notify.antt =====
-- What may be posted, and who is told: src/pr_reviewer/notifications/gate.py, dispatch.py and
-- channels.py, over the shapes of contracts/finding.py and contracts/notification.py. The fields
-- that no decision reads are left out.
pub mod Gate
pub mod Dispatch
pub mod FanOut
pub mod Isolation
use pr_reviewer.Base.{
  refl, [], ◌∷◌, Option, List, ℕ, String, Bool, none, false, true, not, ◌&&◌, holds, if◌then◌else◌,
  some, ◌||◌, leb, str_eq,
}

pub data Concern : Type 0 where
  security correctness tests docs maintainability : Concern

pub data Severity : Type 0 where
  critical high medium low info : Severity

pub record Finding : Type 0 where
  pub concern : Concern
  pub severity : Severity
  pub file_path : String
  pub verified : Bool
  pub public_safe : Bool

-- security/instruction_sources.py
pub record ReviewPolicy : Type 0 where
  pub auto_post : Bool
  pub public_posting : Bool

-- retrieval/sensitivity.py; fix_density is in millionths
pub record SensitivityScore : Type 0 where
  pub fix_density : ℕ
  pub caller_count : ℕ
  pub structural_flags : List String

pub data VerificationStatus : Type 0 where
  passed failed inconclusive not_applicable : VerificationStatus

pub data Confidentiality : Type 0 where
  restricted ordinary : Confidentiality

pub data Purpose : Type 0 where
  security_alert review_ping : Purpose

pub record GateDecision : Type 0 where
  pub queue_for_human : Bool
  pub confidentiality : Confidentiality
  pub notify_purpose : Option Purpose
  pub allow_public_post : Bool
  pub reason : String

abbrev pub is_empty {ℓ} : {A : Type ℓ} → List A → Bool
is_empty [] = true
is_empty (x ∷ xs) = false

-- _HIGH_FIX_DENSITY is 0.25, _HIGH_CALLER_COUNT is 3
abbrev pub is_high_sensitivity : SensitivityScore → Bool
is_high_sensitivity score =
    not (is_empty score.structural_flags)
    || (leb 250_000 score.fix_density || leb 3 score.caller_count)

abbrev pub is_security : Concern → Bool
is_security security = true
is_security _ = false

abbrev pub is_critical : Severity → Bool
is_critical critical = true
is_critical _ = false

-- `verification is not None and verification.status in {"failed", "inconclusive"}`
abbrev pub is_inconclusive : Option VerificationStatus → Bool
is_inconclusive none = false
is_inconclusive (some passed) = false
is_inconclusive (some failed) = true
is_inconclusive (some inconclusive) = true
is_inconclusive (some not_applicable) = false

abbrev pub is_private : Finding → Bool
is_private f = is_security f.concern && (not f.public_safe || is_critical f.severity)

-- sensitivity_by_path.get(path); no mapping finds nothing
abbrev pub score_of : String → List (String × SensitivityScore) → Option SensitivityScore
score_of path [] = none
score_of path ((p, score) ∷ rest) =
    let later = score_of path rest in if str_eq p path then some score else later

unfoldable pub route_finding :
    Finding
    → ReviewPolicy
    → List (String × SensitivityScore)
    → Option VerificationStatus
    → GateDecision
route_finding finding policy sensitivity_by_path verification =
    let private = is_private finding in
    let high = holds is_high_sensitivity (score_of finding.file_path sensitivity_by_path) in
    let doubtful = is_inconclusive verification in
    let allow =
      policy.auto_post
      && (policy.public_posting
          && (finding.verified
              && (finding.public_safe && (not private && (not high && not doubtful))))) in
    record {
      queue_for_human = not allow;
      confidentiality = if private then restricted else ordinary;
      notify_purpose = if private then some security_alert else none;
      allow_public_post = allow;
      reason =
          if private
          then "unsafe or critical security finding"
          else if not finding.verified || doubtful
          then "unverified or inconclusive finding"
          else if high
          then "high-sensitivity file"
          else if not allow
          then "policy queues for a person"
          else "public-safe and verified";
    }
