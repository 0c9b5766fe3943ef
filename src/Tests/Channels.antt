-- ===== src/Tests/Channels.antt =====
-- A private finding and a public one, and a fan-out over two channels. The world counts what was
-- sent.
use pr_reviewer.Base.{
  refl, [], ◌∷◌, ℕ, true, String, List, none, Option, false, ◌≡◌, ◌↔◌, All, some, ◌&&◌, ◌+◌, holds,
  not, ◌⊎◌,
}
use pr_reviewer.Notify.{
  Finding, ReviewPolicy, security, high, restricted, review_ping, security_alert, route_finding,
  SensitivityScore, is_security, is_critical, is_inconclusive, is_high_sensitivity, score_of,
  ordinary,
}
use pr_reviewer.Notify.Dispatch.{
  NotificationChannel, NotificationPreview, dispatch_notifications, Seen, deliver_all, deliver,
  ChannelDelivery, SendResult, delivery,
}
use pr_reviewer.Notify.FanOut.{dispatch_again, dispatch_restricted, AllOk, world_after}
use pr_reviewer.Notify.Gate.{route_finding_lem}
use pr_reviewer.Notify.Isolation.{assert_job_isolation, IsIsolated, assert_job_isolation-IsIsolated}

abbrev finding : Finding
finding = record {
  concern = security;
  severity = high;
  file_path = "a.py";
  verified = true;
  public_safe = true;
}

abbrev policy : ReviewPolicy
policy = record { auto_post = true; public_posting = true }

abbrev scores : List (String × SensitivityScore)
scores = ("b.py", record { fix_density = 300_000; caller_count = 1; structural_flags = [] }) ∷ []

route_finding_lem_example :
    let d = route_finding finding policy scores none in
    ((d.allow_public_post ≡ true) ↔ (
      (policy.auto_post ≡ true)
      × (policy.public_posting ≡ true)
      × (finding.verified ≡ true)
      × (finding.public_safe ≡ true)
      × (is_security finding.concern && is_critical finding.severity ≡ false)
      × (is_inconclusive none ≡ false)
      × (holds is_high_sensitivity (score_of finding.file_path scores) ≡ false)))
    × (d.queue_for_human ≡ not d.allow_public_post)
    × (d.confidentiality ≡ restricted → d.allow_public_post ≡ false)
route_finding_lem_example = route_finding_lem finding policy scores none

abbrev channel : String → NotificationChannel
channel id = record {
  id = id;
  purpose = review_ping;
  confidentiality = restricted;
  revoked = false;
}

abbrev preview : NotificationPreview
preview = record { title = "Review"; body = "Done"; confidentiality = restricted }

abbrev send : NotificationChannel → NotificationPreview → ℕ → Option SendResult × ℕ
send c p sent = (some (record { is_ok = true; error_kind = none }), sent + 1)

abbrev two : List NotificationChannel
two = channel "a" ∷ channel "b" ∷ []

abbrev seen_both : Seen
seen_both = ("key", "b") ∷ ("key", "a") ∷ []

sent_both :
    dispatch_notifications send "key" preview two [] 0
    ≡ some (delivery "a" true none ∷ delivery "b" true none ∷ [], seen_both, 2)
unfolding dispatch_notifications deliver_all deliver
sent_both = refl

dispatch_again_example :
    (ds : List ChannelDelivery) × (dispatch_notifications send "key" preview two seen_both 2
      ≡ some (ds, seen_both, 2))
    × AllOk send "key" preview ds
dispatch_again_example = dispatch_again send "key" preview two [] 0 sent_both (refl, (refl, tt))

-- the world that tells the channels of what was sent
abbrev record_send :
    NotificationChannel
    → NotificationPreview
    → List NotificationChannel
    → Option SendResult × List NotificationChannel
record_send c p sent = (some (record { is_ok = true; error_kind = none }), c ∷ sent)

abbrev ordinary_channel : NotificationChannel
ordinary_channel = record (channel "c") { confidentiality = ordinary }

abbrev AllRestricted : List NotificationChannel → Type 0
AllRestricted = All (λ c. c.confidentiality ≡ restricted)

dispatch_restricted_example :
    let r = dispatch_notifications record_send "key" preview two [] [] in
    AllRestricted (world_after record_send "key" preview r []) × ((r ≡ none) ⊎ AllRestricted two)
dispatch_restricted_example =
    dispatch_restricted record_send "key" preview AllRestricted two [] [] (λ c w e h. (e, h)) refl
      tt

refused_mixed :
    dispatch_notifications record_send "key" preview (channel "a" ∷ ordinary_channel ∷ []) [] []
    ≡ none
unfolding dispatch_notifications
refused_mixed = refl

abbrev shared : List NotificationChannel
shared = record (channel "a") { purpose = security_alert } ∷ channel "a" ∷ channel "b" ∷ []

assert_job_isolation-IsIsolated_example : (assert_job_isolation shared ≡ none) ↔ IsIsolated shared
assert_job_isolation-IsIsolated_example = assert_job_isolation-IsIsolated shared
