-- ===== src/Notify/Dispatch.antt =====
-- dispatch_notifications: the fan-out over the channels, with the caller's `send`, which may raise
-- (none), and the set of keys that were already delivered.
use pr_reviewer.Base.{
  [], ◌∷◌, Option, List, String, Bool, false, if◌then◌else◌, some, true, not, none, str_eq, ◌&&◌,
  ◌||◌,
}
use pr_reviewer.Notify.{Confidentiality, Purpose, restricted, ordinary}

pub record NotificationChannel : Type 0 where
  pub id : String
  pub purpose : Purpose
  pub confidentiality : Confidentiality
  pub revoked : Bool

pub record NotificationPreview : Type 0 where
  pub title : String
  pub body : String
  pub confidentiality : Confidentiality

pub record SendResult : Type 0 where
  pub is_ok : Bool
  pub error_kind : Option String

pub record ChannelDelivery : Type 0 where
  pub channel_id : String
  pub is_ok : Bool
  pub error_kind : Option String

abbrev pub is_restricted : Confidentiality → Bool
is_restricted restricted = true
is_restricted ordinary = false

abbrev pub Seen : Type 0
Seen = List (String × String)

-- (idempotency_key, channel.id) in remembered
abbrev pub has_seen : String → String → Seen → Bool
has_seen key c [] = false
has_seen key c ((k, d) ∷ rest) = (str_eq k key && str_eq d c) || has_seen key c rest

abbrev pub has_ordinary : List NotificationChannel → Bool
has_ordinary [] = false
has_ordinary (c ∷ cs) = not (is_restricted c.confidentiality) || has_ordinary cs

abbrev pub delivery : String → Bool → Option String → ChannelDelivery
delivery c is_ok error_kind = record { channel_id = c; is_ok = is_ok; error_kind = error_kind }

-- result.error_kind or "delivery_failed": an empty text counts as none
abbrev pub kind_or_failed : Option String → String
kind_or_failed none = "delivery_failed"
kind_or_failed (some kind) = if str_eq kind "" then "delivery_failed" else kind

module _ {World : Type 0}
    (send : NotificationChannel → NotificationPreview → World → Option SendResult × World)
    (key : String) (preview : NotificationPreview) where
  -- what the reply of `send` makes of one channel: its delivery, and the keys afterwards
  abbrev pub settle : NotificationChannel → Option SendResult → Seen → ChannelDelivery × Seen
  settle c none seen = (delivery c.id false (some "delivery_failed"), seen)
  settle c (some r) seen =
      if r.is_ok
      then (delivery c.id true none, (key, c.id) ∷ seen)
      else (delivery c.id false (some (kind_or_failed r.error_kind)), seen)

  -- one round of the loop
  unfoldable pub deliver : NotificationChannel → Seen → World → ChannelDelivery × Seen × World
  deliver c seen w =
      if c.revoked
      then (delivery c.id false (some "revoked"), seen, w)
      else if has_seen key c.id seen
      then (delivery c.id true (some "duplicate"), seen, w)
      else let (reply, w') = send c preview w in
        let (d, seen') = settle c reply seen in (d, seen', w')

  unfoldable pub deliver_all :
      List NotificationChannel → Seen → World → List ChannelDelivery × Seen × World
  deliver_all [] seen w = ([], seen, w)
  deliver_all (c ∷ cs) seen w =
      let (d, seen', w') = deliver c seen w in
      let (ds, seen'', w'') = deliver_all cs seen' w' in (d ∷ ds, seen'', w'')

  -- `none` is RestrictedContentRefused
  unfoldable pub dispatch_notifications :
      List NotificationChannel → Seen → World → Option (List ChannelDelivery × Seen × World)
  unfolding deliver_all
  dispatch_notifications channels seen w =
      if is_restricted preview.confidentiality && has_ordinary channels
      then none
      else some (deliver_all channels seen w)
