-- ===== src/Notify/FanOut.antt =====
-- A fan-out answers for every channel, and a repeat of it sends nothing that has arrived.
use pr_reviewer.Base.{
  refl, [], ◌∷◌, Option, String, List, ◌≡◌, All, true, false, arith, some, str_eq_refl, none, ◌↔◌,
  Bool-cases, inl, inr, ◌&&◌, ◌⊎◌, subst, sym,
}
use pr_reviewer.Notify.Dispatch.{
  NotificationChannel, NotificationPreview, SendResult, Seen, deliver_all, deliver, has_seen,
  ChannelDelivery, dispatch_notifications, is_restricted, has_ordinary,
}
use pr_reviewer.Notify.{restricted}

module _ {World : Type 0}
    (send : NotificationChannel → NotificationPreview → World → Option SendResult × World)
    (key : String) (preview : NotificationPreview) where
  -- every delivery is a success
  abbrev pub AllOk : List ChannelDelivery → Type 0
  AllOk = All (λ d. d.is_ok ≡ true)

  deliver_grows :
      (c x : NotificationChannel) (seen : Seen) (w : World)
      → has_seen key x.id seen ≡ true
      → has_seen key x.id (deliver send key preview c seen w).1 ≡ true
  unfolding deliver
  deliver_grows c x seen w h = ground arith

  deliver_marks :
      (c : NotificationChannel) (seen : Seen) (w : World)
      → (deliver send key preview c seen w).0.is_ok ≡ true
      → (c.revoked ≡ false) × (has_seen key c.id (deliver send key preview c seen w).1 ≡ true)
  unfolding deliver
  deliver_marks c seen w h = ground (arith, str_eq_refl key, str_eq_refl c.id)

  deliver_all_grows :
      (cs : List NotificationChannel) (x : NotificationChannel) (seen : Seen) (w : World)
      → has_seen key x.id seen ≡ true
      → has_seen key x.id (deliver_all send key preview cs seen w).1 ≡ true
  unfolding deliver_all
  deliver_all_grows [] x seen w h = h
  deliver_all_grows (c ∷ cs) x seen w h =
      deliver_all_grows cs x (deliver send key preview c seen w).1
        (deliver send key preview c seen w).2 (deliver_grows c x seen w h)

  -- the channels that a repeat would skip
  abbrev Settled : Seen → List NotificationChannel → Type 0
  Settled seen = All (λ c. (c.revoked ≡ false) × (has_seen key c.id seen ≡ true))

  deliver_all-Settled :
      (cs : List NotificationChannel) (seen : Seen) (w : World)
      → AllOk (deliver_all send key preview cs seen w).0
      → Settled (deliver_all send key preview cs seen w).1 cs
  unfolding deliver_all
  deliver_all-Settled [] seen w h = tt
  deliver_all-Settled (c ∷ cs) seen w h =
      let m = deliver_marks c seen w h.0 in
      let s' = (deliver send key preview c seen w).1 in
      let w' = (deliver send key preview c seen w).2 in
      ((m.0, deliver_all_grows cs c s' w' m.1), deliver_all-Settled cs s' w' h.1)

  deliver_all_again :
      (cs : List NotificationChannel) (seen : Seen) (w : World)
      → Settled seen cs
      → AllOk (deliver_all send key preview cs seen w).0
        × ((deliver_all send key preview cs seen w).1 ≡ seen)
        × ((deliver_all send key preview cs seen w).2 ≡ w)
  unfolding deliver_all deliver
  deliver_all_again [] seen w h = (tt, refl, refl)
  deliver_all_again (c ∷ cs) seen w h =
      rw (h.0.0, h.0.1) (let r = deliver_all_again cs seen w h.1 in ((refl, r.0), r.1, r.2))

  -- When a fan-out has reached every channel, the same fan-out with the same key sends nothing: it
  -- reports a success for every channel again and leaves the world and the keys as they are.
  pub dispatch_again :
      (cs : List NotificationChannel) (seen : Seen) (w : World) {ds : List ChannelDelivery}
      {seen' : Seen} {w' : World}
      → dispatch_notifications send key preview cs seen w ≡ some (ds, seen', w')
      → AllOk ds
      → (ds' : List ChannelDelivery) × (dispatch_notifications send key preview cs seen' w'
          ≡ some (ds', seen', w'))
        × AllOk ds'
  unfolding dispatch_notifications
  dispatch_again cs seen w {ds} {seen'} {w'} h a =
      elim (Bool-cases (is_restricted preview.confidentiality && has_ordinary cs)) [
        | inl q ↦ let r = rw q at h in cc
        | inr q ↦
            let r = rw q at h in
            let e : (deliver_all send key preview cs seen w) ≡ (ds, seen', w') = ground arith in
            let s' : Settled seen' cs = rw e at (deliver_all-Settled cs seen w (rw e a)) in
            let g = deliver_all_again cs seen' w' s' in
            ((deliver_all send key preview cs seen' w').0, rw q (ground (arith, g)), g.0)
      ]

  has_ordinary-All :
      (cs : List NotificationChannel)
      → (has_ordinary cs ≡ false) ↔ All (λ c. c.confidentiality ≡ restricted) cs
  has_ordinary-All [] = (λ _. tt, λ _. refl)
  has_ordinary-All (c ∷ cs) =
      let r = has_ordinary-All cs in
      (λ h. (ground arith, r.0 (ground arith)), λ h. let q = r.1 h.1 in ground arith)

  -- the world after a call; one that raises has sent nothing
  abbrev pub world_after : Option (List ChannelDelivery × Seen × World) → World → World
  world_after none w = w
  world_after (some r) w = r.2

  -- `P` is kept by a send of the preview to a restricted channel
  abbrev pub KeptByRestricted : (World → Type 0) → Type 0
  KeptByRestricted P =
      (c : NotificationChannel) (w : World)
      → c.confidentiality ≡ restricted
      → P w
      → P (send c preview w).1

  deliver_world :
      (c : NotificationChannel) (seen : Seen) (w : World)
      → ((deliver send key preview c seen w).2 ≡ w)
        ⊎ ((deliver send key preview c seen w).2 ≡ (send c preview w).1)
  unfolding deliver
  deliver_world c seen w = ground arith

  deliver_all-keeps :
      (P : World → Type 0) (cs : List NotificationChannel) (seen : Seen) (w : World)
      → KeptByRestricted P
      → All (λ c. c.confidentiality ≡ restricted) cs
      → P w
      → P (deliver_all send key preview cs seen w).2
  unfolding deliver_all
  deliver_all-keeps P [] seen w k a h = h
  deliver_all-keeps P (c ∷ cs) seen w k a h =
      let w' = (deliver send key preview c seen w).2 in
      let h' : P w' = elim (deliver_world c seen w) [
        | inl e ↦ subst P (sym e) h
        | inr e ↦ subst P (sym e) (k c w a.0 h)
      ] in
      deliver_all-keeps P cs (deliver send key preview c seen w).1 w' k a.1 h'

  -- A fan-out of restricted content sends to restricted channels only: whatever such sends keep true
  -- of the world holds after it, though sends to other channels may break it. This is so also where
  -- an ordinary channel stands behind restricted ones: then nothing is sent at all.
  pub dispatch_restricted :
      (P : World → Type 0) (cs : List NotificationChannel) (seen : Seen) (w : World)
      → KeptByRestricted P
      → preview.confidentiality ≡ restricted
      → P w
      → let r = dispatch_notifications send key preview cs seen w in
        P (world_after r w) × ((r ≡ none) ⊎ All (λ c. c.confidentiality ≡ restricted) cs)
  unfolding dispatch_notifications
  dispatch_restricted P cs seen w k e h =
      let g : is_restricted preview.confidentiality ≡ true = ground arith in
      elim (Bool-cases (has_ordinary cs)) [
        | inl q ↦ rw (g, q) (h, inl refl)
        | inr q ↦
            let a = (has_ordinary-All cs).0 q in
            rw (g, q) (deliver_all-keeps P cs seen w k a h, inr a)
      ]
