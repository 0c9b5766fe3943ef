-- ===== src/Notify/Isolation.antt =====
-- notifications/channels.py: one channel may carry both a security alert and a review ping only
-- when each of its declarations is restricted.
use mathlib.Core.List.{Memᴰ}
use pr_reviewer.Base.{
  refl, [], ◌∷◌, Bool, String, List, ◌&&◌, Option, false, true, ◌≡◌, if◌then◌else◌, not, none,
  str_eq, ◌||◌, some, arith, ◌↔◌, Bool-cases, str_eq_iff, str_eq_refl, inl, inr, ◌∙◌, sym,
}
use pr_reviewer.Notify.{restricted, Purpose, security_alert, review_ping}
use pr_reviewer.Notify.Dispatch.{NotificationChannel, is_restricted}

abbrev is_alert : Purpose → Bool
is_alert security_alert = true
is_alert review_ping = false

-- the declarations under one id, as the dict groups them
abbrev pub group_of : String → List NotificationChannel → List NotificationChannel
group_of id [] = []
group_of id (c ∷ cs) = let rest = group_of id cs in if str_eq c.id id then c ∷ rest else rest

abbrev any_channel : (NotificationChannel → Bool) → List NotificationChannel → Bool
any_channel p [] = false
any_channel p (c ∷ cs) = p c || any_channel p cs

-- purposes == {"security_alert", "review_ping"}, and some declaration that is not restricted
abbrev pub is_mixed : List NotificationChannel → Bool
is_mixed group =
    any_channel (λ c. is_alert c.purpose) group
    && (any_channel (λ c. not (is_alert c.purpose)) group
        && any_channel (λ c. not (is_restricted c.confidentiality)) group)

-- The first id whose group is refused. The dict has each id once, at its first place; a second
-- look at a group changes nothing.
unfoldable pub first_mixed : List NotificationChannel → List NotificationChannel → Option String
first_mixed all [] = none
first_mixed all (c ∷ cs) =
    let rest = first_mixed all cs in if is_mixed (group_of c.id all) then some c.id else rest

-- `some id` is the ChannelIsolationError for that channel
unfoldable pub assert_job_isolation : List NotificationChannel → Option String
assert_job_isolation channels = first_mixed channels channels

any_channel-group_of :
    (p : NotificationChannel → Bool) (id : String) (cs : List NotificationChannel)
    → any_channel p (group_of id cs) ≡ any_channel (λ c. str_eq c.id id && p c) cs
any_channel-group_of p id [] = refl
any_channel-group_of p id (c ∷ cs) = ground (arith, any_channel-group_of p id cs)

any_channel-mem :
    (p : NotificationChannel → Bool) (cs : List NotificationChannel) {c : NotificationChannel}
    → Memᴰ c cs
    → p c ≡ true
    → any_channel p cs ≡ true
any_channel-mem p [] m h = elim m [ ]
any_channel-mem p (x ∷ cs) {c} (Memᴰ.head e) h = let q : p x ≡ true = rw (← e) h in rw q refl
any_channel-mem p (x ∷ cs) (Memᴰ.tail m) h = ground (arith, any_channel-mem p cs m h)

any_channel-found :
    (p : NotificationChannel → Bool) (cs : List NotificationChannel)
    → any_channel p cs ≡ true
    → (c : NotificationChannel) × Memᴰ c cs × (p c ≡ true)
any_channel-found p [] h = absurd (ground arith)
any_channel-found p (c ∷ cs) h = elim (Bool-cases (p c)) [
  | inl e ↦ (c, Memᴰ.head refl, e)
  | inr e ↦ let (x, m, q) = any_channel-found p cs (ground arith) in (x, Memᴰ.tail m, q)
]

-- A channel that carries an alert and a ping has no declaration that is not restricted.
abbrev pub IsIsolated : List NotificationChannel → Type 0
IsIsolated cs =
    (a b c : NotificationChannel)
    → Memᴰ a cs
    → Memᴰ b cs
    → Memᴰ c cs
    → b.id ≡ a.id
    → c.id ≡ a.id
    → a.purpose ≡ security_alert
    → b.purpose ≡ review_ping
    → c.confidentiality ≡ restricted

first_mixed-none :
    (all cs : List NotificationChannel) {c : NotificationChannel}
    → first_mixed all cs ≡ none
    → Memᴰ c cs
    → is_mixed (group_of c.id all) ≡ false
unfolding first_mixed
first_mixed-none all [] h m = elim m [ ]
first_mixed-none all (x ∷ cs) {c} h m = elim (Bool-cases (is_mixed (group_of x.id all))) [
  | inl e ↦ absurd (ground arith)
  | inr e ↦ elim m [ Memᴰ.head q ↦ rw q e | Memᴰ.tail k ↦ first_mixed-none all cs (ground arith) k ]
]

first_mixed-of_none :
    (all cs : List NotificationChannel)
    → ((c : NotificationChannel) → Memᴰ c cs → is_mixed (group_of c.id all) ≡ false)
    → first_mixed all cs ≡ none
unfolding first_mixed
first_mixed-of_none all [] f = refl
first_mixed-of_none all (x ∷ cs) f =
    rw (f x (Memᴰ.head refl)) (first_mixed-of_none all cs (λ c m. f c (Memᴰ.tail m)))

in_group :
    (p : NotificationChannel → Bool) (id : String) (cs : List NotificationChannel)
    {c : NotificationChannel}
    → Memᴰ c cs
    → c.id ≡ id
    → p c ≡ true
    → any_channel p (group_of id cs) ≡ true
in_group p id cs {c} m e h =
    rw (any_channel-group_of p id cs)
      (any_channel-mem (λ c. str_eq c.id id && p c) cs m (ground (arith, str_eq_refl id)))

of_group :
    (p : NotificationChannel → Bool) (id : String) (cs : List NotificationChannel)
    → any_channel p (group_of id cs) ≡ true
    → (c : NotificationChannel) × Memᴰ c cs × (c.id ≡ id) × (p c ≡ true)
of_group p id cs h =
    let (c, m, q) =
      any_channel-found (λ c. str_eq c.id id && p c) cs (rw (← any_channel-group_of p id cs) h) in
    (c, m, ground (arith, str_eq_iff c.id id), ground arith)

-- The channels of a job are accepted exactly when no id that is declared for security alerts and
-- for review pings has a declaration that is not restricted.
pub assert_job_isolation-IsIsolated :
    (cs : List NotificationChannel) → (assert_job_isolation cs ≡ none) ↔ IsIsolated cs
unfolding assert_job_isolation
assert_job_isolation-IsIsolated cs = (
  λ h a b c ma mb mc eb ec pa pb. ground (
    arith,
    first_mixed-none cs cs h ma,
    in_group (λ x. is_alert x.purpose) a.id cs ma refl,
    in_group (λ x. not (is_alert x.purpose)) a.id cs mb eb,
    in_group (λ x. not (is_restricted x.confidentiality)) a.id cs mc ec,
  ),
  λ f. first_mixed-of_none cs cs (λ x m. elim (Bool-cases (is_mixed (group_of x.id cs))) [
    | inr e ↦ e
    | inl e ↦
        let (a, ma, ia, pa) = of_group (λ y. is_alert y.purpose) x.id cs (ground arith) in
        let (b, mb, ib, pb) = of_group (λ y. not (is_alert y.purpose)) x.id cs (ground arith) in
        let (c, mc, ic, pc) =
          of_group (λ y. not (is_restricted y.confidentiality)) x.id cs (ground arith) in
        let r = f a b c ma mb mc (ib ∙ sym ia) (ic ∙ sym ia) (ground arith) (ground arith) in
        absurd (ground arith)
  ]),
)
