-- ===== src/Tests/Daemon.antt =====
-- Control planes with one job: one that takes a result only under the token of a fresh claim, one that
-- takes every result, and one that takes none.
use mathlib.Core.List.{Memᴰ}
use pr_reviewer.Base.{
  refl, Bool, ℕ, true, ◌==◌, arith, some, ◌≡◌, str_eq, ◌≢◌, false, subst, [], ap, ◌||◌, sym, ◌∷◌,
  String,
}
use pr_reviewer.Daemon.{
  Surroundings, Machine, ClaimAnswer, AckAnswer, answered, accepted, unreachable, protocol_denied,
}
use pr_reviewer.Jobs.Runner.{active, no_job, envelope}
use pr_reviewer.Daemon.Drained.{IsReachable}
use pr_reviewer.Daemon.Numbered.{IsNumbered, Tracks}
use pr_reviewer.Daemon.Loops.{replay_pending_acknowledgements}
use pr_reviewer.Tests.LocalStore.{result, local_store, envelope_of}
use pr_reviewer.Daemon.Steps.{
  complete_job, land_pending_result, refresh_credential, mark_pending_terminal,
}
use pr_reviewer.LocalStore.Pending.{resolve, list_pending, record_pending, pending_row}
use pr_reviewer.LocalStore.Jobs.{mark_completed, record_claimed}
use pr_reviewer.LocalStore.{PendingAcknowledgementReason, PendingAcknowledgement}
use pr_reviewer.Daemon.Landed.{replay-Stored, IsLanded}
use pr_reviewer.Daemon.Logged.{logged, Log, acknowledged, Event}

-- whether a result of job 7 was accepted
abbrev done : Bool → ℕ → Bool → AckAnswer × Bool
done true i w = (accepted, i == 7 || w)
done false i w = (protocol_denied, w)

abbrev claim_seven : Bool → ClaimAnswer
claim_seven true = answered no_job
claim_seven false = answered (envelope (envelope_of 7 3 "fresh"))

claim_seven-reached : (w : Bool) → claim_seven w ≢ unreachable
claim_seven-reached true e = absurd cc
claim_seven-reached false e = absurd cc

-- `takes` says under which tokens a result is taken
abbrev plane_by : (takes : String → Bool) → Surroundings Bool
plane_by takes = record {
  claim = λ w. (claim_seven w, w);
  heartbeat = λ i t w. (some active, w);
  acknowledge = λ i t r w. done (takes t) i w;
  set_credential = λ x w. w;
  credential = some (λ w. some "key");
  review = some (λ e w. (some result, w));
  now = λ w. 6;
  is_stopping = λ w. false;
  clear_stop = λ w. w;
  wait = λ w. w;
}

abbrev plane : Surroundings Bool
plane = plane_by (λ t. str_eq t "fresh")

abbrev machine : Machine Bool
machine = record { store = local_store; stop_new_work = false; world = false }

-- the jobs of the numbers 0 and 1
Tracks-first : Tracks 0 7 local_store
Tracks-first = record { given = ground arith; job = first_job }
  where
    first_job :
        (q : PendingAcknowledgement)
        → Memᴰ q local_store.pending_acknowledgements
        → q.id ≡ 0
        → q.job_id ≡ 7
    first_job q (Memᴰ.head e) h = ap (λ y. y.job_id) e
    first_job q (Memᴰ.tail (Memᴰ.head e)) h =
        let k : q.id ≡ 1 = ap (λ y. y.id) e in absurd (ground (arith, h, k))
    first_job q (Memᴰ.tail (Memᴰ.tail i)) h = elim i [ ]

Tracks-second : Tracks 1 6 local_store
Tracks-second = record { given = ground arith; job = second_job }
  where
    second_job :
        (q : PendingAcknowledgement)
        → Memᴰ q local_store.pending_acknowledgements
        → q.id ≡ 1
        → q.job_id ≡ 6
    second_job q (Memᴰ.head e) h =
        let k : q.id ≡ 0 = ap (λ y. y.id) e in absurd (ground (arith, h, k))
    second_job q (Memᴰ.tail (Memᴰ.head e)) h = ap (λ y. y.job_id) e
    second_job q (Memᴰ.tail (Memᴰ.tail i)) h = elim i [ ]

local_store-IsNumbered : IsNumbered local_store
local_store-IsNumbered p (Memᴰ.head e) =
    subst (λ x. Tracks x.id x.job_id local_store) (sym e) Tracks-first
local_store-IsNumbered p (Memᴰ.tail (Memᴰ.head e)) =
    subst (λ x. Tracks x.id x.job_id local_store) (sym e) Tracks-second
local_store-IsNumbered p (Memᴰ.tail (Memᴰ.tail i)) = elim i [ ]

-- the runner with a log
abbrev logging : Machine (Bool × Log)
logging = record { store = local_store; stop_new_work = false; world = (false, []) }

-- the result is denied under the old token, kept, and landed under the fresh one
landed :
    (complete_job (logged plane) 7 "t7" result logging).1.store.pending_acknowledgements
    ≡ pending_row 1 3 6 "t6" result PendingAcknowledgementReason.invalid_or_expired ∷ []
unfolding complete_job land_pending_result refresh_credential mark_pending_terminal resolve
    list_pending mark_completed record_claimed record_pending
landed = refl

abbrev open_plane : Surroundings Bool
open_plane = plane_by (λ t. true)

open_plane-IsReachable : IsReachable open_plane
open_plane-IsReachable = record { claims = claim_seven-reached; accepts = λ i t r w. refl }

-- a plane that denies every acknowledgement, and hands out job 7
abbrev closed_plane : Surroundings Bool
closed_plane = plane_by (λ t. false)

-- the result of job 9 is given up for the claim's answer
released_by_other :
    (complete_job (logged closed_plane) 9 "t9" result logging).1.world.1
    ≡ Event.claimed (answered (envelope (envelope_of 7 3 "fresh")))
      ∷ acknowledged 9 result protocol_denied
      ∷ []
unfolding complete_job land_pending_result refresh_credential
released_by_other = refl

-- the first replayed is job 6, whose lease was lost: the claim is answered with job 7
replay-Stored_example :
    let m' = replay_pending_acknowledgements (logged open_plane) logging in
    IsLanded PendingAcknowledgementReason.invalid_or_expired 6 result m'.world.1
    × (m'.store.pending_acknowledgements ≡ [])
replay-Stored_example =
    replay-Stored open_plane open_plane-IsReachable
      (pending_row 1 3 6 "t6" result PendingAcknowledgementReason.invalid_or_expired) local_store
      false false local_store-IsNumbered (Memᴰ.tail (Memᴰ.head refl))
