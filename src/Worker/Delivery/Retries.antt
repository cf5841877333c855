-- ===== src/Worker/Delivery/Retries.antt =====
-- internal/worker/pull.go: a result is delivered with back-off until the coordinator answers.
use inoculum.Shared.{
  ℕ, zero, suc, ◌+◌, ◌≡◌, ◌≢◌, refl, String, true, false, some, List, [], ◌∷◌, arith, bind_to,
  Result as Fallible, ok, err, All, Bool-cases, inl, inr,
}
use inoculum.Types.Wire.{PullStatus}
use inoculum.Monitor.Model.{SystemEvent}
use inoculum.Monitor.Recorder.{IsBounded, record_event-last, last-IsBounded}
use inoculum.Monitor.Worker.{record_tracked}
use inoculum.Worker.Connection.{
  Connection, report, mark_unavailable, mark_connected, next_backoff, default_min_backoff,
}
use inoculum.Worker.Connection.Backoff.{delay_after}
use inoculum.Worker.Delivery.{
  Round, Ending, goes_on, abandoned, resolved, report_status, submit_result_until_resolved,
}

-- A connection whose event history is within its bound.
abbrev pub IsTracked : Connection → Type 0
IsTracked c = IsBounded c.monitor.events

-- What an event does: only the history changes.
pub report_lem :
    (now : ℕ) (event : SystemEvent) (c : Connection)
    → IsTracked c
    → (c' : Connection) × (report now event c ≡ some c')
      × IsTracked c'
      × (c'.ever_connected ≡ c.ever_connected)
      × (c'.unavailable ≡ c.unavailable)
unfolding report record_tracked
report_lem now event c b = (
  _,
  bind_to _ _ (bind_to _ _ (record_event-last now event c.monitor.events b) refl) refl,
  last-IsBounded c.monitor.events _ b.room,
  refl,
  refl,
)

mark_unavailable_lem :
    (now : ℕ) (e : String) (attempt delay : ℕ) (c : Connection)
    → IsTracked c
    → (c' : Connection) × (mark_unavailable now e attempt delay c ≡ some c')
      × IsTracked c'
      × (c'.ever_connected ≡ c.ever_connected)
      × (c'.unavailable ≡ true)
unfolding mark_unavailable
mark_unavailable_lem now e attempt delay c b = elim (Bool-cases c.unavailable) [
  | inl known ↦ rw known (_, refl, b, refl, refl)
  | inr new ↦ let (c', runs, b', ever, is) = report_lem now _ _ b in rw new (c', runs, b', ever, is)
]

mark_connected_lem :
    (now : ℕ) (c : Connection)
    → IsTracked c
    → (c' : Connection) × (mark_connected now c ≡ some c')
      × IsTracked c'
      × (c'.ever_connected ≡ true)
      × (c'.unavailable ≡ false)
unfolding mark_connected
mark_connected_lem now c b = elim (Bool-cases c.ever_connected) [
  | inr never ↦
      let (c', runs, b', ever, is) = report_lem now _ _ b in rw never (c', runs, b', ever, is)
  | inl before ↦ elim (Bool-cases c.unavailable) [
    | inl lost ↦
        let (c', runs, b', ever, is) = report_lem now _ _ b in
        rw (before, lost) (c', runs, b', ever, is)
    | inr up ↦ rw (before, up) (_, refl, b, refl, refl)
  ]
]

report_status_lem :
    (now : ℕ) (task_id : String) (status : PullStatus) (c : Connection)
    → IsTracked c
    → (c' : Connection) × (report_status now task_id status c ≡ some c')
      × IsTracked c'
      × (c'.ever_connected ≡ c.ever_connected)
      × (c'.unavailable ≡ c.unavailable)
unfolding report_status
report_status_lem now task_id PullStatus.task_completed c b = report_lem now _ c b
report_status_lem now task_id PullStatus.task_requeued c b = report_lem now _ c b
report_status_lem now task_id PullStatus.task_failed c b = report_lem now _ c b
report_status_lem now task_id PullStatus.task_available c b = (c, refl, b, refl, refl)
report_status_lem now task_id PullStatus.no_task c b = (c, refl, b, refl, refl)
report_status_lem now task_id PullStatus.lease_renewed c b = (c, refl, b, refl, refl)
report_status_lem now task_id PullStatus.stale_lease c b = (c, refl, b, refl, refl)
report_status_lem now task_id PullStatus.rejected c b = (c, refl, b, refl, refl)

-- A round in which the delivery fails, and one in which the coordinator answers, without a stop.
abbrev pub failing : ℕ × String → Round
failing (now, e) = record {
  stopped = false;
  reply = err e;
  stopped_after = false;
  waited = true;
  now = now;
}

abbrev pub answered : ℕ → PullStatus → Round
answered now status = record {
  stopped = false;
  reply = ok status;
  stopped_after = false;
  waited = true;
  now = now;
}

-- The delays from the one after `k` failures on.
abbrev pub delays : ℕ → ℕ → List ℕ
delays k zero = []
delays k (suc n) = delay_after k ∷ delays (suc k) n

-- The context is not done in this round.
abbrev pub IsLive : Round → Type 0
IsLive r = (r.stopped ≡ false) × (r.stopped_after ≡ false) × (r.waited ≡ true)

never_abandons :
    (task_id : String) (rounds : List Round) (backoff attempts : ℕ) (c : Connection)
    → IsTracked c
    → All IsLive rounds
    → (c' : Connection) × (ending : Ending) × (waits : List ℕ) × (submit_result_until_resolved
          task_id rounds backoff attempts c
        ≡ some (c', ending, waits))
      × (ending ≢ abandoned)
unfolding submit_result_until_resolved
never_abandons task_id [] backoff attempts c b live = (c, goes_on, [], refl, λ e. ground arith)
never_abandons task_id (r ∷ rounds) backoff attempts c b (l, live) =
    round r.reply
      (λ c' b'. never_abandons task_id rounds (next_backoff backoff) (attempts + 1) c' b' live)
  where
    round :
        (reply : Fallible String PullStatus)
        → ((c' : Connection)
            → IsTracked c'
            → (c'' : Connection) × (ending : Ending) × (waits : List ℕ)
              × (submit_result_until_resolved task_id rounds
                    (next_backoff backoff)
                    (attempts + 1)
                    c'
                  ≡ some (c'', ending, waits))
              × (ending ≢ abandoned))
        → (c'' : Connection) × (ending : Ending) × (waits : List ℕ) × (submit_result_until_resolved
              task_id
              (record r { reply = reply } ∷ rounds)
              backoff
              attempts
              c
            ≡ some (c'', ending, waits))
          × (ending ≢ abandoned)
    round (err e) rest =
        let (c₁, marks, b₁, _, _) = mark_unavailable_lem r.now e (attempts + 1) backoff c b in
        let (c₂, ending, waits, runs, kept) = rest c₁ b₁ in
        (
          c₂,
          ending,
          backoff ∷ waits,
          rw (l.0, l.1, l.2) (bind_to _ _ marks (bind_to _ _ runs refl)),
          kept,
        )
    round (ok status) rest =
        let (c₁, connects, b₁, _, _) = mark_connected_lem r.now c b in
        let (c₂, reports, b₂, _, _) = report_status_lem r.now task_id status c₁ b₁ in
        (
          c₂,
          resolved status,
          [],
          rw l.0 (bind_to _ _ connects (bind_to _ _ reports refl)),
          λ e. ground arith,
        )

-- A worker gives a result up without an answer only if its context is done: in any rounds without
-- that, the loop returns an answer or goes on, whatever the replies are.
pub submit_result_until_resolved-keeps :
    (task_id : String) (rounds : List Round) (c : Connection)
    → IsTracked c
    → All IsLive rounds
    → (c' : Connection) × (ending : Ending) × (waits : List ℕ) × (submit_result_until_resolved
          task_id rounds default_min_backoff 0 c
        ≡ some (c', ending, waits))
      × (ending ≢ abandoned)
submit_result_until_resolved-keeps task_id rounds c b live =
    never_abandons task_id rounds default_min_backoff 0 c b live
