-- ===== src/Worker/Slots/Counting.antt =====
-- What a slot shows of its work: which tasks it runs, and how many it has finished.
use inoculum.Shared.{
  ℕ, ◌+◌, ◌≡◌, refl, sym, ap, ◌∙◌, String, Bool, true, false, not, Option, none, some, List, [],
  ◌∷◌, if◌then◌else◌, ◌>>=◌, arith, bind_to, Result as Fallible, ok, err,
}
use inoculum.Types.Wire.{PullStatus}
use inoculum.Monitor.Model.{SystemEvent}
use inoculum.Monitor.Recorder.{record_event}
use inoculum.Monitor.Worker.{connected, unavailable, record_tracked}
use inoculum.Worker.Connection.{Connection, report, mark_unavailable, mark_connected, next_backoff}
use inoculum.Worker.Delivery.{
  Ending, goes_on, abandoned, resolved, report_status, submit_result_until_resolved,
}
use inoculum.Worker.Delivery.Retries.{IsTracked, report_lem}
use inoculum.Worker.Renewal.{Wake, done, tick, is_renewed, renew_loop}
use inoculum.Worker.Slots.{Beat, renewal, delivery, side_by_side}

-- The two connections show the same work: the active tasks, and the numbers of finished ones.
pub record SameWork (c c' : Connection) : Type 0 where
  pub active : c'.monitor.snapshot.active_tasks ≡ c.monitor.snapshot.active_tasks
  pub completed : c'.monitor.snapshot.completed ≡ c.monitor.snapshot.completed
  pub failed : c'.monitor.snapshot.failed ≡ c.monitor.snapshot.failed

pub SameWork-refl : (c : Connection) → SameWork c c
SameWork-refl c = record { active = refl; completed = refl; failed = refl }

pub SameWork-trans : (a b c : Connection) → SameWork a b → SameWork b c → SameWork a c
SameWork-trans a b c h k = record {
  active = k.active ∙ h.active;
  completed = k.completed ∙ h.completed;
  failed = k.failed ∙ h.failed;
}

pub some_inj {ℓ} : {A : Type ℓ} {a b : A} → some a ≡ some b → a ≡ b
some_inj h = cc

-- A call that returns, on a connection with a bounded history, and shows the same work then.
abbrev pub QuietBy : {X : Type 0} → (X → Connection) → Connection → Option X → Type 0
QuietBy {X = X} part c m =
    IsTracked c → (x : X) × (m ≡ some x) × IsTracked (part x) × SameWork c (part x)

abbrev pub itself : Connection → Connection
itself c = c

abbrev pub Quiet : Connection → Option Connection → Type 0
Quiet c m = QuietBy itself c m

report-SameWork :
    (now : ℕ) (event : SystemEvent) (c c' : Connection)
    → report now event c ≡ some c'
    → SameWork c c'
unfolding report record_tracked
report-SameWork now event c c' h = recorded (record_event now event c.monitor.events) h
  where
    recorded :
        (m : Option _)
        → ((m >>= λ events. some (record (c.monitor) { events = events })) >>= λ monitor.
            some (record c { monitor = monitor }))
          ≡ some c'
        → SameWork c c'
    recorded none h = absurd (ground (arith, h))
    recorded (some events) h =
        let e = some_inj h in
        record {
          active = ap (λ x. x.monitor.snapshot.active_tasks) (sym e);
          completed = ap (λ x. x.monitor.snapshot.completed) (sym e);
          failed = ap (λ x. x.monitor.snapshot.failed) (sym e);
        }

pub report-Quiet : (now : ℕ) (event : SystemEvent) (c : Connection) → Quiet c (report now event c)
report-Quiet now event c b =
    let (c', runs, b', _, _) = report_lem now event c b in
    (c', runs, b', report-SameWork now event c c' runs)

some-QuietBy :
    {X : Type 0} (part : X → Connection) (c : Connection) (x : X)
    → SameWork c (part x)
    → (IsTracked c → IsTracked (part x))
    → QuietBy part c (some x)
some-QuietBy part c x same keeps b = (x, refl, keeps b, same)

-- After a change that shows the same work.
from-Quiet :
    (c c₁ : Connection) (m : Option Connection)
    → SameWork c c₁
    → (IsTracked c → IsTracked c₁)
    → Quiet c₁ m
    → Quiet c m
from-Quiet c c₁ m same keeps q b =
    let (c', runs, b', s) = q (keeps b) in (c', runs, b', SameWork-trans c c₁ c' same s)

pub bind-QuietBy :
    {X Y : Type 0} (part : X → Connection) (part' : Y → Connection) (c : Connection) (m : Option X)
    (k : X → Option Y)
    → QuietBy part c m
    → ((x : X) → QuietBy part' (part x) (k x))
    → QuietBy part' c (m >>= k)
bind-QuietBy part part' c m k q r b =
    let (x, runs, b', s) = q b in
    let (y, later, b'', t) = r x b' in
    (y, bind_to m k runs later, b'', SameWork-trans c (part x) (part' y) s t)

if-QuietBy :
    {X : Type 0} (part : X → Connection) (b : Bool) (c : Connection) (m n : Option X)
    → QuietBy part c m
    → QuietBy part c n
    → QuietBy part c (if b then m else n)
if-QuietBy part true c m n q r = q
if-QuietBy part false c m n q r = r

pub mark_unavailable-Quiet :
    (now : ℕ) (e : String) (attempt delay : ℕ) (c : Connection)
    → Quiet c (mark_unavailable now e attempt delay c)
unfolding mark_unavailable unavailable
mark_unavailable-Quiet now e attempt delay c =
    if-QuietBy itself c.unavailable c _ _
      (some-QuietBy itself c _ (record { active = refl; completed = refl; failed = refl }) (λ b. b))
      (from-Quiet c _ _ (record { active = refl; completed = refl; failed = refl }) (λ b. b)
        (report-Quiet now _ _))

pub mark_connected-Quiet : (now : ℕ) (c : Connection) → Quiet c (mark_connected now c)
unfolding mark_connected connected
mark_connected-Quiet now c =
    if-QuietBy itself (not c.ever_connected) c _ _
      (from-Quiet c _ _ (record { active = refl; completed = refl; failed = refl }) (λ b. b)
        (report-Quiet now _ _))
      (if-QuietBy itself c.unavailable c _ _
        (from-Quiet c _ _ (record { active = refl; completed = refl; failed = refl }) (λ b. b)
          (report-Quiet now _ _))
        (some-QuietBy itself c _ (record { active = refl; completed = refl; failed = refl })
          (λ b. b)))

report_status-Quiet :
    (now : ℕ) (task_id : String) (status : PullStatus) (c : Connection)
    → Quiet c (report_status now task_id status c)
unfolding report_status
report_status-Quiet now task_id PullStatus.task_completed c = report-Quiet now _ c
report_status-Quiet now task_id PullStatus.task_requeued c = report-Quiet now _ c
report_status-Quiet now task_id PullStatus.task_failed c = report-Quiet now _ c
report_status-Quiet now task_id PullStatus.task_available c =
    some-QuietBy itself c c (SameWork-refl c) (λ b. b)
report_status-Quiet now task_id PullStatus.no_task c =
    some-QuietBy itself c c (SameWork-refl c) (λ b. b)
report_status-Quiet now task_id PullStatus.lease_renewed c =
    some-QuietBy itself c c (SameWork-refl c) (λ b. b)
report_status-Quiet now task_id PullStatus.stale_lease c =
    some-QuietBy itself c c (SameWork-refl c) (λ b. b)
report_status-Quiet now task_id PullStatus.rejected c =
    some-QuietBy itself c c (SameWork-refl c) (λ b. b)

abbrev pub of_renewal : Connection × Bool → Connection
of_renewal r = r.0

pub renew_loop-QuietBy :
    (interval : ℕ) (wakes : List Wake) (c : Connection)
    → QuietBy of_renewal c (renew_loop interval wakes c)
unfolding renew_loop
renew_loop-QuietBy interval [] c = some-QuietBy of_renewal c _ (SameWork-refl c) (λ b. b)
renew_loop-QuietBy interval (done ∷ wakes) c =
    some-QuietBy of_renewal c _ (SameWork-refl c) (λ b. b)
renew_loop-QuietBy interval (tick (err e) cancelled now ∷ wakes) c =
    if-QuietBy of_renewal cancelled c _ _ (some-QuietBy of_renewal c _ (SameWork-refl c) (λ b. b)) (
      bind-QuietBy itself of_renewal c _ _ (mark_unavailable-Quiet now e 1 interval c)
        (renew_loop-QuietBy interval wakes))
renew_loop-QuietBy interval (tick (ok status) cancelled now ∷ wakes) c =
    if-QuietBy of_renewal (is_renewed status) c _ _
      (bind-QuietBy itself of_renewal c _ _ (mark_connected-Quiet now c)
        (renew_loop-QuietBy interval wakes))
      (bind-QuietBy itself of_renewal c _ _ (mark_connected-Quiet now c)
        (λ c'. some-QuietBy of_renewal c' _ (SameWork-refl c') (λ b. b)))

abbrev pub of_delivery : Connection × Ending × List ℕ → Connection
of_delivery r = r.0

one_round-QuietBy :
    (task_id : String) (stopped : Bool) (reply : Fallible String PullStatus)
    (stopped_after waited : Bool) (now backoff attempts : ℕ) (c : Connection)
    → QuietBy of_delivery c (
        submit_result_until_resolved task_id
          (record {
            stopped = stopped;
            reply = reply;
            stopped_after = stopped_after;
            waited = waited;
            now = now;
          }
            ∷ [])
          backoff
          attempts
          c)
unfolding submit_result_until_resolved
one_round-QuietBy task_id stopped (err e) stopped_after waited now backoff attempts c =
    let failed = mark_unavailable-Quiet now e (attempts + 1) backoff c in
    if-QuietBy of_delivery stopped c _ _ (some-QuietBy of_delivery c _ (SameWork-refl c) (λ b. b)) (
      if-QuietBy of_delivery stopped_after c _ _
        (some-QuietBy of_delivery c _ (SameWork-refl c) (λ b. b))
        (if-QuietBy of_delivery waited c _ _
          (bind-QuietBy itself of_delivery c _ _ failed
            (λ c'. some-QuietBy of_delivery c' _ (SameWork-refl c') (λ b. b)))
          (bind-QuietBy itself of_delivery c _ _ failed
            (λ c'. some-QuietBy of_delivery c' _ (SameWork-refl c') (λ b. b)))))
one_round-QuietBy task_id stopped (ok status) stopped_after waited now backoff attempts c =
    if-QuietBy of_delivery stopped c _ _ (some-QuietBy of_delivery c _ (SameWork-refl c) (λ b. b)) (
      bind-QuietBy itself of_delivery c _ _ (mark_connected-Quiet now c) (λ c'.
        bind-QuietBy itself of_delivery c' _ _ (report_status-Quiet now task_id status c')
          (λ c''. some-QuietBy of_delivery c'' _ (SameWork-refl c'') (λ b. b))))

abbrev pub of_claim : Connection × Ending → Connection
of_claim r = r.0

ending-QuietBy :
    (c : Connection) (ending : Ending) (again : Option (Connection × Ending))
    → QuietBy of_claim c again
    → QuietBy of_claim c (elim ending [
      | goes_on ↦ again
      | abandoned ↦ some (c, abandoned)
      | resolved status ↦ some (c, resolved status)
    ])
ending-QuietBy c goes_on again q = q
ending-QuietBy c abandoned again q = some-QuietBy of_claim c _ (SameWork-refl c) (λ b. b)
ending-QuietBy c (resolved status) again q = some-QuietBy of_claim c _ (SameWork-refl c) (λ b. b)

pub side_by_side-QuietBy :
    (task_id : String) (interval : ℕ) (renewing : Bool) (beats : List Beat) (backoff attempts : ℕ)
    (c : Connection)
    → QuietBy of_claim c (side_by_side task_id interval renewing beats backoff attempts c)
unfolding side_by_side
side_by_side-QuietBy task_id interval renewing [] backoff attempts c =
    some-QuietBy of_claim c _ (SameWork-refl c) (λ b. b)
side_by_side-QuietBy task_id interval true (renewal wake ∷ beats) backoff attempts c =
    bind-QuietBy of_renewal of_claim c _ _ (renew_loop-QuietBy interval (wake ∷ []) c)
      (λ r. side_by_side-QuietBy task_id interval r.1 beats backoff attempts r.0)
side_by_side-QuietBy task_id interval false (renewal wake ∷ beats) backoff attempts c =
    side_by_side-QuietBy task_id interval false beats backoff attempts c
side_by_side-QuietBy task_id interval renewing (delivery r ∷ beats) backoff attempts c =
    bind-QuietBy of_delivery of_claim c _ _
      (one_round-QuietBy task_id r.stopped r.reply r.stopped_after r.waited r.now backoff attempts
        c)
      (λ x. ending-QuietBy x.0 x.1 _ (
        side_by_side-QuietBy task_id interval renewing beats (next_backoff backoff) (attempts + 1)
          x.0))
