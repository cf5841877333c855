-- ===== src/Coordinator/Soundness.antt =====
-- internal/coordinator: every handler returns, and keeps the queue and the event history sound.
use inoculum.Shared.{
  ℕ, ◌+◌, ◌≡◌, refl, sym, subst, ap, ◌∙◌, String, true, false, Option, none, some, List, [], ◌∷◌,
  arith, ok, err, ◌>>=◌, Result as Fallible, GoMap, Bool, if◌then◌else◌,
}
use inoculum.LeaseQueue.{Queue, requeue_expired}
use inoculum.LeaseQueue.Invariant.{IsValid}
use inoculum.LeaseQueue.History.{
  Follows, Follows-refl, Follows-trans, step, step_lem, requeues_expired,
}
use inoculum.Monitor.Model.{SystemEvent}
use inoculum.Monitor.Recorder.{Recorder, IsBounded, record_event-last, last-IsBounded}
use inoculum.Coordinator.Http.{Response}
use inoculum.Coordinator.Server.{Server, Clock, note, log_expired, expired_event}

-- The queue's invariant, and an event history within its bound.
pub record IsSound (s : Server) : Type 0 where
  pub queue : IsValid s.pull_queue
  pub events : IsBounded s.events

-- A history within the bound that another had.
pub record Extends (r r' : Recorder) : Type 0 where
  pub bounded : IsBounded r'
  pub limit : r'.limit ≡ r.limit

pub Extends-refl : (r : Recorder) → IsBounded r → Extends r r
Extends-refl r b = record { bounded = b; limit = refl }

Extends-trans : (r r' r'' : Recorder) → Extends r r' → Extends r' r'' → Extends r r''
Extends-trans r r' r'' e f = record { bounded = f.bounded; limit = f.limit ∙ e.limit }

-- What a handler keeps: the server is sound, its settings are the same, and its queue has only gone
-- on by calls that the queue allows.
pub record Keeps (s s' : Server) : Type 0 where
  pub sound : IsSound s'
  pub queue : Follows s.pull_queue s'.pull_queue
  pub room : s'.events.limit ≡ s.events.limit
  pub token : s'.token ≡ s.token
  pub since : s'.start_time ≡ s.start_time

pub Keeps-refl : (s : Server) → IsSound s → Keeps s s
Keeps-refl s d = record {
  sound = d;
  queue = Follows-refl s.pull_queue d.queue;
  room = refl;
  token = refl;
  since = refl;
}

pub Keeps-trans : (s s' s'' : Server) → Keeps s s' → Keeps s' s'' → Keeps s s''
Keeps-trans s s' s'' k l = record {
  sound = l.sound;
  queue = Follows-trans s.pull_queue s'.pull_queue s''.pull_queue k.queue l.queue;
  room = l.room ∙ k.room;
  token = l.token ∙ k.token;
  since = l.since ∙ k.since;
}

-- A sound server takes another queue that follows its own, other events within the bound, and any
-- workers.
pub change-Keeps :
    (s : Server) (q : Queue) (events : Recorder) (activity : GoMap ℕ)
    → Follows s.pull_queue q
    → Extends s.events events
    → Keeps s (record s { pull_queue = q; events = events; worker_activity = activity })
change-Keeps s q events activity f b = record {
  sound = record { queue = f.valid; events = b.bounded };
  queue = f;
  room = b.limit;
  token = refl;
  since = refl;
}

-- A handler's run: it returns a response, and the server after it.
unfoldable pub Serves {ℓ} : {R : Type ℓ} → Server → Option (Server × Response R) → Type ℓ
Serves {R = R} s m = (s' : Server) × (r : Response R) × (m ≡ some (s', r)) × Keeps s s'

module _ {ℓ} {R : Type ℓ} where
  pub Serves-bind {κ} :
      {A : Type κ} (s : Server) (m : Option A) (k : A → Option (Server × Response R)) {a : A}
      → m ≡ some a
      → Serves s (k a)
      → Serves s (m >>= k)
  unfolding Serves
  Serves-bind s m k e served = subst (λ o. Serves s (o >>= k)) (sym e) served

  pub Serves-after :
      (s s' : Server) (m : Option (Server × Response R)) → Keeps s s' → Serves s' m → Serves s m
  unfolding Serves
  Serves-after s s' m k (s'', r, runs, l) = (s'', r, runs, Keeps-trans s s' s'' k l)

  pub Serves-return : (s s' : Server) (r : Response R) → Keeps s s' → Serves s (some (s', r))
  unfolding Serves
  Serves-return s s' r k = (s', r, refl, k)

  pub Serves-same : (s : Server) (r : Response R) → IsSound s → Serves s (some (s, r))
  Serves-same s r d = Serves-return s s r (Keeps-refl s d)

  pub Serves-if :
      (s : Server) (b : Bool) (m n : Option (Server × Response R))
      → Serves s m
      → Serves s n
      → Serves s (if b then m else n)
  Serves-if s true m n served _ = served
  Serves-if s false m n _ served = served

  -- Both cases of a check that may fail.
  pub Serves-check {κ μ} :
      {E : Type κ} {A : Type μ} (s : Server) (x : Fallible E A)
      (f : E → Option (Server × Response R)) (g : A → Option (Server × Response R))
      → ((e : E) → Serves s (f e))
      → ((a : A) → Serves s (g a))
      → Serves s (elim x [ err e ↦ f e | ok a ↦ g a ])
  Serves-check s (err e) f g served _ = served e
  Serves-check s (ok a) f g _ served = served a

-- What a call of the queue returned, from what History says of the queue after it.
pub returned {ℓ} :
    {A : Type ℓ} (m : Option (Queue × A)) (q : Queue)
    → (m >>= λ r. some r.0) ≡ some q
    → (a : A) × (m ≡ some (q, a))
returned none q e = ground arith
returned (some (q', a)) q e = (a, ap (λ o. o >>= λ x. some (x, a)) e)

pub note_lem :
    (now : ℕ) (event : SystemEvent) (s : Server)
    → IsBounded s.events
    → (events : Recorder) × (note now event s ≡ some (record s { events = events }))
      × Extends s.events events
unfolding note
note_lem now event s b = (
  _,
  ap (λ o. o >>= λ events. some (record s { events = events }))
      (record_event-last now event s.events b),
  record { bounded = last-IsBounded s.events _ b.room; limit = refl },
)

pub log_expired_lem :
    (clock : Clock) (k : ℕ) (ids : List String) (s : Server)
    → IsBounded s.events
    → (events : Recorder) × (log_expired clock k ids s ≡ some (record s { events = events }))
      × Extends s.events events
unfolding log_expired
log_expired_lem clock k [] s b = (s.events, refl, Extends-refl s.events b)
log_expired_lem clock k (id ∷ ids) s b =
    let (events, runs, b') = note_lem (clock.event k) (expired_event id) s b in
    let (events', runs', b'') =
      log_expired_lem clock (k + 1) ids (record s { events = events }) b'.bounded in
    (
      events',
      ap (λ o. o >>= log_expired clock (k + 1) ids) runs ∙ runs',
      Extends-trans s.events events events' b' b'',
    )

-- RequeueExpired and the log of what it returns, as four handlers begin.
pub sweep_lem :
    (clock : Clock) (s : Server)
    → IsSound s
    → (q : Queue) × (expired : List String) × (events : Recorder) × (requeue_expired clock.sweep
          s.pull_queue
        ≡ some (q, expired))
      × (log_expired clock 0 expired (record s { pull_queue = q })
          ≡ some (record s { pull_queue = q; events = events }))
      × Follows s.pull_queue q
      × Extends s.events events
unfolding step
sweep_lem clock s d =
    let (q, stepped, f) = step_lem s.pull_queue (requeues_expired clock.sweep) d.queue in
    let (expired, runs) = returned (requeue_expired clock.sweep s.pull_queue) q stepped in
    let (events, logs, b) =
      log_expired_lem clock 0 expired (record s { pull_queue = q }) d.events in
    (q, expired, events, runs, logs, f, b)
