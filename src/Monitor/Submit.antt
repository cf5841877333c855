-- ===== src/Monitor/Submit.antt =====
-- internal/monitor/submit.go: what a submitting client shows. Each method holds the tracker's mutex.
use inoculum.Shared.{ℕ, String, Bool, true, false, ◌&&◌, not, Option, none, some, [], if◌then◌else◌}
use inoculum.Shared.Int.{pos, sub_ℕ}
use inoculum.Types.Wire.{PullJobResponse}
use inoculum.Monitor.Model.{JobProgress, SubmitSnapshot}
use inoculum.Monitor.Job.{job_from_response}

pub record SubmitTracker : Type 0 where
  pub snapshot : SubmitSnapshot
  pub started_at : Option ℕ

abbrev waiting_job : String → String → ℕ → Option ℕ → JobProgress
waiting_job job_id state total started_at = record {
  job_id = job_id;
  state = state;
  total = total;
  queued = total;
  running = 0;
  completed = 0;
  failed = 0;
  started_at = started_at;
  elapsed = pos 0;
  tasks = [];
  workers = [];
}

pub new_submit_tracker : ℕ → SubmitTracker
new_submit_tracker total = record {
  snapshot = record {
    observed_at = none;
    submitted = false;
    done = false;
    timed_out = false;
    job = waiting_job "" "submitting" total none;
    error = "";
  };
  started_at = none;
}

unfoldable pub submitted : String → ℕ → ℕ → SubmitTracker → SubmitTracker
submitted job_id total now t = record {
  snapshot = record (t.snapshot) {
    submitted = true;
    job = waiting_job job_id "queued" total (some now);
  };
  started_at = some now;
}

unfoldable pub update : PullJobResponse → ℕ → SubmitTracker → SubmitTracker × JobProgress
update response now t =
    let job = job_from_response response t.started_at now in
    (record t { snapshot = record (t.snapshot) { submitted = true; job = job } }, job)

pub finish : Option String → Bool → SubmitTracker → SubmitTracker
finish error timed_out t = record t {
  snapshot = record (t.snapshot) {
    done = true;
    timed_out = timed_out;
    error = elim error [ none ↦ t.snapshot.error | some e ↦ e ];
  };
}

pub snapshot : ℕ → SubmitTracker → SubmitSnapshot
snapshot now t =
    let s = record (t.snapshot) { observed_at = some now } in
    elim t.started_at [
      | none ↦ s
      | some started ↦
          if s.submitted && not s.done
          then record s { job = record (s.job) { elapsed = sub_ℕ now started } }
          else s
    ]
