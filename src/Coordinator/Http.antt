-- ===== src/Coordinator/Http.antt =====
-- internal/coordinator/server.go and pull.go: requests and responses, and the decoding of a body.
use inoculum.Shared.{ℕ, ◌*◌, String, Option, ltb, if◌then◌else◌, Result as Fallible, ok, err}
use inoculum.Shared.Json.{Document, malformed, value, end_of_file, another_value, garbage}
use inoculum.Types.Wire.{PullStatus, PullTask}
use inoculum.Types.Validation.{ValidationError}
use inoculum.Workload.{WorkloadError}
use inoculum.LeaseQueue.Tasks.{QueueError}

abbrev pub max_worker_request_bytes : ℕ
max_worker_request_bytes = 128 * 1024

-- A request with a body of JSON, and one with an id in its query ("" where there is none).
pub record Request {ℓ} (A : Type ℓ) : Type ℓ where
  pub method : String
  pub body : Document A

pub record Query : Type 0 where
  pub method : String
  pub id : String

-- A response by http.Error, and one by writeJSON (which sends status 200) or writeJSONStatus.
pub data Response {ℓ} (A : Type ℓ) : Type ℓ where
  plain : ℕ → String → Response A
  json : ℕ → A → Response A

-- The text of a message: what the source writes there, or the error whose text it is.
pub data Message : Type 0 where
  no_message : Message
  text : String → Message
  invalid : ValidationError → Message
  unsuitable : WorkloadError → Message
  refused : QueueError → Message
  keyed_tasks_require : String → Message

pub record PullClaimResponse : Type 0 where
  pub status : PullStatus
  pub task : Option PullTask
  pub message : Message

pub record PullRenewResponse : Type 0 where
  pub status : PullStatus
  pub lease_expires_at : Option ℕ
  pub message : Message

pub record PullResultResponse : Type 0 where
  pub status : PullStatus
  pub message : Message

pub data RequestError : Type 0 where
  too_large undecodable multiple_values trailing_garbage : RequestError

-- decodeJSONRequest. MaxBytesReader fails a read beyond `max_bytes`, and only a body that is read to
-- its end is accepted, so a longer body always fails.
unfoldable pub decode_json_request {ℓ} : {A : Type ℓ} → ℕ → Document A → Fallible RequestError A
decode_json_request max_bytes body =
    if ltb max_bytes body.size then err too_large else elim body.decoded [
      | malformed ↦ err undecodable
      | value x rest ↦ elim rest [
        | end_of_file ↦ ok x
        | another_value ↦ err multiple_values
        | garbage ↦ err trailing_garbage
      ]
    ]

abbrev pub method_not_allowed {ℓ} : {A : Type ℓ} → Response A
method_not_allowed = plain 405 "method not allowed"
