-- ===== src/Worker/Renewal.antt =====
-- internal/worker/pull.go: the replies that the worker reads, and renewLoop, which keeps a lease.
pub mod Intervals
use inoculum.Shared.{
  ℕ, ◌+◌, ◌*◌, ◌/◌, String, Bool, true, false, not, Option, none, some, List, [], ◌∷◌, ltb, eqb,
  if◌then◌else◌, ◌>>=◌, Result as Fallible, ok, err,
}
use inoculum.Shared.Int.{ℤ, pos, negsuc, pos_part}
use inoculum.Types.Wire.{PullStatus, PullTask}
use inoculum.Worker.Connection.{Connection, mark_unavailable, mark_connected}

-- What post returns: an error, or the status code with the decoded response.
abbrev pub Reply {ℓ} : Type ℓ → Type ℓ
Reply A = Fallible String (ℕ × A)

-- post, given what the client's Do returns and what the body decodes to.
pub post {ℓ} : {A : Type ℓ} → Fallible String (ℕ × Fallible String A) → Reply A
post (err e) = err e
post (ok (code, body)) =
    if eqb code 401
    then err "authentication rejected by coordinator"
    else elim body [ err e ↦ err e | ok response ↦ ok (code, response) ]

-- claim: the error is named by the code that it prints.
pub data ClaimError : Type 0 where
  unreachable : String → ClaimError
  claim_returned : ℕ → PullStatus → ClaimError

unfoldable pub claim :
    Reply (PullStatus × Option PullTask) → Fallible ClaimError (Option PullTask × PullStatus)
claim (err e) = err (unreachable e)
claim (ok (code, (status, task))) =
    if not (eqb code 200) then err (claim_returned code status) else ok (task, status)

-- renew and submitResult
unfoldable pub renew : Reply PullStatus → Fallible String PullStatus
renew (err e) = err e
renew (ok (code, status)) = if eqb code 401 then err "renew authentication failed" else ok status

pub submit_result : Reply PullStatus → Fallible String PullStatus
submit_result (err e) = err e
submit_result (ok (code, status)) =
    if eqb code 401 then err "result authentication failed" else ok status

-- The interval of the ticker, for what is left of the lease. Go's division of a time that is over
-- gives no more than zero.
pub renew_interval : ℤ → ℕ
renew_interval lease_length =
    let third = pos_part lease_length / 3 in
    let least = if ltb third (500 * 1000000) then 500 * 1000000 else third in
    if ltb (5 * 1000000000) least then 5 * 1000000000 else least

-- One wake-up of the select: the context is done, or a tick with the reply to a renewal, whether the
-- context is done behind it, and the clock.
pub data Wake : Type 0 where
  done : Wake
  tick : Fallible String PullStatus → Bool → ℕ → Wake

abbrev pub is_renewed : PullStatus → Bool
is_renewed PullStatus.lease_renewed = true
is_renewed _ = false

-- renewLoop: whether it goes on behind the wake-ups given, with the connection after them.
unfoldable pub renew_loop : ℕ → List Wake → Connection → Option (Connection × Bool)
renew_loop interval [] c = some (c, true)
renew_loop interval (done ∷ wakes) c = some (c, false)
renew_loop interval (tick (err e) cancelled now ∷ wakes) c =
    let again = mark_unavailable now e 1 interval c >>= renew_loop interval wakes in
    if cancelled then some (c, false) else again
renew_loop interval (tick (ok status) cancelled now ∷ wakes) c =
    let seen = mark_connected now c in
    let again = seen >>= renew_loop interval wakes in
    if is_renewed status then again else seen >>= λ c'. some (c', false)
