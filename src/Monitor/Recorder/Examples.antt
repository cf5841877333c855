-- ===== src/Monitor/Recorder/Examples.antt =====
-- A recorder with room for two events, after three.
use inoculum.Shared.{ℕ, ◌≡◌, refl, some, none, List, [], ◌∷◌, map, String}
use inoculum.Shared.Int.{pos}
use inoculum.Monitor.Model.{Severity, SystemEvent}
use inoculum.Monitor.Recorder.{
  Recorder, IsBounded, new_recorder, new_recorder-IsBounded, record_all, record_all-last, snapshot,
  last, stamped,
}

abbrev event : String → SystemEvent
event kind = record {
  time = none;
  severity = Severity.info;
  component = "coordinator";
  kind = kind;
  message = "";
  fields = [];
}

abbrev three_events : List (ℕ × SystemEvent)
three_events = (1, event "one") ∷ (2, event "two") ∷ (3, event "three") ∷ []

record_all-last_example :
    (r : Recorder) × (record_all three_events (new_recorder (pos 2)) ≡ some r)
    × (snapshot r ≡ last 2 (map stamped three_events))
    × (r.limit ≡ 2)
    × IsBounded r
record_all-last_example =
    record_all-last three_events (new_recorder (pos 2)) (new_recorder-IsBounded (pos 2))

kept_events : map (λ e. e.kind) (last 2 (map stamped three_events)) ≡ "two" ∷ "three" ∷ []
kept_events = refl
