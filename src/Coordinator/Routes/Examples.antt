-- ===== src/Coordinator/Routes/Examples.antt =====
-- Requests to the routes with the token, with another one, and with none.
use inoculum.Shared.{ℕ, ◌≡◌, ◌⊎◌, Option, some, List, [], ◌∷◌}
use inoculum.Text.Search.{codes}
use inoculum.Auth.{Runes, with_bearer_auth}
use inoculum.Auth.Tokens.{Presents, bearer_header, with_bearer_auth_iff}
use inoculum.Coordinator.Requests.{Call, status}
use inoculum.Coordinator.Examples.{at_time}

-- Any function stands for SHA-256: the theorems hold for all.
abbrev same_text : Runes → Runes
same_text text = text

abbrev ask_status : Call
ask_status = status (at_time 9) 10 (record { method = "GET"; id = "" })

abbrev three_requests : List (List Runes × Call)
three_requests =
    (bearer_header (codes "secret") ∷ [], ask_status)
    ∷ (bearer_header (codes "guess") ∷ [], ask_status)
    ∷ ([], ask_status)
    ∷ []

abbrev next : ℕ → Option (ℕ × ℕ)
next s = some (s, 200)

with_bearer_auth_iff_example :
    (Presents same_text (7 ∷ []) (bearer_header (7 ∷ []) ∷ [])
      × (with_bearer_auth same_text (7 ∷ []) next 401 (bearer_header (7 ∷ []) ∷ []) 3 ≡ next 3))
    ⊎ ((¬ Presents same_text (7 ∷ []) (bearer_header (7 ∷ []) ∷ []))
        × (with_bearer_auth same_text (7 ∷ []) next 401 (bearer_header (7 ∷ []) ∷ []) 3
            ≡ some (3, 401)))
with_bearer_auth_iff_example =
    with_bearer_auth_iff same_text (7 ∷ []) next 401 (bearer_header (7 ∷ []) ∷ []) 3
