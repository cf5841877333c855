-- ===== src/Worker/Executor/Examples.antt =====
-- A probe that is redirected once, and then to a scheme that it does not follow.
use inoculum.Shared.{◌+◌, ◌≤◌, String, true, false, some, List, [], ◌∷◌, length, All}
use inoculum.Text.Search.{codes}
use inoculum.Types.Wire.{HttpProbeOutput}
use inoculum.Worker.Executor.{new_executor, Url, Hop, redirect, redirect_limit, execute_http_probe}
use inoculum.Worker.Executor.Probing.{IsHarmless, execute_http_probe-sends}

abbrev page : Url
page = record {
  scheme = codes "https";
  host = "example.test";
  has_user = false;
  text = "https://example.test";
}

abbrev file : Url
file = record { scheme = codes "file"; host = ""; has_user = false; text = "file:///etc" }

abbrev no_text : HttpProbeOutput → String
no_text output = ""

abbrev two_redirects : List Hop
two_redirects = redirect page ∷ redirect file ∷ []

execute_http_probe-sends_example :
    All IsHarmless (execute_http_probe no_text new_executor 3 true (some page) two_redirects).0
    × (length (execute_http_probe no_text new_executor 3 true (some page) two_redirects).0
        ≤ redirect_limit new_executor + 1)
execute_http_probe-sends_example =
    execute_http_probe-sends no_text new_executor 3 true (some page) two_redirects
