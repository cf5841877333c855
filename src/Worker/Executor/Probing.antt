-- ===== src/Worker/Executor/Probing.antt =====
-- Where a probe's requests go, and how many there are.
use inoculum.Shared.{
  ℕ, ◌+◌, ◌≡◌, ◌≤◌, refl, sym, ap, ◌∙◌, String, ◌==◌, Bool, true, false, not, Option, none, some,
  List, [], ◌∷◌, map, length, All, ltb, if◌then◌else◌, arith, Result as Fallible, ok, err, passed,
  ok_inj,
}
use inoculum.Types.Wire.{HttpProbeOutput}
use inoculum.Auth.{lower}
use inoculum.Worker.Executor.{
  Executor, Url, is_http, Blame, validate_probe_url, ProbeError, redirect_limit, check_redirect,
  Hop, failure, redirect, response, Ending, onward, follow, send_probe, execute_http_probe,
}

-- A request goes by HTTP or HTTPS, and carries no credentials.
pub record IsHarmless (url : Url) : Type 0 where
  pub scheme : is_http url.scheme ≡ true
  pub anonymous : url.has_user ≡ false

guarded :
    {A : Type 0} (bad : Bool) (e : A) (o : Option A)
    → (if bad then some e else o) ≡ none
    → (bad ≡ false) × (o ≡ none)
guarded true e o h = absurd (ground (arith, h))
guarded false e o h = (refl, h)

test_off : (b : Bool) → not b ≡ false → b ≡ true
test_off true h = refl
test_off false h = absurd (ground (arith, h))

-- What CheckRedirect lets through.
check_redirect-none :
    (limit via : ℕ) (url : Url)
    → check_redirect limit via url ≡ none
    → (ltb limit via ≡ false) × IsHarmless url
unfolding check_redirect
check_redirect-none limit via url h =
    let (few, h₁) = guarded (ltb limit via) _ _ h in
    let (scheme, h₂) = guarded (not (is_http url.scheme)) _ _ h₁ in
    let (anonymous, _) = guarded url.has_user _ _ h₂ in
    (few, record { scheme = test_off _ scheme; anonymous = anonymous })

-- The requests of one chain of redirects.
Sends : ℕ → ℕ → List Url × Ending → Type 0
Sends limit via (urls, ending) = All IsHarmless urls × (length urls + via ≤ limit + 1)

onward-Sends :
    (limit via : ℕ) (url next : Url) (o : Option ProbeError) (rest : List Url × Ending)
    → check_redirect limit (via + 1) next ≡ o
    → IsHarmless url
    → via ≤ limit
    → (IsHarmless next → via + 1 ≤ limit → Sends limit (via + 1) rest)
    → Sends limit via (onward url o rest)
unfolding Sends
onward-Sends limit via url next (some e) rest is harmless few later = ((harmless, tt), omega arith)
onward-Sends limit via url next none (urls, ending) is harmless few later =
    let (fewer, next_harmless) = check_redirect-none limit (via + 1) next is in
    let (all_harmless, bound) = later next_harmless (ground (arith, fewer)) in
    ((harmless, all_harmless), omega (arith, bound))

follow-Sends :
    (limit via : ℕ) (url : Url) (hops : List Hop)
    → IsHarmless url
    → via ≤ limit
    → Sends limit via (follow limit via url hops)
unfolding follow Sends
follow-Sends limit via url [] harmless few = ((harmless, tt), omega arith)
follow-Sends limit via url (failure e ∷ hops) harmless few = ((harmless, tt), omega arith)
follow-Sends limit via url (response code size expiry ∷ hops) harmless few =
    ((harmless, tt), omega arith)
follow-Sends limit via url (redirect next ∷ hops) harmless few =
    onward-Sends limit via url next (check_redirect limit (via + 1) next)
      (follow limit (via + 1) next hops) refl harmless few (follow-Sends limit (via + 1) next hops)

validate_probe_url-IsHarmless :
    (parsed : Option Url) (target : Url) → validate_probe_url parsed ≡ ok target → IsHarmless target
unfolding validate_probe_url
validate_probe_url-IsHarmless none target h = absurd (ground (arith, h))
validate_probe_url-IsHarmless (some url) target h =
    let (_, h₁) = passed (url.host == "") _ _ h in
    let (scheme, h₂) = passed (not (is_http (map lower url.scheme))) _ _ h₁ in
    let (anonymous, h₃) = passed url.has_user _ _ h₂ in
    let same : record url { scheme = map lower url.scheme } ≡ target = ok_inj h₃ in
    record {
      scheme = ap (λ u. is_http u.scheme) (sym same) ∙ test_off _ scheme;
      anonymous = ap (λ u. u.has_user) (sym same) ∙ anonymous;
    }

-- A probe sends requests by HTTP or HTTPS only, none of them with credentials in its URL, and at
-- most one more than the redirects that its executor allows; whatever URL it is given, and wherever
-- the servers redirect it.
pub execute_http_probe-sends :
    (encode : HttpProbeOutput → String) (e : Executor) (elapsed : ℕ) (created : Bool)
    (parsed : Option Url) (hops : List Hop)
    → All IsHarmless (execute_http_probe encode e elapsed created parsed hops).0
      × (length (execute_http_probe encode e elapsed created parsed hops).0 ≤ redirect_limit e + 1)
unfolding execute_http_probe Sends
execute_http_probe-sends encode e elapsed created parsed hops =
    sent created (validate_probe_url parsed) refl
  where
    sent :
        (made : Bool) (r : Fallible Blame Url)
        → validate_probe_url parsed ≡ r
        → All IsHarmless (send_probe encode e elapsed made r hops).0
          × (length (send_probe encode e elapsed made r hops).0 ≤ redirect_limit e + 1)
    sent made (err blame) is = (tt, omega arith)
    sent false (ok target) is = (tt, omega arith)
    sent true (ok target) is =
        let (harmless, bound) =
          follow-Sends (redirect_limit e) 0 target hops
            (validate_probe_url-IsHarmless parsed target is) (omega arith) in
        (harmless, omega (arith, bound))
