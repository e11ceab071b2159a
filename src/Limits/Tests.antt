-- ===== src/Limits/Tests.antt =====
-- Two clients, each of which is allowed one request.
use notification_api_spec.Base.{
  ℕ, ◌≡◌, refl, String, Bool, true, false, List, [], ◌∷◌, Outcome, err, plain_error,
}
use notification_api_spec.Limits.{Limiter, Request, run}
use notification_api_spec.Limits.Clients.{alone, times_of, answers_of, limiter_of, run_serves_each}

-- A limiter that allows one request.
abbrev once : Limiter Bool
once = record { fresh = true; allow = λ now s. (s, false) }

abbrev split_host_port : String → Outcome String
split_host_port s = err (plain_error "missing port in address")

abbrev request : String → ℕ → Request
request ip at = record { forwarded_for = ""; remote_addr = ip; at = at }

abbrev requests : List Request
requests = request "a" 1 ∷ request "b" 2 ∷ request "a" 3 ∷ []

ran : run once split_host_port requests [] ≡ ("a", true) ∷ ("b", true) ∷ ("a", false) ∷ []
unfolding run
ran = refl

run_serves_each_example :
    answers_of once split_host_port "a" (run once split_host_port requests [])
    ≡ alone once split_host_port
        (times_of once split_host_port "a" requests)
        (limiter_of once split_host_port "a" [])
run_serves_each_example = run_serves_each once split_host_port requests [] "a"
