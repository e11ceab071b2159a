-- ===== src/Limits.antt =====
-- internal/middleware/ratelimit.go: the limiters of the clients.
pub mod Clients
mod Tests
use notification_api_spec.Base.{
  ℕ, String, Bool, true, false, Option, none, some, List, [], ◌∷◌, ◌=s=◌, if◌then◌else◌, Outcome,
  ok, err,
}

-- A limiter of the package `rate`, by its state: a new one, and `Allow` at a time.
pub record Limiter (State : Type 0) : Type 0 where
  pub fresh : State
  pub allow : (now : ℕ) → State → Bool × State

-- The parts of a request that tell its client, and its time.
pub record Request : Type 0 where
  pub forwarded_for : String
  pub remote_addr : String
  pub at : ℕ

-- `clientIP`, where `split_host_port` gives the host of an address.
abbrev pub client_ip : (split_host_port : String → Outcome String) → Request → String
client_ip split_host_port r =
    if r.forwarded_for =s= ""
    then elim (split_host_port r.remote_addr) [ err e ↦ r.remote_addr | ok host ↦ host ]
    else r.forwarded_for

module _ {State : Type 0} (l : Limiter State) (split_host_port : String → Outcome String) where
  -- `ipLimiters.limiters`
  abbrev pub Limiters : Type 0
  Limiters = List (String × State)

  unfoldable pub find_limiter : String → Limiters → Option State
  find_limiter ip [] = none
  find_limiter ip ((key, s) ∷ limiters) =
      let rest = find_limiter ip limiters in if key =s= ip then some s else rest

  unfoldable pub put_limiter : String → State → Limiters → Limiters
  put_limiter ip s [] = (ip, s) ∷ []
  put_limiter ip s ((key, t) ∷ limiters) =
      let rest = put_limiter ip s limiters in
      if key =s= ip then (key, s) ∷ limiters else (key, t) ∷ rest

  -- `getLimiter`
  unfoldable pub get_limiter : String → Limiters → State × Limiters
  unfolding find_limiter put_limiter
  get_limiter ip limiters = elim (find_limiter ip limiters) [
    | none ↦ (l.fresh, put_limiter ip l.fresh limiters)
    | some s ↦ (s, limiters)
  ]

  -- The handler of `RateLimit`: whether the request passes. `Allow` changes the limiter in its place.
  unfoldable pub rate_limit : Request → Limiters → Bool × Limiters
  unfolding get_limiter put_limiter
  rate_limit r limiters =
      let ip = client_ip split_host_port r in
      let (s, stored) = get_limiter ip limiters in
      let (allowed, s') = l.allow r.at s in (allowed, put_limiter ip s' stored)

  -- The answers to requests, one after the other.
  unfoldable pub run : List Request → Limiters → List (String × Bool)
  unfolding rate_limit
  run [] limiters = []
  run (r ∷ rs) limiters =
      (client_ip split_host_port r, (rate_limit r limiters).0) ∷ run rs (rate_limit r limiters).1
