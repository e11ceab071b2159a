-- ===== src/Limits/Clients.antt =====
-- Each client has a limiter of its own.
use notification_api_spec.Base.{
  ℕ, ◌≡◌, refl, ap, sym, ◌∙◌, String, Bool, false, Option, none, some, List, [], ◌∷◌, ◌=s=◌,
  if◌then◌else◌, Outcome, arith, Bool-cases, Option-cases, inl, inr, eq_iff, eq_refl,
}
use notification_api_spec.Limits.{
  Limiter, Request, client_ip, Limiters, find_limiter, put_limiter, get_limiter, rate_limit, run,
}

module _ {State : Type 0} (l : Limiter State) (split_host_port : String → Outcome String) where
  -- A limiter that serves one client alone.
  pub alone : List ℕ → State → List Bool
  alone [] s = []
  alone (now ∷ times) s = let (allowed, s') = l.allow now s in allowed ∷ alone times s'

  -- The times of a client's requests, and the answers to them.
  pub times_of : String → List Request → List ℕ
  times_of ip [] = []
  times_of ip (r ∷ rs) =
      let rest = times_of ip rs in if client_ip split_host_port r =s= ip then r.at ∷ rest else rest

  pub answers_of : String → List (String × Bool) → List Bool
  answers_of ip [] = []
  answers_of ip ((key, allowed) ∷ answers) =
      let rest = answers_of ip answers in if key =s= ip then allowed ∷ rest else rest

  -- The limiter that a client has or will get.
  abbrev pub limiter_of : String → Limiters l split_host_port → State
  limiter_of ip limiters = elim (find_limiter l split_host_port ip limiters) [
    | none ↦ l.fresh
    | some s ↦ s
  ]

  find-put_same :
      (ip : String) (s : State) (limiters : Limiters l split_host_port)
      → find_limiter l split_host_port ip (put_limiter l split_host_port ip s limiters) ≡ some s
  unfolding find_limiter put_limiter
  find-put_same ip s [] = ground (arith, eq_refl ip)
  find-put_same ip s ((key, t) ∷ limiters) = ground (arith, find-put_same ip s limiters)

  find-put_other :
      (ip other : String) (s : State) (limiters : Limiters l split_host_port)
      → (other =s= ip) ≡ false
      → find_limiter l split_host_port ip (put_limiter l split_host_port other s limiters)
        ≡ find_limiter l split_host_port ip limiters
  unfolding find_limiter put_limiter
  find-put_other ip other s [] d = ground (arith, d)
  find-put_other ip other s ((key, t) ∷ limiters) d = ground (
    arith,
    d,
    find-put_other ip other s limiters d,
    eq_iff key other,
    eq_iff key ip,
    eq_iff other ip,
  )

  get_limiter_state :
      (ip : String) (limiters : Limiters l split_host_port)
      → (get_limiter l split_host_port ip limiters).0 ≡ limiter_of ip limiters
  unfolding get_limiter
  get_limiter_state ip limiters = elim (Option-cases (find_limiter l split_host_port ip limiters)) [
    | inl e ↦ ground (arith, e)
    | inr (s, e) ↦ ground (arith, e)
  ]

  get_limiter_other :
      (key ip : String) (limiters : Limiters l split_host_port)
      → (key =s= ip) ≡ false
      → find_limiter l split_host_port ip (get_limiter l split_host_port key limiters).1
        ≡ find_limiter l split_host_port ip limiters
  unfolding get_limiter
  get_limiter_other key ip limiters d =
      elim (Option-cases (find_limiter l split_host_port key limiters)) [
        | inl e ↦ ground (arith, e, find-put_other ip key l.fresh limiters d)
        | inr (s, e) ↦ ground (arith, e)
      ]

  abbrev limiter_or_new : Option State → State
  limiter_or_new o = elim o [ none ↦ l.fresh | some s ↦ s ]

  own_limiter :
      (r : Request) (limiters : Limiters l split_host_port)
      → let ip = client_ip split_host_port r in
        ((rate_limit l split_host_port r limiters).0 ≡ (l.allow r.at (limiter_of ip limiters)).0)
        × (limiter_of ip (rate_limit l split_host_port r limiters).1
            ≡ (l.allow r.at (limiter_of ip limiters)).1)
  unfolding rate_limit
  own_limiter r limiters =
      let ip = client_ip split_host_port r in
      (
        ap (λ s. (l.allow r.at s).0) (get_limiter_state ip limiters),
        ap limiter_or_new (find-put_same ip _ _)
            ∙ ap (λ s. (l.allow r.at s).1) (get_limiter_state ip limiters),
      )

  other_limiter :
      (r : Request) (limiters : Limiters l split_host_port) (ip : String)
      → (client_ip split_host_port r =s= ip) ≡ false
      → limiter_of ip (rate_limit l split_host_port r limiters).1 ≡ limiter_of ip limiters
  unfolding rate_limit
  other_limiter r limiters ip other = ap limiter_or_new (
      find-put_other ip (client_ip split_host_port r) _ _ other
      ∙ get_limiter_other (client_ip split_host_port r) ip limiters other)

  -- Whatever other clients ask in between, the answers to a client are those of a limiter that serves
  -- this client alone, at the times of its requests.
  pub run_serves_each :
      (rs : List Request) (limiters : Limiters l split_host_port) (ip : String)
      → answers_of ip (run l split_host_port rs limiters)
        ≡ alone (times_of ip rs) (limiter_of ip limiters)
  unfolding run answers_of times_of alone
  run_serves_each [] limiters ip = refl
  run_serves_each (r ∷ rs) limiters ip =
      let rest = run_serves_each rs (rate_limit l split_host_port r limiters).1 ip in
      elim (Bool-cases (client_ip split_host_port r =s= ip)) [
        | inr other ↦ ground (arith, other, rest, other_limiter r limiters ip other)
        | inl mine ↦
            let same : client_ip split_host_port r ≡ ip =
              ground (arith, eq_iff (client_ip split_host_port r) ip, mine) in
            let (allowed, stored) = own_limiter r limiters in
            let its =
              ap (λ x. limiter_of x (rate_limit l split_host_port r limiters).1) (sym same)
              ∙ stored
              ∙ ap (λ x. (l.allow r.at (limiter_of x limiters)).1) same in
            let says = allowed ∙ ap (λ x. (l.allow r.at (limiter_of x limiters)).0) same in
            ground (arith, mine, rest, its, says)
      ]
