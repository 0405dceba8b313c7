-- ===== src/Frp/Polling.antt =====
-- The loops that sleep and look again: `WaitForLocalPortToBecomeAvailable` and
-- `WaitForLocalPortToBecomeUnavailableAndCancel` of frp/manager.go, `WaitUntilKubeTunnelIsUp` of
-- kubefwd/kubefwd.go. What a call reads in round `n` is a function of `n`, so it may change at any
-- time. The loops run on fuel, one unit for each round.
use k8s_explore.Base.{
  ℕ, zero, suc, ◌+◌, ◌≤◌, ◌<◌, Bool, true, false, not, ◌&&◌, ◌||◌, Option, none, some, ◌≡◌, refl,
  inl, inr, arith, Bool-cases, ℕ_discrete,
}

-- `WaitForLocalPortToBecomeAvailable`: the round in which the loop ends.
unfoldable pub wait_for_local_port : (killed available : ℕ → Bool) → ℕ → ℕ → Option ℕ
wait_for_local_port killed available zero n = none
wait_for_local_port killed available (suc fuel) n = elim ((not (killed n)) && (not (available n))) [
  | true ↦ wait_for_local_port killed available fuel (n + 1)
  | false ↦ some n
]

-- The loop of `WaitForLocalPortToBecomeUnavailableAndCancel`.
unfoldable pub watch_local_port : (killed cancelled available : ℕ → Bool) → ℕ → ℕ → Option ℕ
watch_local_port killed cancelled available zero n = none
watch_local_port killed cancelled available (suc fuel) n =
    elim ((not (killed n)) && (not (cancelled n)) && available n) [
      | true ↦ watch_local_port killed cancelled available fuel (n + 1)
      | false ↦ some n
    ]

-- `WaitUntilKubeTunnelIsUp`: the loop breaks where `done` is closed.
unfoldable pub wait_until_kube_tunnel_is_up : (available done : ℕ → Bool) → ℕ → ℕ → Option ℕ
wait_until_kube_tunnel_is_up available done zero n = none
wait_until_kube_tunnel_is_up available done (suc fuel) n = elim (available n) [
  | true ↦ some n
  | false ↦ elim (done n) [
    | true ↦ some n
    | false ↦ wait_until_kube_tunnel_is_up available done fuel (n + 1)
  ]
]

-- `m` is the first round from `n` on in which `p` holds.
pub record IsFirst (p : ℕ → Bool) (n m : ℕ) : Type 0 where
  pub here : p m ≡ true
  pub from : n ≤ m
  pub earlier : (k : ℕ) → n ≤ k → k < m → p k ≡ false

-- A loop that looks for `p`.
poll : (ℕ → Bool) → ℕ → ℕ → Option ℕ
poll p zero n = none
poll p (suc fuel) n = elim (p n) [ true ↦ some n | false ↦ poll p fuel (n + 1) ]

apart : (p : ℕ → Bool) (n m : ℕ) → p m ≡ true → p n ≡ false → n ≤ m → n < m
apart p n m yes_m no_n le = elim (ℕ_discrete n m) [
  | yes same ↦ absurd (cc)
  | no other ↦ omega arith
]

IsFirst-before : (p : ℕ → Bool) (n m : ℕ) → p n ≡ false → IsFirst p (n + 1) m → IsFirst p n m
IsFirst-before p n m not_yet first = record {
  here = first.here;
  from = omega (arith, first.from);
  earlier = λ k a b. elim (ℕ_discrete k n) [
    | yes same ↦ rw same not_yet
    | no other ↦ first.earlier k (omega arith) b
  ];
}

-- With fuel up to the round `m` the loop ends, in the first round in which `p` holds.
poll-IsFirst :
    (p : ℕ → Bool) (fuel n m : ℕ)
    → p m ≡ true
    → n ≤ m
    → m < n + fuel
    → (k : ℕ) × (poll p fuel n ≡ some k) × IsFirst p n k
unfolding poll
poll-IsFirst p zero n m holds after enough = absurd (omega arith)
poll-IsFirst p (suc fuel) n m holds after enough = elim (Bool-cases (p n)) [
  | inl now ↦ (
    n,
    rw (now, poll),
    record { here = now; from = omega arith; earlier = λ k a b. absurd (omega arith) },
  )
  | inr not_yet ↦
      let more : n < m = apart p n m holds not_yet after in
      let (k, found, first) = poll-IsFirst p fuel (n + 1) m holds (omega arith) (omega arith) in
      (k, rw (not_yet, poll) found, IsFirst-before p n k not_yet first)
]

module _ (killed cancelled available done : ℕ → Bool) where
  wait_for_local_port-poll :
      (fuel n : ℕ)
      → wait_for_local_port killed available fuel n ≡ poll (λ k. killed k || available k) fuel n
  unfolding wait_for_local_port poll
  wait_for_local_port-poll zero n = refl
  wait_for_local_port-poll (suc fuel) n = ground (arith, wait_for_local_port-poll fuel (n + 1))

  watch_local_port-poll :
      (fuel n : ℕ)
      → watch_local_port killed cancelled available fuel n
        ≡ poll (λ k. killed k || cancelled k || not (available k)) fuel n
  unfolding watch_local_port poll
  watch_local_port-poll zero n = refl
  watch_local_port-poll (suc fuel) n = ground (arith, watch_local_port-poll fuel (n + 1))

  wait_until_kube_tunnel_is_up-poll :
      (fuel n : ℕ)
      → wait_until_kube_tunnel_is_up available done fuel n
        ≡ poll (λ k. available k || done k) fuel n
  unfolding wait_until_kube_tunnel_is_up poll
  wait_until_kube_tunnel_is_up-poll zero n = refl
  wait_until_kube_tunnel_is_up-poll (suc fuel) n =
      ground (arith, wait_until_kube_tunnel_is_up-poll fuel (n + 1))

  module _ (fuel n m : ℕ) (after : n ≤ m) (enough : m < n + fuel) where
    -- With fuel up to a round in which the kill signal has come or the port answers, the wait for the
    -- local port ends, in the first such round.
    pub wait_for_local_port-IsFirst :
        (killed m || available m) ≡ true
        → (k : ℕ) × (wait_for_local_port killed available fuel n ≡ some k)
          × IsFirst (λ r. killed r || available r) n k
    wait_for_local_port-IsFirst h =
        rw (wait_for_local_port-poll fuel n) (poll-IsFirst _ fuel n m h after enough)

    -- With fuel up to a round in which the kill signal has come, the client is cancelled or the port
    -- does not answer, the watch of the local port ends, in the first such round.
    pub watch_local_port-IsFirst :
        (killed m || cancelled m || not (available m)) ≡ true
        → (k : ℕ) × (watch_local_port killed cancelled available fuel n ≡ some k)
          × IsFirst (λ r. killed r || cancelled r || not (available r)) n k
    watch_local_port-IsFirst h =
        rw (watch_local_port-poll fuel n) (poll-IsFirst _ fuel n m h after enough)

    -- With fuel up to a round in which the tunnel answers or the registry is done, the wait for the
    -- tunnel ends, in the first such round.
    pub wait_until_kube_tunnel_is_up-IsFirst :
        (available m || done m) ≡ true
        → (k : ℕ) × (wait_until_kube_tunnel_is_up available done fuel n ≡ some k)
          × IsFirst (λ r. available r || done r) n k
    wait_until_kube_tunnel_is_up-IsFirst h =
        rw (wait_until_kube_tunnel_is_up-poll fuel n) (poll-IsFirst _ fuel n m h after enough)
