-- ===== src/Frp/Available.antt =====
-- frp/utils/tcphelper.go, `IsAvailable`, and the two waits of frp/manager.go on it: they watch the
-- local address of the first service pair. The package `net` is the parameter `Network`; a network for
-- each round, since a port may open or close at any time.
use k8s_explore.Base.{
  ℕ, ◌+◌, ◌<◌, String, Bool, true, false, not, ◌||◌, ◌&&◌, Option, none, some, List, [], ◌∷◌, ◌≡◌,
  ◌⊎◌, inl, inr, Bool-cases, ap, arith, Result, ok, err,
}
use k8s_explore.KubeFwd.{ServicePair}
use k8s_explore.Frp.Polling.{
  wait_for_local_port, watch_local_port, wait_for_local_port-IsFirst, watch_local_port-IsFirst,
  IsFirst,
}

-- `net.JoinHostPort`, and `net.DialTimeout` for TCP with a timeout in milliseconds.
pub record Network : Type 1 where
  pub Conn : Type 0
  pub Failure : Type 0
  pub join_host_port : String → String → String
  pub dial_timeout : String → ℕ → Result Failure Conn

-- `IsAvailable`; the connection is closed again.
unfoldable pub is_available : Network → String → String → Bool
is_available net host port = elim (net.dial_timeout (net.join_host_port host port) 1000) [
  | err _ ↦ false
  | ok _ ↦ true
]

-- The end of a wait: the panic of `m.ServicePair[0]`, or the round in which it ends.
pub data Wait : Type 0 where
  panicked : Wait
  ended : ℕ → Wait

abbrev pub to_wait : Option ℕ → Option Wait
to_wait none = none
to_wait (some n) = some (ended n)

module _ (net : ℕ → Network) where
  abbrev pub answers : ServicePair → ℕ → Bool
  answers pair n = is_available (net n) pair.service.local_ip pair.service.local_port

  -- `WaitForLocalPortToBecomeAvailable`
  unfoldable pub wait_available : (killed : ℕ → Bool) → List ServicePair → ℕ → Option Wait
  wait_available killed [] fuel = some panicked
  wait_available killed (pair ∷ pairs) fuel =
      to_wait (wait_for_local_port killed (answers pair) fuel 0)

  -- `WaitForLocalPortToBecomeUnavailableAndCancel`: the round in which its loop ends, and whether it
  -- calls `CancelWithReason` then; the test after the loop reads what the next round would read.
  unfoldable pub watch_and_cancel :
      (killed cancelled : ℕ → Bool) → List ServicePair → ℕ → Option (Wait × Bool)
  watch_and_cancel killed cancelled [] fuel = some (panicked, false)
  watch_and_cancel killed cancelled (pair ∷ pairs) fuel =
      elim (watch_local_port killed cancelled (answers pair) fuel 0) [
        | none ↦ none
        | some n ↦ some (ended n, not (killed (n + 1)) && not (cancelled (n + 1)))
      ]

module _ (net : ℕ → Network) (pair : ServicePair) (pairs : List ServicePair) where
  -- With fuel up to a round in which the kill signal has come or a dial of the first service's address
  -- succeeds, the wait ends, in the first such round.
  pub wait_available_lem :
      (killed : ℕ → Bool) (fuel m : ℕ)
      → m < fuel
      → (killed m || answers net pair m) ≡ true
      → (k : ℕ) × (wait_available net killed (pair ∷ pairs) fuel ≡ some (ended k))
        × IsFirst (λ r. killed r || answers net pair r) 0 k
  unfolding wait_available
  wait_available_lem killed fuel m enough now =
      let (k, found, first) =
        wait_for_local_port-IsFirst killed (λ r. false) (answers net pair) (λ r. false) fuel 0 m
          (omega arith) (omega arith) now in
      (k, ap to_wait found, first)

  -- The kill signal and the cancelling of a client stay. With fuel up to a round in which one of them
  -- has come or a dial of the first service's address fails, the watch ends, in the first such round
  -- `k`; and it cancels the client only if the dial of that round failed.
  pub watch_and_cancel_lem :
      (killed cancelled : ℕ → Bool)
      → ((n : ℕ) → killed n ≡ true → killed (n + 1) ≡ true)
      → ((n : ℕ) → cancelled n ≡ true → cancelled (n + 1) ≡ true)
      → (fuel m : ℕ) → m < fuel
      → (killed m || cancelled m || not (answers net pair m)) ≡ true
      → (k : ℕ) × (cancels : Bool) × (watch_and_cancel net killed cancelled (pair ∷ pairs) fuel
          ≡ some (ended k, cancels))
        × IsFirst (λ r. killed r || cancelled r || not (answers net pair r)) 0 k
        × ((cancels ≡ false) ⊎ (answers net pair k ≡ false))
  unfolding watch_and_cancel
  watch_and_cancel_lem killed cancelled stays stays' fuel m enough now =
      let (k, found, first) =
        watch_local_port-IsFirst killed cancelled (answers net pair) (λ r. false) fuel 0 m
          (omega arith) (omega arith) now in
      (
        k,
        not (killed (k + 1)) && not (cancelled (k + 1)),
        ground (arith, found),
        first,
        elim (Bool-cases (answers net pair k)) [
          | inr refused ↦ inr refused
          | inl up ↦ inl (ground (arith, first.here, stays k, stays' k))
        ],
      )
