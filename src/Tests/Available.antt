-- ===== src/Tests/Available.antt =====
-- frp/utils/tcphelper.go and the waits of frp/manager.go at concrete inputs.
use k8s_explore.Base.{
  ℕ, ltb, String, Bool, true, false, not, ◌||◌, some, [], ◌∷◌, ◌≡◌, ◌⊎◌, refl, arith, ok, err,
  if◌then◌else◌,
}
use k8s_explore.KubeFwd.{ServicePair}
use k8s_explore.Frp.Polling.{IsFirst, watch_local_port}
use k8s_explore.Frp.Available.{
  Network, is_available, answers, ended, panicked, wait_available, watch_and_cancel,
  watch_and_cancel_lem,
}
use Prim.Native.String.{◌++◌ as text_append}

-- The port answers in the rounds 0 to 2.
abbrev closing_port : ℕ → Network
closing_port n = record {
  Conn = String;
  Failure = String;
  join_host_port = λ host port. text_append host (text_append ":" port);
  dial_timeout = λ address timeout. if ltb n 3 then ok address else err "refused";
}

abbrev local_pair : ServicePair
local_pair = record {
  name = "web";
  service = record {
    type = "tcp";
    remote_port = "80";
    local_ip = "127.0.0.1";
    local_port = "8080";
  };
}

abbrev never : ℕ → Bool
never n = false

watch_and_cancel-closing :
    watch_and_cancel closing_port never never (local_pair ∷ []) 9 ≡ some (ended 3, true)
unfolding watch_and_cancel watch_local_port is_available
watch_and_cancel-closing = refl

-- Without a service pair the manager panics.
wait_available-nil : wait_available closing_port never [] 9 ≡ some panicked
unfolding wait_available
wait_available-nil = refl

watch_and_cancel_lem_example :
    (k : ℕ) × (cancels : Bool) × (watch_and_cancel closing_port never never (local_pair ∷ []) 9
      ≡ some (ended k, cancels))
    × IsFirst (λ r. never r || never r || not (answers closing_port local_pair r)) 0 k
    × ((cancels ≡ false) ⊎ (answers closing_port local_pair k ≡ false))
unfolding is_available
watch_and_cancel_lem_example =
    watch_and_cancel_lem closing_port local_pair [] never never (λ n h. h) (λ n h. h) 9 5
      (omega arith) refl
