-- ===== src/Tests/Frp.antt =====
-- frp/manager.go, frp/frpc_client.go and frp/utils/tcphelper.go at concrete inputs.
use k8s_explore.Base.{
  keep, ℕ, ◌≤◌, ◌==◌, str_eq, Bool, true, false, not, ◌||◌, some, none, List, [], ◌∷◌, ◌≡◌, ◌⊎◌,
  refl, All,
}
use k8s_explore.Base.Dict.{lookup}
use k8s_explore.Frp.Sessions.{
  closing, returned, Runner, Watcher, polling, Session, new_session, awaiting, Manager, kill,
  goes_on, wait_ends, executes, resumes, watch_ends, client_returns, runner_cancels, Reach, begin,
  later,
}
use k8s_explore.Frp.OneClient.{left, lives, IsLeft, one_client}
use k8s_explore.Frp.Kill.{IsStuck, HasReturned, kill_keeps_waiting}
use k8s_explore.Frp.Polling.{watch_local_port}
use k8s_explore.Frp.Config.{Common, common, frp_config, Listed}
use k8s_explore.Frp.Tunnels.{tunnels_configured}
use k8s_explore.Frp.Hosts.{Line, HostsLibrary, hosts_cleanup, original_service_dns}
use k8s_explore.KubeFwd.{to_frp_client_pairs}
use k8s_explore.Tests.KubeFwd.{itoa, web, local_ports}

-- The first client has returned by itself and its session is cancelled, the second one runs.
abbrev old_session : Session
old_session = record {
  channel = closing;
  service = false;
  runner = Runner.ended;
  watcher = polling;
}

abbrev second_client : Manager
second_client = record {
  killed = false;
  phase = awaiting;
  sessions = new_session ∷ old_session ∷ [];
}

second_client-Reach : Reach second_client
second_client-Reach =
    later
      (later
        (later
          (later
            (later
              (later
                (later (later (later begin (goes_on refl refl)) (wait_ends true refl refl))
                  (executes refl))
                (client_returns 0 new_session refl refl))
              (runner_cancels 0 (record new_session { runner = returned; service = false }) refl
                refl (λ e. cc)))
            (resumes old_session refl refl refl))
          (goes_on refl refl))
        (wait_ends true refl refl))
      (executes refl)

one_client_example :
    (lives second_client.sessions ≤ 1)
    × All IsLeft (left second_client.phase second_client.sessions)
one_client_example = one_client second_client-Reach

abbrev killed_late : Manager
killed_late = record { killed = true; phase = awaiting; sessions = new_session ∷ [] }

killed_late-Reach : Reach killed_late
killed_late-Reach =
    later
      (later (later (later begin (goes_on refl refl)) (wait_ends true refl refl)) (executes refl))
      kill

killed_late-IsStuck : IsStuck killed_late
killed_late-IsStuck = record {
  killed = refl;
  awaiting = refl;
  first = new_session;
  newest = refl;
  channel = refl;
  runner = refl;
  watcher = λ e. cc;
}

abbrev watched : Manager
watched = record {
  killed = true;
  phase = awaiting;
  sessions = record new_session { watcher = Watcher.deciding } ∷ [];
}

kill_keeps_waiting_example : IsStuck watched ⊎ HasReturned watched
kill_keeps_waiting_example =
    kill_keeps_waiting {s = killed_late} {s' = watched}
      (watch_ends 0 new_session true refl refl refl) killed_late-IsStuck

never : ℕ → Bool
never _ = false

-- The port answers in the rounds 0 to 2.
up_to_two : ℕ → Bool
up_to_two n = n == 0 || n == 1 || n == 2

watch_ends_in_three : watch_local_port never never up_to_two 9 0 ≡ some 3
unfolding watch_local_port never up_to_two
watch_ends_in_three = refl

abbrev tunnel_server : Common
tunnel_server = record { server_address = "127.0.0.1"; server_port = "7000" }

tunnels_configured_example :
    let pairs = to_frp_client_pairs itoa "127.0.0.1" local_ports web in
    (lookup "common" (frp_config tunnel_server pairs) ≡ some (common tunnel_server))
    × Listed (frp_config tunnel_server pairs) pairs
tunnels_configured_example =
    tunnels_configured itoa "127.0.0.1" local_ports web (refl, (refl, tt)) refl tunnel_server
      ((λ e. cc, (λ e. cc, tt)), ((λ e. cc, tt), (tt, tt)))

-- A hosts file that is the list of its lines.
abbrev pub listed_hosts : HostsLibrary
listed_hosts = record {
  Hosts = List Line;
  lines = λ hosts. hosts;
  host_address_lookup = λ host hosts. none;
  remove_address = λ address hosts. keep (λ line. not (str_eq line.address address)) hosts;
  add_hosts = λ address hostnames hosts. hosts;
  save = λ hosts. true;
  equal_fold = str_eq;
}

abbrev pub hosts_file : List Line
hosts_file =
    record { address = "127.0.0.1"; hostnames = "localhost" ∷ [] }
    ∷ record { address = "10.0.0.7"; hostnames = "kubetunnel-web" ∷ "web" ∷ [] }
    ∷ record { address = "10.0.0.7"; hostnames = "shop" ∷ [] }
    ∷ []

-- The line of "shop" goes too: it has the address of the tunnel.
cleaned :
    hosts_cleanup listed_hosts hosts_file
    ≡ record { address = "127.0.0.1"; hostnames = "localhost" ∷ [] } ∷ []
unfolding hosts_cleanup
cleaned = refl

without_slug : original_service_dns "kubetunnel-web" ≡ "web"
unfolding original_service_dns
without_slug = refl
