-- ===== src/Frp/Kill.antt =====
-- frp/manager.go: the wait of `RunFRPc` and the kill signal.
use k8s_explore.Base.{
  ℕ, zero, suc, true, some, ◌≡◌, ◌≢◌, refl, sym, ap, ◌∙◌, ◌⊎◌, inl, inr, arith, get_elem?,
  get_elem?-set_self, get_elem?-set_ne,
}
use k8s_explore.Frp.Sessions.{
  waiting, closing, is_cancelled, running, returned, cancelling, Session, awaiting, Manager, put,
  Step, kill, goes_on, exits, wait_ends, executes, fails, resumes, watch_ends, watch_decides,
  watch_cancels, client_returns, runner_cancels, calls_back,
}

-- `RunFRPc` waits for a session whose client runs, and the watch of the port is not about to cancel.
pub record IsStuck (s : Manager) : Type 0 where
  pub killed : s.killed ≡ true
  pub awaiting : s.phase ≡ awaiting
  pub first : Session
  pub newest : get_elem? s.sessions 0 ≡ some first
  pub channel : first.channel ≡ waiting
  pub runner : first.runner ≡ running
  pub watcher : first.watcher ≢ cancelling

-- The newest session's client has returned by itself.
abbrev pub HasReturned : Manager → Type 0
HasReturned s = (x : Session) × (get_elem? s.sessions 0 ≡ some x) × (x.runner ≡ returned)

-- A change of an older session.
put_older : (s : Manager) (i : ℕ) (y : Session) → IsStuck s → IsStuck (put (suc i) y s)
put_older s i y k = record {
  killed = k.killed;
  awaiting = k.awaiting;
  first = k.first;
  newest = get_elem?-set_ne s.sessions (suc i) 0 y (λ e. cc) ∙ k.newest;
  channel = k.channel;
  runner = k.runner;
  watcher = k.watcher;
}

-- A change of one session that keeps the newest one open.
put-IsStuck :
    (s : Manager) (i : ℕ) (x y : Session)
    → get_elem? s.sessions i ≡ some x
    → (k : IsStuck s)
    → (x ≡ k.first → (y.channel ≡ waiting) × (y.runner ≡ running) × (y.watcher ≢ cancelling))
    → IsStuck (put i y s)
put-IsStuck s zero x y at k same =
    let e : x ≡ k.first = cc k.newest in
    record {
      killed = k.killed;
      awaiting = k.awaiting;
      first = y;
      newest = get_elem?-set_self s.sessions 0 y at;
      channel = (same e).0;
      runner = (same e).1;
      watcher = (same e).2;
    }
put-IsStuck s (suc i) x y at k same = put_older s i y k

module _ {s : Manager} {x : Session} (k : IsStuck s) (e : x ≡ k.first) where
  opened : x.channel ≡ waiting
  opened = ap (λ y. y.channel) e ∙ k.channel

  runs : x.runner ≡ running
  runs = ap (λ y. y.runner) e ∙ k.runner

no_return : running ≢ returned
no_return h = cc

open_now : waiting ≢ closing
open_now h = cc

-- Once the kill signal has come while `RunFRPc` waits for a running client, and the watch of the port
-- has not yet decided to cancel, every step of any goroutine leaves `RunFRPc` waiting, unless that
-- client returns by itself: until the process exits, nothing closes the client.
pub kill_keeps_waiting : {s s' : Manager} → Step s s' → IsStuck s → IsStuck s' ⊎ HasReturned s'
kill_keeps_waiting kill k = inl (record {
  killed = refl;
  awaiting = k.awaiting;
  first = k.first;
  newest = k.newest;
  channel = k.channel;
  runner = k.runner;
  watcher = k.watcher;
})
kill_keeps_waiting (goes_on at alive) k = cc k.awaiting
kill_keeps_waiting (exits at dead) k = cc k.awaiting
kill_keeps_waiting (wait_ends available at ends) k = cc k.awaiting
kill_keeps_waiting (executes at) k = cc k.awaiting
kill_keeps_waiting (fails at) k = cc k.awaiting
kill_keeps_waiting (resumes x at first done) k =
    let same : x ≡ k.first = cc k.newest in
    cc (ap (λ y. is_cancelled y.channel) same, ap is_cancelled k.channel)
kill_keeps_waiting {s} (watch_ends i x available at w ends) k =
    inl (put-IsStuck s i x _ at k (λ e. (opened k e, runs k e, λ h. cc)))
kill_keeps_waiting {s} (watch_decides i x at w) k =
    inl (put-IsStuck s i x _ at k (λ e. (opened k e, runs k e, λ h. ground (arith, k.killed))))
kill_keeps_waiting {s} (watch_cancels i x at w free) k =
    inl (put-IsStuck s i x _ at k (λ e. absurd (k.watcher (sym (ap (λ y. y.watcher) e) ∙ w))))
kill_keeps_waiting {s} (client_returns zero x at w) k =
    inr (_, get_elem?-set_self s.sessions 0 _ at, refl)
kill_keeps_waiting {s} (client_returns (suc i) x at w) k = inl (put_older s i _ k)
kill_keeps_waiting {s} (runner_cancels i x at w free) k =
    inl (put-IsStuck s i x _ at k (λ e. absurd (no_return (sym (runs k e) ∙ w))))
kill_keeps_waiting {s} (calls_back i x at w) k =
    inl (put-IsStuck s i x _ at k (λ e. absurd (open_now (sym (opened k e) ∙ w))))
