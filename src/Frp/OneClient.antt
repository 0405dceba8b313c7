-- ===== src/Frp/OneClient.antt =====
-- frp/manager.go and frp/frpc_client.go: the clients that run at one time.
use k8s_explore.Base.{
  All-set, ℕ, zero, suc, true, false, some, List, [], ◌∷◌, ◌≡◌, refl, sym, subst, ◌+◌, ◌≤◌, not,
  ◌&&◌, if◌then◌else◌, arith, All, get_elem?, set,
}
use k8s_explore.Frp.Sessions.{
  Channel, closed, is_cancelled, cancel, Session, Phase, testing, waiting_for_port, executing,
  awaiting, exited, panicked, Manager, put, Step, kill, goes_on, exits, wait_ends, executes, fails,
  resumes, watch_ends, watch_decides, watch_cancels, client_returns, runner_cancels, calls_back,
  Reach, begin, later,
}

-- The sessions that `RunFRPc` does not wait for.
abbrev pub left : Phase → List Session → List Session
left awaiting (x ∷ xs) = xs
left awaiting [] = []
left testing xs = xs
left waiting_for_port xs = xs
left executing xs = xs
left exited xs = xs
left panicked xs = xs

-- The client of a session whose `Cancel` has returned has been closed.
abbrev pub IsSettled : Session → Type 0
IsSettled x = x.channel ≡ closed → x.service ≡ false

abbrev pub IsLeft : Session → Type 0
IsLeft x = (is_cancelled x.channel ≡ true) × IsSettled x

record IsKept (s : Manager) : Type 0 where
  settled : All IsSettled s.sessions
  cancelled : All IsLeft (left s.phase s.sessions)

left-set :
    (phase : Phase) (xs : List Session) (i : ℕ) (x y : Session)
    → get_elem? xs i ≡ some x
    → (IsLeft x → IsLeft y)
    → All IsLeft (left phase xs)
    → All IsLeft (left phase (set xs i y))
left-set awaiting [] i x y at keep h = h
left-set awaiting (z ∷ xs) zero x y at keep h = h
left-set awaiting (z ∷ xs) (suc i) x y at keep h = All-set IsLeft xs i x y at keep h
left-set testing xs i x y at keep h = All-set IsLeft xs i x y at keep h
left-set waiting_for_port xs i x y at keep h = All-set IsLeft xs i x y at keep h
left-set executing xs i x y at keep h = All-set IsLeft xs i x y at keep h
left-set exited xs i x y at keep h = All-set IsLeft xs i x y at keep h
left-set panicked xs i x y at keep h = All-set IsLeft xs i x y at keep h

-- A change of one session that keeps it settled, and cancelled where it was, keeps the invariant.
put-IsKept :
    (s : Manager) (i : ℕ) (x y : Session)
    → get_elem? s.sessions i ≡ some x
    → (IsSettled x → IsSettled y)
    → (is_cancelled x.channel ≡ true → is_cancelled y.channel ≡ true)
    → IsKept s
    → IsKept (put i y s)
put-IsKept s i x y at settle stay k = record {
  settled = All-set IsSettled s.sessions i x y at settle k.settled;
  cancelled = left-set s.phase s.sessions i x y at (λ h. (stay h.0, settle h.1)) k.cancelled;
}

-- A change of phase that waits for no session less keeps the invariant.
move-IsKept :
    (s : Manager) (phase : Phase)
    → left phase s.sessions ≡ left s.phase s.sessions
    → IsKept s
    → IsKept (record s { phase = phase })
move-IsKept s phase same k = record {
  settled = k.settled;
  cancelled = subst (All IsLeft) (sym same) k.cancelled;
}

cancel-closed : (c : Channel) → cancel c ≡ closed → c ≡ closed
cancel-closed c h = ground arith

is_cancelled-cancel : (c : Channel) → is_cancelled (cancel c) ≡ true
is_cancelled-cancel c = ground arith

resumed :
    (xs : List Session) (x : Session)
    → All IsSettled xs
    → All IsLeft (left awaiting xs)
    → get_elem? xs 0 ≡ some x
    → is_cancelled x.channel ≡ true
    → All IsLeft xs
resumed [] x settled h at done = tt
resumed (z ∷ xs) x settled h at done =
    let same : x ≡ z = cc in ((subst (λ y. is_cancelled y.channel ≡ true) same done, settled.0), h)

Step-IsKept : {s s' : Manager} → Step s s' → IsKept s → IsKept s'
Step-IsKept kill k = record { settled = k.settled; cancelled = k.cancelled }
Step-IsKept {s} (goes_on at alive) k = move-IsKept s waiting_for_port (rw at) k
Step-IsKept {s} (exits at dead) k = move-IsKept s exited (rw at) k
Step-IsKept {s} (wait_ends available at ends) k = move-IsKept s executing (rw at) k
Step-IsKept {s} (executes at) k =
    let old = k.cancelled in record { settled = (λ h. cc, k.settled); cancelled = rw at at old }
Step-IsKept {s} (fails at) k = move-IsKept s panicked (rw at) k
Step-IsKept {s} (resumes x at first done) k =
    let old = k.cancelled in
    record {
      settled = k.settled;
      cancelled = resumed s.sessions x k.settled (rw at at old) first done;
    }
Step-IsKept {s} (watch_ends i x available at w ends) k = put-IsKept s i x _ at (λ h. h) (λ h. h) k
Step-IsKept {s} (watch_decides i x at w) k = put-IsKept s i x _ at (λ h. h) (λ h. h) k
Step-IsKept {s} (watch_cancels i x at w free) k =
    put-IsKept s i x _ at (λ h e. h (cancel-closed x.channel e))
      (λ h. is_cancelled-cancel x.channel) k
Step-IsKept {s} (client_returns i x at w) k = put-IsKept s i x _ at (λ h e. refl) (λ h. h) k
Step-IsKept {s} (runner_cancels i x at w free) k =
    put-IsKept s i x _ at (λ h e. h (cancel-closed x.channel e))
      (λ h. is_cancelled-cancel x.channel) k
Step-IsKept {s} (calls_back i x at w) k = put-IsKept s i x _ at (λ h e. refl) (λ h. refl) k

Reach-IsKept : {s : Manager} → Reach s → IsKept s
Reach-IsKept begin = record { settled = tt; cancelled = tt }
Reach-IsKept (later r st) = Step-IsKept st (Reach-IsKept r)

-- The client runs, and nothing has begun to close it.
abbrev pub live : Session → ℕ
live x = if x.service && not (is_cancelled x.channel) then 1 else 0

abbrev pub lives : List Session → ℕ
lives [] = 0
lives (x ∷ xs) = live x + lives xs

lives-left : (xs : List Session) → All IsLeft xs → lives xs ≡ 0
lives-left [] h = refl
lives-left (x ∷ xs) h = ground (arith, lives-left xs h.1, h.0.0)

lives-awaiting : (phase : Phase) (xs : List Session) → All IsLeft (left phase xs) → lives xs ≤ 1
lives-awaiting awaiting [] h = omega arith
lives-awaiting awaiting (x ∷ xs) h = ground (arith, lives-left xs h)
lives-awaiting testing xs h = omega (arith, lives-left xs h)
lives-awaiting waiting_for_port xs h = omega (arith, lives-left xs h)
lives-awaiting executing xs h = omega (arith, lives-left xs h)
lives-awaiting exited xs h = omega (arith, lives-left xs h)
lives-awaiting panicked xs h = omega (arith, lives-left xs h)

-- In every reachable state at most one client runs that nothing has begun to close. Every session
-- that `RunFRPc` no longer waits for has been cancelled, and its client is closed once its `Cancel`
-- has returned.
pub one_client :
    {s : Manager} → Reach s → (lives s.sessions ≤ 1) × All IsLeft (left s.phase s.sessions)
one_client {s} r =
    let k = Reach-IsKept r in (lives-awaiting s.phase s.sessions k.cancelled, k.cancelled)
