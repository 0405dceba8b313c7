-- ===== src/Tests/Stream.antt =====
-- api/stream/stream.go at concrete inputs.
use k8s_explore.Base.{ℕ, ◌==◌, String, true, false, ◌≡◌, refl, List, [], ◌∷◌, All, if◌then◌else◌}
use k8s_explore.Stream.{
  close, received, Arrival, frame, Conn, dispatch_loop, dispatch_message, write_all,
  register_message_handler,
}
use k8s_explore.Stream.Dispatching.{call_never_handled}

abbrev arrivals : List (Arrival String)
arrivals = frame (received "m1") ∷ frame (received "m2") ∷ frame close ∷ frame (received "m3") ∷ []

-- Were the target of `json.Unmarshal` left empty without an error, both messages would be dispatched.
loop_decodes :
    dispatch_loop (λ _. false) arrivals []
    ≡ (record { msg = "m1"; type = "" } ∷ record { msg = "m2"; type = "" } ∷ [], true)
unfolding dispatch_loop
loop_decodes = refl

abbrev conn : Conn String
conn = record { written = []; attempts = 0; cancelled = false }

-- The second write fails: the third is made all the same.
write_fails :
    write_all (λ n. if n == 1 then false else true) ("a" ∷ "b" ∷ "c" ∷ []) conn
    ≡ record { written = "a" ∷ "c" ∷ []; attempts = 3; cancelled = true }
unfolding write_all
write_fails = refl

abbrev echo : ℕ → String → List String
echo h msg = msg ∷ "bye" ∷ []

call_never_handled_example :
    All
      (λ d.
        (c : Conn String)
        → dispatch_message echo (λ _. true) (register_message_handler "call" 3 []) d c ≡ c)
      (dispatch_loop (λ _. false) arrivals []).0
call_never_handled_example = call_never_handled (λ _. false) echo (λ _. true) 3 arrivals
