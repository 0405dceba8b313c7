-- ===== src/Tests/Connection.antt =====
-- api/stream/stream.go: one connection whose first reply cannot be written.
use k8s_explore.Base.{ℕ, String, Bool, true, false, [], ◌∷◌, ◌++◌, ◌≡◌, refl}
use k8s_explore.Base.Dict.{Dict}
use k8s_explore.Stream.{received, frame, read_message, dispatch_loop}
use k8s_explore.Stream.Connection.{
  writing, reading, finished, awaiting, receiving, Task, Connection, new_task, calls, reads,
  receives, dispatches, finds, sends, writes, Reach, begin, later,
}
use k8s_explore.Stream.Refined.{jobs, in_hand, connection_refines_loop}

decodes : String → Bool
decodes _ = false

-- A handler for the empty type.
abbrev one_handler : Dict ℕ
one_handler = ("", 3) ∷ []

abbrev greeted : Task String
greeted = record (new_task "m1") { writer = receiving; sent = "hi" ∷ [] }

-- The write of "hi" has failed while the loop is in its second read.
abbrev broken : Connection String
broken = record {
  phase = awaiting;
  readers = reading ∷ finished ∷ [];
  tasks = greeted ∷ [];
  cancelled = true;
  closed = false;
  attempts = (0, "hi") ∷ [];
  taken = frame (received "m1") ∷ [];
}

broken-Reach : Reach decodes one_handler broken
unfolding decodes read_message
broken-Reach =
    later
      (later
        (later
          (later
            (later
              (later (later (later begin (calls refl)) (reads 0 (received "m1") refl))
                (receives (received "m1") [] refl refl))
              (dispatches "m1" refl refl))
            (finds 0 (new_task "m1") 3 refl refl refl))
          (sends 0 (record (new_task "m1") { writer = receiving }) "hi" refl refl refl))
        (calls refl))
      (writes 0 (record (new_task "m1") { writer = writing "hi"; sent = "hi" ∷ [] }) "hi" false refl
        refl)

connection_refines_loop_example :
    (jobs decodes one_handler broken.tasks ++ in_hand decodes one_handler awaiting, false)
    ≡ dispatch_loop decodes broken.taken []
connection_refines_loop_example = connection_refines_loop decodes one_handler broken-Reach
