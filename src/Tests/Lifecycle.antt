-- ===== src/Tests/Lifecycle.antt =====
-- Connections at concrete values: sync_loop.py and sync_loop_inner.py.
use pclipsync.Base.{ℕ, refl, true, List, [], ◌∷◌}
use pclipsync.Protocol.{closed}
use pclipsync.X11.{selection_request}
use pclipsync.Sync.{handle_incoming_content}
use pclipsync.SyncLoop.{handle_event, run_sync_loop, Session}
use pclipsync.SyncLoop.Rounds.{messages}
use pclipsync.Base.Dict.{count_first}
use pclipsync.Incr.Subscribe.{subscribed}
use pclipsync.Incr.Cleanup.{IsWellFormed}
use pclipsync.SyncLoop.WellFormed.{run_sync_loop-IsWellFormed}
use pclipsync.SyncLoop.Served.{Serves, handle_incoming_content-Serves}
use pclipsync.Tests.Samples.{request, outside, accepts, idle_state, session, hello}

abbrev contents : List (List ℕ)
contents = hello ∷ []

-- A selection request, a message and a shutdown at once.
abbrev eventful : Session
eventful = record session {
  state = record idle_state { deferred_events = selection_request request ∷ [] };
  reader = record { bytes = messages contents []; ending = closed };
}

run_sync_loop-IsWellFormed_example :
    IsWellFormed
      (run_sync_loop outside
        (record { x11_task = true; read_task = true; shutdown_task = true } ∷ [])
        eventful).1.state
unfolding subscribed count_first
run_sync_loop-IsWellFormed_example =
    run_sync_loop-IsWellFormed outside accepts
      (record { x11_task = true; read_task = true; shutdown_task = true } ∷ []) eventful
      (record { nodup = tt; keyed = tt; tracked = record { tracks = λ w. refl } })

handle_incoming_content-Serves_example :
    Serves outside request hello
      (handle_incoming_content outside hello idle_state).1
      (handle_event outside
        (selection_request request)
        (handle_incoming_content outside hello idle_state).1).1
handle_incoming_content-Serves_example =
    handle_incoming_content-Serves outside accepts request hello idle_state refl refl
