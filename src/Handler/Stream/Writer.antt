-- ===== src/Handler/Stream/Writer.antt =====
-- backend/internal/handler/sse.go: the stream writer of `Stream`. What its `select` takes is the list of
-- signals, each with the outcome of the flush that follows; the list ends where the writer still waits.
use task_flow_alisha_sharma.Common.{String, Option, none, some, Bool, true, false, List, [], ◌∷◌}
use task_flow_alisha_sharma.Model.{Event, event_name}

pub data Signal : Type 0 where
  received : Event → Signal
  ticked done : Signal

-- A text that is printed to the connection.
pub data Chunk : Type 0 where
  connected ping : Chunk
  event_chunk : String → String → String → Chunk

-- With the JSON of an event; one that has none is logged and passed over.
abbrev encoded : Event → Option String → Option Chunk
encoded evt none = none
encoded evt (some json) = some (event_chunk (event_name evt.kind) evt.job_id json)

-- `if err := w.Flush(); err != nil { return }`
abbrev flushed : Bool → List Chunk → List Chunk
flushed false rest = []
flushed true rest = rest

abbrev printed : Option Chunk → Bool → List Chunk → List Chunk
printed none flush rest = rest
printed (some chunk) flush rest = chunk ∷ flushed flush rest

unfoldable pub write_loop : (Event → Option String) → List (Signal × Bool) → List Chunk
write_loop marshal [] = []
write_loop marshal ((done, flush) ∷ signals) = []
write_loop marshal ((ticked, flush) ∷ signals) =
    let rest = write_loop marshal signals in ping ∷ flushed flush rest
write_loop marshal ((received evt, flush) ∷ signals) =
    let rest = write_loop marshal signals in printed (encoded evt (marshal evt)) flush rest

unfoldable pub write_stream : (Event → Option String) → Bool → List (Signal × Bool) → List Chunk
write_stream marshal flush signals = connected ∷ flushed flush (write_loop marshal signals)
