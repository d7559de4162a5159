-- ===== src/Handler/Stream/Tests.antt =====
-- Two requests for streams on a small database, and a stream that is written.
use task_flow_alisha_sharma.Common.{true, String, ◌≡◌, refl, some, [], ◌∷◌, All, false, ◌≢◌}
use task_flow_alisha_sharma.Common.Int.{leb_ℤ}
use task_flow_alisha_sharma.Common.Dict.{lookup}
use task_flow_alisha_sharma.Common.Text.{split}
use task_flow_alisha_sharma.Common.Exec.{ok}
use task_flow_alisha_sharma.Database.{statement}
use task_flow_alisha_sharma.Model.{Event, task_deleted, of_id}
use task_flow_alisha_sharma.Sse.{new_broker}
use task_flow_alisha_sharma.Repository.Projects.{is_user_in_project, involves}
use task_flow_alisha_sharma.Repository.Tests.{calm, start}
use task_flow_alisha_sharma.Http.{answer, event_stream}
use task_flow_alisha_sharma.Handler.Stream.{
  Streams, conns_of, max_conns_per_user, check_projects, open_stream, close_stream, count_up,
  count_down, stream,
}
use task_flow_alisha_sharma.Handler.Stream.Registration.{SameConns, NoNewcomer, stream_unsubscribes}
use task_flow_alisha_sharma.Handler.Stream.Writer.{
  received, ticked, done, connected, ping, event_chunk, write_loop, write_stream,
}
use task_flow_alisha_sharma.Handler.Stream.Limit.{full, stream_all, streams_unlimited}

abbrev idle : Streams
idle = record { world = record start { event_bus = some new_broker }; user_conns = []; handles = 0 }

streams_p1 : (stream calm (some "u1") "p1" idle).0 ≡ ok (answer 200 event_stream)
unfolding stream check_projects split is_user_in_project statement open_stream close_stream count_up
    count_down involves lookup
streams_p1 = refl

stream_unsubscribes_example :
    let t = (stream calm (some "u1") "p1" idle).1 in
    SameConns idle t × NoNewcomer (some new_broker) t.world.event_bus
stream_unsubscribes_example = stream_unsubscribes calm (some "u1") "p1" idle

idle-room : (v : String) → leb_ℤ max_conns_per_user (conns_of v idle) ≡ false
unfolding lookup
idle-room v = refl

streams_unlimited_example :
    All (λ r. r ≢ full) (stream_all calm ((some "u1", "p1") ∷ (some "u1", "p1") ∷ []) idle)
streams_unlimited_example =
    streams_unlimited calm ((some "u1", "p1") ∷ (some "u1", "p1") ∷ []) idle idle-room

abbrev gone : Event
gone = record {
  job_id = "j1";
  kind = task_deleted;
  project_id = "p1";
  actor_id = "u1";
  payload = of_id "t1";
  timestamp = 5;
}

ends_at_done :
    write_stream
      (λ evt. some "{}")
      true
      ((ticked, true) ∷ (received gone, true) ∷ (done, true) ∷ (ticked, true) ∷ [])
    ≡ connected ∷ ping ∷ event_chunk "task.deleted" "j1" "{}" ∷ []
unfolding write_stream write_loop
ends_at_done = refl
