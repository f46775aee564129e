-- ===== src/Net/AckProgress/Tests.antt =====
-- A run of the acknowledgement progress of crates/rds-net/src/ack_progress.rs.
use remote_device_sync.Base.{◌≡◌, refl, true, List, [], ◌∷◌, All, arith}
use remote_device_sync.Net.AckProgress.{
  sent, ack, end_acks, stalled, build, prepare, on_packet_sent, on_ack, on_end_acks, clone_box,
}
use remote_device_sync.Net.AckProgress.Stalled.{Event, IsOld, step, run, run-IsOld}

-- Two packets, an acknowledgement of the first one, a migration, and a packet on the new path that
-- nobody answers.
abbrev events : List Event
events =
    Event.packet_sent 0 1200
    ∷ Event.packet_sent 1000 1200
    ∷ Event.acked 50000000 1200
    ∷ Event.acks_ended 50000000 1200
    ∷ Event.cloned 60000000
    ∷ Event.packet_sent 70000000 1200
    ∷ []

events-stalled : stalled (run events build).progress 600000000 70000000 ≡ true
unfolding run step on_packet_sent on_ack on_end_acks clone_box prepare sent ack end_acks stalled
events-stalled = refl

run-IsOld_example : All (IsOld 600000000 70000000) events
run-IsOld_example =
    run-IsOld 0 600000000 70000000 events build
      (omega arith, (omega arith, (omega arith, (omega arith, (omega arith, (omega arith, tt))))))
      events-stalled
