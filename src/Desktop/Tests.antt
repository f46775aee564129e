-- ===== src/Desktop/Tests.antt =====
-- Runs of the reordering and of the media repair of crates/rds-desktop.
use remote_device_sync.Base.{
  ℕ, ◌≡◌, refl, ◌⊎◌, Bool, true, false, List, [], ◌∷◌, some, if◌then◌else◌, ◌==◌, arith,
}
use remote_device_sync.Base.Map.{lookup}
use remote_device_sync.Desktop.{h264, FrameHeader}
use remote_device_sync.Desktop.Order.{Ordered, push}
use remote_device_sync.Desktop.Order.Bounded.{IsBounded}
use remote_device_sync.Desktop.Order.Runs.{
  Event, arrive, play, Ascends, run-Ascends, push-completes,
}
use remote_device_sync.Desktop.Order.Runs
use remote_device_sync.Desktop.MediaRepair as Repair
use remote_device_sync.Desktop.MediaRepair.{
  MediaRepair, is_active, request_op, key_op, confirm_op, check_op, release_op, take_op, step,
  request, next_epoch,
}
use remote_device_sync.Desktop.MediaRepair.Gate.{IsGated}
use remote_device_sync.Desktop.MediaRepair.Steps.{Ends, run-IsGated, step-Ends}
use remote_device_sync.Desktop.MediaRepair.Steps

abbrev header : ℕ → Bool → FrameHeader
header n key = record {
  seq = n;
  capture_ts_ms = 0;
  encode_done_ts_ms = 0;
  send_ts_ms = 0;
  keyframe = key;
  codec = h264;
  width = 32;
  height = 32;
}

-- The picture 1 is expected; 2, 3 and 4 wait for it.
abbrev waiting : Ordered ℕ
waiting = record {
  next = some 1;
  frames = (2, (header 2 false, 20)) ∷ (3, (header 3 false, 30)) ∷ (4, (header 4 false, 40)) ∷ [];
  blocked = some 5;
}

waiting-IsBounded : IsBounded waiting
unfolding lookup
waiting-IsBounded = record {
  sorted = ((omega arith, (omega arith, tt)), ((omega arith, tt), (tt, tt)));
  keys = (refl, omega arith, (refl, omega arith, (refl, omega arith, tt)));
  expected = (omega arith, (omega arith, (omega arith, tt)));
  bounded = omega arith;
}

push-completes_example :
    lookup 4 (push 6 (header 1 false) 10 waiting).frames
    ≡ (if 1 == 4 then some (header 1 false, 10) else lookup 4 waiting.frames)
push-completes_example =
    push-completes 6 4 (header 1 false) 10 waiting waiting-IsBounded (omega arith) refl

abbrev events : List (Event ℕ)
events = play 6 ∷ arrive 7 (header 1 false) 10 ∷ play 8 ∷ play 9 ∷ []

run-Ascends_example : Ascends (some 1) (Runs.run events waiting)
run-Ascends_example =
    run-Ascends events waiting (tt, (omega arith, (tt, (tt, tt)))) waiting-IsBounded

run-IsGated_example :
    IsGated
      (Steps.run (key_op 1 0 ∷ request_op ∷ key_op 2 4 ∷ check_op 1 ∷ release_op 1 ∷ []) Repair.new)
run-IsGated_example =
    run-IsGated (key_op 1 0 ∷ request_op ∷ key_op 2 4 ∷ check_op 1 ∷ release_op 1 ∷ [])

abbrev repairing : MediaRepair
repairing = (request Repair.new).0

step-Ends_example :
    (is_active (step (release_op 1) repairing).state ≡ true) ⊎ Ends (release_op 1) repairing
unfolding request next_epoch
step-Ends_example = step-Ends (release_op 1) repairing refl
