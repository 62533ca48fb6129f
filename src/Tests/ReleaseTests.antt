-- ===== src/Tests/ReleaseTests.antt =====
-- Small histories of CameraReleaseTracker (src/ipc/camera_data_plane_v2.cpp).
use camera_subsystem.Prelude.{
  ℕ, ◌+◌, ◌≡◌, refl, true, none, some, List, [], ◌∷◌, arith, bytes_eq, nat_eq, find, among,
}
use camera_subsystem.Ipc.Release.{
  ok, FrameKey, frame_key_eq, PendingFrame, Tracker, new_tracker, make_release_frame,
  register_frame, reclaim_expired, reclaim_disconnected, member,
}
use camera_subsystem.Ipc.Release.Waiting.{
  IsTracking, new_tracker-IsTracking, register_frame-IsTracking,
}
use camera_subsystem.Ipc.Release.Sweeps.{awaits, nobody_awaits_disconnected, expired_only}
use camera_subsystem.Ipc.Release.Ledger.{
  Event, registers, releases, expires, disconnects, new_ledger, run, held, reclaimed, entered,
  reclaimed_once,
}
use camera_subsystem.Ipc.Release.Progress.{release_all, all_released_reclaims}

abbrev frame_key : FrameKey
frame_key = record { stream_id = 0; frame_id = 7; buffer_id = 1 }

abbrev history : List Event
history =
    registers 100 frame_key (1 ∷ 2 ∷ [])
    ∷ releases (make_release_frame 0 7 1 1 ok 5)
    ∷ disconnects 2
    ∷ registers 300 frame_key (3 ∷ [])
    ∷ expires 200
    ∷ []

reclaimed_once_example :
    let l = run (new_ledger 1000) history in
    entered frame_key l.accepted ≡ reclaimed frame_key l.reclaims + held frame_key l.tracker
reclaimed_once_example = reclaimed_once 1000 history frame_key

abbrev waiting : Tracker
waiting = (register_frame (new_tracker 1000) 100 frame_key (1 ∷ 2 ∷ [])).0

waiting-IsTracking : IsTracking waiting
waiting-IsTracking =
    register_frame-IsTracking (new_tracker 1000) 100 frame_key (1 ∷ 2 ∷ [])
      (new_tracker-IsTracking 1000)

abbrev pending : PendingFrame
pending = record { key = frame_key; expected = 1 ∷ 2 ∷ []; released = []; deadline = 1100 }

waiting-found : find frame_key waiting.pending ≡ some pending
unfolding register_frame new_tracker
waiting-found = refl

expired_only_example : find frame_key (reclaim_expired waiting 1100).0.pending ≡ none
expired_only_example = expired_only waiting 1100 frame_key pending waiting-IsTracking waiting-found

nobody_awaits_disconnected_example : among (awaits 2) (reclaim_disconnected waiting 2).0.pending ≡ 0
nobody_awaits_disconnected_example = nobody_awaits_disconnected waiting 2

accepted : (register_frame (new_tracker 1000) 100 frame_key (1 ∷ 2 ∷ [])).1 ≡ true
unfolding register_frame new_tracker
accepted = refl

all_send : (x : ℕ) → member x (1 ∷ 2 ∷ []) ≡ true → member x (2 ∷ 9 ∷ 1 ∷ []) ≡ true
all_send x h = ground (arith, h)

all_released_reclaims_example :
    find frame_key
      (release_all
        (register_frame (new_tracker 1000) 100 frame_key (1 ∷ 2 ∷ [])).0
        frame_key
        (2 ∷ 9 ∷ 1 ∷ [])
        5).pending
    ≡ none
all_released_reclaims_example =
    all_released_reclaims (new_tracker 1000) 100 frame_key (1 ∷ 2 ∷ []) (2 ∷ 9 ∷ 1 ∷ []) 5
      (new_tracker-IsTracking 1000) accepted all_send
