-- ===== src/Tests/SessionTests.antt =====
-- Small histories of CameraSessionManager (src/camera/camera_session_manager.cpp).
use camera_subsystem.Prelude.{
  ◌+◌, ◌≡◌, true, false, not, ◌&&◌, some, List, [], ◌∷◌, arith, if◌then◌else◌, tally, codes,
  is_empty, bytes_eq, nat_eq, ◌=?◌, find,
}
use camera_subsystem.Ipc.Contract.{
  CameraEndpoint, make_default_camera_endpoint, subscriber, sub_publisher,
}
use camera_subsystem.Session.{
  key_eq, key_of, Manager, returns, throws, new_manager, subscribe, unsubscribe, Request, registers,
  subscribes, unsubscribes, run,
}
use camera_subsystem.Session.Consistency.{IsConsistent}
use camera_subsystem.Session.Histories.{sessions_consistent}
use camera_subsystem.Session.Membership.{
  role_of, Leaves, is_there, subscribe-Joins, unsubscribe-Leaves,
}
use camera_subsystem.Session.Callbacks.{begins, ends, present, starts_and_stops}

abbrev front : CameraEndpoint
front = make_default_camera_endpoint 0

abbrev side : CameraEndpoint
side = make_default_camera_endpoint 1

abbrev history : List Request
history =
    registers (codes "core")
    ∷ subscribes (codes "a") subscriber front (returns true)
    ∷ subscribes (codes "b") sub_publisher front throws
    ∷ subscribes (codes "b") subscriber side (returns false)
    ∷ unsubscribes (codes "a") front
    ∷ []

sessions_consistent_example : IsConsistent 5 (run (new_manager true true) history)
sessions_consistent_example = sessions_consistent true true history (omega arith)

starts_and_stops_example :
    let m = run (new_manager true true) history in
    tally (begins (key_of front)) m.calls
    ≡ tally (ends (key_of front)) m.calls + present (find (key_of front) m.sessions)
starts_and_stops_example = starts_and_stops history (key_of front) (omega arith)

abbrev joined : Manager
joined = run (new_manager true true) (registers (codes "core") ∷ [])

subscribe-Joins_example :
    let r = subscribe joined (codes "a") subscriber front (returns true) in
    role_of r.0 (key_of front) (codes "a") ≡ (
      if r.1 && (key_of front =? key_of front && codes "a" =? codes "a")
      then some subscriber
      else role_of joined (key_of front) (codes "a"))
subscribe-Joins_example =
    subscribe-Joins joined (codes "a") subscriber front (returns true) (key_of front) (codes "a")

unsubscribe-Leaves_example :
    let r = unsubscribe joined (codes "a") front in
    (r.1 ≡ (not (is_empty (codes "a")) && is_there (role_of joined (key_of front) (codes "a"))))
    × Leaves joined (key_of front) (codes "a") r.0.sessions r.1
unsubscribe-Leaves_example = unsubscribe-Leaves joined (codes "a") front
