-- ===== src/Room/Mutate/Tests.antt =====
-- The theorems on the frame of src/server/realtime/handlers, applied to concrete rooms, people and messages.
use web_sync_play.Room.Permissions.{passes_session_gate}
use web_sync_play.Room.Handlers.Playback.{playback_seek}
use web_sync_play.Room.State.{Participant}
use web_sync_play.Room.Mutate.{
  abort, unauthorized, nack, deny, can_control_from_connection_context, snapshot, control, write,
  controlled, owner_only, reconcile_participants_connectivity, RoomState, mutate_room_message,
}
use web_sync_play.Prelude.{
  str_eq, lookup, is_some, refl, arith, ◌∷◌, [], ◌≡◌, ◌&&◌, if◌then◌else◌, some,
}
use web_sync_play.Room.Participants.{reconcile_participants_connectivity}
use web_sync_play.Room.Samples.{commit_of, sender, online, small_limits, cinema, noon}
use web_sync_play.Room.Mutate.Gate.{control_gate, owner_gate}
use web_sync_play.Room.Mutate.Frame.{IsSettled, write-IsSettled}

control_gate_example :
    mutate_room_message small_limits noon online
      (sender "cal").user_id
      (controlled (sender "cal") (λ s p. write s))
      control
      (some cinema)
    ≡ (if is_some (lookup (sender "cal").user_id cinema.participants)
        then (if can_control_from_connection_context cinema
              (sender "cal").user_id
              (sender "cal").auth
            then mutate_room_message small_limits noon online
                (sender "cal").user_id
                (λ s p. write s)
                control
                (some cinema)
            else (deny, nack unauthorized ∷ []))
        else (abort, []))
control_gate_example =
    control_gate small_limits noon online (sender "cal") (λ s p. write s) control cinema

owner_gate_example :
    mutate_room_message small_limits noon online
      (sender "bob").user_id
      (owner_only (sender "bob") (λ s p. write s))
      snapshot
      (some cinema)
    ≡ (if is_some (lookup (sender "bob").user_id cinema.participants)
        then (if passes_session_gate (sender "bob").auth
              && str_eq cinema.owner_id (sender "bob").user_id
            then mutate_room_message small_limits noon online
                (sender "bob").user_id
                (λ s p. write s)
                snapshot
                (some cinema)
            else (deny, nack unauthorized ∷ []))
        else (abort, []))
owner_gate_example =
    owner_gate small_limits noon online (sender "bob") (λ s p. write s) snapshot cinema

write-IsSettled_example :
    (p : Participant) × (next : RoomState) × ((playback_seek small_limits noon (sender "bob") 5000)
        (reconcile_participants_connectivity cinema online noon.now).state
        p
      ≡ write next)
    × IsSettled small_limits noon "bob" control next
        (commit_of
          (mutate_room_message small_limits noon online "bob"
            (playback_seek small_limits noon (sender "bob") 5000)
            control
            (some cinema)).0).state
unfolding mutate_room_message reconcile_participants_connectivity playback_seek
write-IsSettled_example =
    write-IsSettled small_limits noon online "bob"
      (playback_seek small_limits noon (sender "bob") 5000) control cinema
      (commit_of
        (mutate_room_message small_limits noon online "bob"
          (playback_seek small_limits noon (sender "bob") 5000) control (some cinema)).0)
      (omega arith) (omega arith) refl refl
