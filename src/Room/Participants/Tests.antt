-- ===== src/Room/Participants/Tests.antt =====
-- The theorems on src/server/realtime/services/participants.ts, applied to concrete rooms, people and messages.
use web_sync_play.Room.Participants.{remove_disconnected_participant, Participant}
use web_sync_play.Prelude.{
  str_eq, or_else, lookup, is_some, refl, arith, ◌+◌, ◌≡◌, if◌then◌else◌, true, false, some, String,
}
use web_sync_play.Room.Samples.{cinema-IsNamed, small_limits, cinema, noon}
use web_sync_play.Room.Participants.Grace.{removal_keeps_owner}

removal_keeps_owner_example :
    (is_some (
        lookup
          (or_else (remove_disconnected_participant small_limits noon cinema "cal") cinema).owner_id
          (or_else
            (remove_disconnected_participant small_limits noon cinema "cal")
            cinema).participants)
      ≡ true)
    × ((k : String)
        → is_some (
            lookup k
              (or_else
                (remove_disconnected_participant small_limits noon cinema "cal")
                cinema).participants)
          ≡ (if str_eq "cal" k then false else is_some (lookup k cinema.participants)))
    × ((p : Participant) × (lookup "cal" cinema.participants ≡ some p) × (p.connected ≡ false))
    × ((or_else (remove_disconnected_participant small_limits noon cinema "cal") cinema).generation
        ≡ cinema.generation + 1)
    × ((or_else
          (remove_disconnected_participant small_limits noon cinema "cal")
          cinema).structural_revision
        ≡ cinema.structural_revision + 1)
unfolding remove_disconnected_participant
removal_keeps_owner_example =
    removal_keeps_owner small_limits noon cinema
      (or_else (remove_disconnected_participant small_limits noon cinema "cal") cinema) "cal"
      (refl, (refl, (refl, tt))) (cinema-IsNamed) (λ e. ground arith) refl
