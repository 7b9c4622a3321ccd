-- ===== src/Room/Offline/Tests.antt =====
-- The theorems on src/server/realtime/services/disconnect.ts, applied to concrete rooms, people and messages.
use web_sync_play.Room.Timeline.{resolve_current_timeline_ms}
use web_sync_play.Room.Offline.{
  PlaylistItem, Participant, invalidates_current, apply_user_went_offline,
}
use web_sync_play.Prelude.{refl, get_elem?, some, str_eq, lookup, ◌≡◌, if◌then◌else◌, String}
use web_sync_play.Room.Samples.{shared_file, bob, small_limits, cinema, noon}
use web_sync_play.Room.Offline.Effects.{IsLeftBy, IsGone, went_offline, offline_pause}

went_offline_example :
    let t = (apply_user_went_offline small_limits noon cinema "bob").0 in
    ((q : Participant) × IsGone noon.now bob q
      × ((k : String)
          → lookup k t.participants
            ≡ (if str_eq "bob" k then some q else lookup k cinema.participants)))
    × ((left : PlaylistItem) × (get_elem? t.playlist 1 ≡ some left)
        × IsLeftBy "bob" shared_file left)
    × (t.owner_id ≡ cinema.owner_id)
went_offline_example = went_offline small_limits noon cinema "bob" bob 1 shared_file refl refl

offline_pause_example :
    let t = (apply_user_went_offline small_limits noon cinema "bob").0 in
    resolve_current_timeline_ms t.playback 200000 ≡ (
      if invalidates_current "bob" cinema
      then cinema.playback.timeline_anchor_ms
      else resolve_current_timeline_ms cinema.playback 200000)
offline_pause_example = offline_pause small_limits noon cinema "bob" 200000
