-- ===== src/Room/Repair/Settled.antt =====
-- A sound room is left alone by src/server/repair.ts, but for one report.
use web_sync_play.Prelude.{
  ℕ, ◌-◌, ◌≤◌, ◌≡◌, refl, true, false, List, [], ◌∷◌, ◌==◌, is_empty, length, map, map_values,
  arith, All, keep-All, take_all,
}
use web_sync_play.Room.State.{
  RoomState, PlaylistItem, Participants, PlaybackState, RoomSecurity, ActionLogEntry, Limits, Stamp,
}
use web_sync_play.Room.ActionLog.{prune_action_log, is_recent}
use web_sync_play.Room.Ownership.{Entry}
use web_sync_play.Room.Security.{normalize_room_security}
use web_sync_play.Room.Repair.{
  repair_cleanup_and_check_room_state, repair_playlist_state, repair_participants,
  repair_action_log, sanitize_playback, lost_secret, is_kept_entry, is_joined, repair_joined_at,
  has_key, is_relayed_file, has_no_status, repair_playlist_item_fields, playlist_findings,
  joined_findings, when, playlist_index_clamped,
}
use web_sync_play.Room.Repair.Sound.{IsSound}

item_settled :
    (item : PlaylistItem)
    → is_relayed_file item ≡ false
    → has_no_status item ≡ false
    → repair_playlist_item_fields item ≡ item
item_settled item a b = ground arith

items_settled :
    (items : List PlaylistItem)
    → All (λ item. (is_relayed_file item ≡ false) × (has_no_status item ≡ false)) items
    → (map repair_playlist_item_fields items ≡ items) × (playlist_findings items ≡ [])
items_settled [] h = (refl, refl)
items_settled (item ∷ items) h =
    let (a, b) = items_settled items h.1 in (cc (item_settled item h.0.0 h.0.1, a), ground arith)

playlist_settled :
    (limits : Limits) (s : RoomState)
    → s.current_index ≤ length s.playlist - 1
    → length s.playlist ≤ limits.room_playlist_limit
    → All (λ item. (is_relayed_file item ≡ false) × (has_no_status item ≡ false)) s.playlist
    → repair_playlist_state limits s ≡ (s, when (length s.playlist == 0) playlist_index_clamped)
unfolding repair_playlist_state
playlist_settled limits s i f h = let (a, b) = items_settled s.playlist h in ground arith

joined_settled :
    (now : ℕ) (ps : Participants)
    → All (λ (e : Entry). (has_key e ≡ true) × (is_joined e.1 ≡ true)) ps
    → (map_values (repair_joined_at now) ps ≡ ps)
      × (joined_findings ps ≡ [])
      × All (λ (e : Entry). has_key e ≡ true) ps
joined_settled now [] h = (refl, refl, tt)
joined_settled now ((k, p) ∷ ps) h =
    let (a, b, c) = joined_settled now ps h.1 in (ground arith, ground arith, (h.0.0, c))

participants_settled :
    (limits : Limits) (now : ℕ) (ps : Participants)
    → length ps ≤ limits.room_participants_limit
    → All (λ (e : Entry). (has_key e ≡ true) × (is_joined e.1 ≡ true)) ps
    → repair_participants limits now ps ≡ (ps, [])
unfolding repair_participants
participants_settled limits now ps f h =
    let (a, b, c) = joined_settled now ps h in
    ground (arith, keep-All has_key ps c, take_all limits.room_participants_limit ps f)

log_recent :
    (now : ℕ) (log : List ActionLogEntry)
    → All (λ entry. is_kept_entry now entry ≡ true) log
    → All (λ entry. is_recent now entry ≡ true) log
log_recent now [] h = tt
log_recent now (e ∷ log) h = (ground arith, log_recent now log h.1)

log_settled :
    (limits : Limits) (now : ℕ) (log : List ActionLogEntry)
    → length log ≤ limits.room_action_log_limit
    → All (λ entry. is_kept_entry now entry ≡ true) log
    → repair_action_log limits now log ≡ (log, [])
unfolding repair_action_log prune_action_log
log_settled limits now log f h =
    ground (
      arith,
      keep-All (is_kept_entry now) log h,
      keep-All (is_recent now) log (log_recent now log h),
    )

secured_settled : (c : RoomSecurity) → lost_secret c ≡ false → normalize_room_security c ≡ c
unfolding normalize_room_security
secured_settled c h = ground arith

playback_settled :
    (p : PlaybackState) → 25 ≤ p.playback_rate → p.playback_rate ≤ 300 → sanitize_playback p ≡ p
unfolding sanitize_playback
playback_settled p a b = ground arith

-- A repair of a sound room with an id changes nothing. It reports nothing either, unless the playlist
-- is empty: then it reports a clamped index, though the index stays 0.
pub repair_settled :
    (limits : Limits) (stamp : Stamp) (s : RoomState)
    → IsSound limits stamp.now s
    → is_empty s.room_id ≡ false
    → repair_cleanup_and_check_room_state limits stamp s
      ≡ (s, when (length s.playlist == 0) playlist_index_clamped)
unfolding repair_cleanup_and_check_room_state
repair_settled limits stamp s v id = ground (
  arith,
  playlist_settled limits s v.indexed v.list_fits v.items,
  participants_settled limits stamp.now s.participants v.people_fit v.people,
  log_settled limits stamp.now s.action_log v.log_fits v.log,
  secured_settled s.room_security v.secured,
  playback_settled s.playback v.rate_low v.rate_high,
)
