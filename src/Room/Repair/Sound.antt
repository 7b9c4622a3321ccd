-- ===== src/Room/Repair/Sound.antt =====
-- What a repair of src/server/repair.ts guarantees of any room.
use web_sync_play.Prelude.{
  ℕ, ◌-◌, ◌≤◌, ◌<◌, ◌≡◌, true, false, List, [], ◌∷◌, ltb, is_empty, length, keep, take, map,
  map_values, arith, All, All-keep_self, All-drop, All-take, Bool-cases, inl, inr, length-drop,
  length-take-le, length-map_values,
}
use web_sync_play.Room.State.{
  RoomState, PlaylistItem, Participant, Participants, PlaybackState, RoomSecurity, ActionLogEntry,
  Limits, Stamp,
}
use web_sync_play.Room.ActionLog.Bounds.{prune_bounds, prune-All}
use web_sync_play.Room.Ownership.{Entry}
use web_sync_play.Room.Security.{normalize_room_security}
use web_sync_play.Room.Playlist.Index.{IsIndexed}
use web_sync_play.Room.Repair.{
  repair_cleanup_and_check_room_state, repair_playlist_state, repair_participants,
  repair_action_log, sanitize_playback, lost_secret, is_kept_entry, is_joined, repair_joined_at,
  has_key, is_relayed_file, has_no_status, repair_playlist_item_fields,
}

-- A room with nothing left to repair.
pub record IsSound (limits : Limits) (now : ℕ) (s : RoomState) : Type 0 where
  pub owned : is_empty s.owner_id ≡ false
  pub secured : lost_secret s.room_security ≡ false
  pub indexed : IsIndexed s
  pub list_fits : length s.playlist ≤ limits.room_playlist_limit
  pub items : All (λ item. (is_relayed_file item ≡ false) × (has_no_status item ≡ false)) s.playlist
  pub people_fit : length s.participants ≤ limits.room_participants_limit
  pub people : All (λ (e : Entry). (has_key e ≡ true) × (is_joined e.1 ≡ true)) s.participants
  pub log_fits : length s.action_log ≤ limits.room_action_log_limit
  pub log : All (λ entry. is_kept_entry now entry ≡ true) s.action_log
  pub rate_low : 25 ≤ s.playback.playback_rate
  pub rate_high : s.playback.playback_rate ≤ 300
  pub dated : 0 < s.updated_at

item_repaired :
    (item : PlaylistItem)
    → (is_relayed_file (repair_playlist_item_fields item) ≡ false)
      × (has_no_status (repair_playlist_item_fields item) ≡ false)
item_repaired item = ground arith

All-items :
    (items : List PlaylistItem)
    → All
        (λ item. (is_relayed_file item ≡ false) × (has_no_status item ≡ false))
        (map repair_playlist_item_fields items)
All-items [] = tt
All-items (item ∷ items) = (item_repaired item, All-items items)

playlist_repaired :
    (limits : Limits) (s : RoomState)
    → 0 < limits.room_playlist_limit
    → let t = (repair_playlist_state limits s).0 in
      IsIndexed t
      × (length t.playlist ≤ limits.room_playlist_limit)
      × All (λ item. (is_relayed_file item ≡ false) × (has_no_status item ≡ false)) t.playlist
unfolding repair_playlist_state
playlist_repaired limits s h = elim (Bool-cases (ltb limits.room_playlist_limit (length items))) [
  | inl t ↦ rw t (
    ground (arith, length-drop over items),
    ground (arith, length-drop over items),
    All-drop _ over items (All-items s.playlist),
  )
  | inr t ↦ rw t (ground arith, ground arith, All-items s.playlist)
]
  where
    items : List PlaylistItem
    items = map repair_playlist_item_fields s.playlist

    over : ℕ
    over = length items - limits.room_playlist_limit

All-joined :
    (now : ℕ) (ps : Participants)
    → 0 < now
    → All (λ (e : Entry). has_key e ≡ true) ps
    → All
        (λ (e : Entry). (has_key e ≡ true) × (is_joined e.1 ≡ true))
        (map_values (repair_joined_at now) ps)
All-joined now [] h a = tt
All-joined now ((k, p) ∷ ps) h a = ((a.0, joined p), All-joined now ps h a.1)
  where
    joined : (q : Participant) → is_joined (repair_joined_at now q) ≡ true
    joined q = ground arith

participants_repaired :
    (limits : Limits) (now : ℕ) (ps : Participants)
    → 0 < now
    → let qs = (repair_participants limits now ps).0 in
      (length qs ≤ limits.room_participants_limit)
      × All (λ (e : Entry). (has_key e ≡ true) × (is_joined e.1 ≡ true)) qs
unfolding repair_participants
participants_repaired limits now ps h = (
  omega (
    arith,
    length-map_values (repair_joined_at now) kept,
    length-take-le limits.room_participants_limit (keep has_key ps),
  ),
  All-joined now kept h
      (All-take _ limits.room_participants_limit (keep has_key ps) (All-keep_self has_key ps)),
)
  where
    kept : Participants
    kept = take limits.room_participants_limit (keep has_key ps)

action_log_repaired :
    (limits : Limits) (now : ℕ) (log : List ActionLogEntry)
    → let l = (repair_action_log limits now log).0 in
      (length l ≤ limits.room_action_log_limit) × All (λ entry. is_kept_entry now entry ≡ true) l
unfolding repair_action_log
action_log_repaired limits now log = (
  (prune_bounds limits valid now).0,
  prune-All (λ entry. is_kept_entry now entry ≡ true) limits valid now
      (All-keep_self (is_kept_entry now) log),
)
  where
    valid : List ActionLogEntry
    valid = keep (is_kept_entry now) log

secured_repaired : (c : RoomSecurity) → lost_secret (normalize_room_security c) ≡ false
unfolding normalize_room_security
secured_repaired c = ground arith

rate_repaired :
    (p : PlaybackState)
    → (25 ≤ (sanitize_playback p).playback_rate) × ((sanitize_playback p).playback_rate ≤ 300)
unfolding sanitize_playback
rate_repaired p = omega arith

-- A repair leaves a sound room, whatever the room was: an owner, secrets for an enabled password, an
-- index into the playlist, lists within their limits, items with a status, participants with a date
-- of joining, a log of tracked, recent entries, a rate between 0.25 and 3 and a date. The playlist
-- limit and the clock are positive, and new ids are not empty.
pub repair-IsSound :
    (limits : Limits) (stamp : Stamp) (s : RoomState)
    → 0 < limits.room_playlist_limit
    → 0 < stamp.now
    → is_empty stamp.new_id ≡ false
    → IsSound limits stamp.now (repair_cleanup_and_check_room_state limits stamp s).0
unfolding repair_cleanup_and_check_room_state
repair-IsSound limits stamp s h now id =
    let (indexed, fits, items) = playlist_repaired limits s h in
    let (people_fit, people) = participants_repaired limits stamp.now s.participants now in
    let (log_fits, log) = action_log_repaired limits stamp.now s.action_log in
    let (low, high) = rate_repaired s.playback in
    record {
      owned = ground arith;
      secured = secured_repaired s.room_security;
      indexed = indexed;
      list_fits = fits;
      items = items;
      people_fit = people_fit;
      people = people;
      log_fits = log_fits;
      log = log;
      rate_low = low;
      rate_high = high;
      dated = ground arith;
    }
