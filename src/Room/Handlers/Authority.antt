-- ===== src/Room/Handlers/Authority.antt =====
-- What a handled message may do: the handlers of src/server/realtime/handlers as a whole.
use web_sync_play.Prelude.{
  ◌+◌, ◌≤◌, ◌≡◌, String, false, none, some, List, arith, Option-cases, inl, inr, is_empty,
  if◌then◌else◌,
}
use web_sync_play.Room.State.{RoomState, Participant, Limits, Stamp}
use web_sync_play.Room.Timeline.{
  commit_playback_seek, reanchor_playback_at_now, next_monotonic_ms, mark_current_media,
}
use web_sync_play.Room.ActionLog.{append_action_log}
use web_sync_play.Room.Participants.{reconcile_participants_connectivity}
use web_sync_play.Room.Playlist.{
  apply_playlist_select, apply_playlist_reorder, apply_playlist_remove,
}
use web_sync_play.Room.Catalog.{
  apply_playlist_rename, apply_playlist_item_error, apply_playlist_item_duration,
  apply_playlist_item_title,
}
use web_sync_play.Room.Security.{normalize_room_security, Crypto, set_default_join_role}
use web_sync_play.Room.Repair.{
  repair_cleanup_and_check_room_state, repair_playlist_state, sanitize_playback,
}
use web_sync_play.Room.Mutate.{
  write, Body, MessageContext, mutate_room_message, finish_message, Commit, controlled, owner_only,
  bumps_structural_revision, close_message,
}
use web_sync_play.Room.Mutate.Frame.{write_runs}
use web_sync_play.Room.Handlers.{
  anyone, controller, owner_alone, PublishHint, item_error, item_duration, item_title, reorder,
  rename, remove, viewer_media, role_update, password_set, password_clear, default_role_set, update,
  add_local, add_url, select, loop, rate, pause, play, seek, RoomMessage, body_of, handle_message,
  hint_of, gate_of, behind, Gate,
}
use web_sync_play.Room.Handlers.Playback.{
  playback_seek, set_playback_paused_state, playback_rate_set, set_playback_loop_mode, video,
  playlist,
}
use web_sync_play.Room.Handlers.Items.{
  playlist_select, playlist_add_url, playlist_add_local, playlist_item_error,
  playlist_item_duration, playlist_item_title, playlist_reorder, playlist_rename, playlist_remove,
}
use web_sync_play.Room.Handlers.Members.{
  viewer_media_preferences, participant_role_update, room_password_set, room_password_clear,
  room_default_role_set,
}
use web_sync_play.Room.Handlers.Update.{participant_update, log_username, log_error}
use web_sync_play.Room.Handlers.Advance.{
  IsAdvanced, select-IsAdvanced, reorder-IsAdvanced, rename-IsAdvanced, remove-IsAdvanced,
  error-IsAdvanced, duration-IsAdvanced, title-IsAdvanced, security-IsAdvanced, role-IsAdvanced,
}

module _ (crypto : Crypto) (limits : Limits) (stamp : Stamp) (ctx : MessageContext) where
  body-IsAdvanced :
      (m : RoomMessage) (s t : RoomState) (p : Participant)
      → body_of crypto limits stamp ctx m s p ≡ write t
      → IsAdvanced s t
  unfolding body_of playback_seek set_playback_paused_state playback_rate_set set_playback_loop_mode
      playlist_select playlist_add_url playlist_add_local playlist_item_error playlist_item_duration
      playlist_item_title playlist_reorder playlist_rename playlist_remove viewer_media_preferences
      participant_role_update room_password_set room_password_clear room_default_role_set
      participant_update log_username log_error append_action_log commit_playback_seek
      reanchor_playback_at_now next_monotonic_ms
  body-IsAdvanced (seek target) s t p e = ground arith
  body-IsAdvanced (play at) s t p e = ground arith
  body-IsAdvanced (pause at) s t p e = ground arith
  body-IsAdvanced (rate r) s t p e = ground arith
  body-IsAdvanced (loop video mode) s t p e = ground arith
  body-IsAdvanced (loop playlist mode) s t p e = ground arith
  body-IsAdvanced (select index) s t p e =
      elim (Option-cases (apply_playlist_select s index stamp.now)) [
        | inl n ↦ ground arith
        | inr (u, n) ↦ ground (arith, select-IsAdvanced s u index stamp.now n)
      ]
  body-IsAdvanced (add_url url) s t p e = ground arith
  body-IsAdvanced (add_local file) s t p e = ground arith
  body-IsAdvanced (item_error id message) s t p e =
      elim (Option-cases (apply_playlist_item_error s id message stamp.now)) [
        | inl n ↦ ground arith
        | inr ((u, item, cleared), n) ↦
            ground (arith, error-IsAdvanced s u item id message cleared stamp.now n)
      ]
  body-IsAdvanced (item_duration id d) s t p e =
      elim (Option-cases (apply_playlist_item_duration s id d)) [
        | inl n ↦ ground arith
        | inr ((u, item), n) ↦ ground (arith, duration-IsAdvanced s u item id d n)
      ]
  body-IsAdvanced (item_title id name) s t p e =
      elim (Option-cases (apply_playlist_item_title s id name)) [
        | inl n ↦ ground arith
        | inr ((u, item), n) ↦ ground (arith, title-IsAdvanced s u item id name n)
      ]
  body-IsAdvanced (reorder from to) s t p e =
      elim (Option-cases (apply_playlist_reorder s from to)) [
        | inl n ↦ ground arith
        | inr ((u, item), n) ↦ ground (arith, reorder-IsAdvanced s u item from to n)
      ]
  body-IsAdvanced (rename id name) s t p e = elim (Option-cases (apply_playlist_rename s id name)) [
    | inl n ↦ ground arith
    | inr ((u, item, a, b), n) ↦ ground (arith, rename-IsAdvanced s u item id name a b n)
  ]
  body-IsAdvanced (remove id) s t p e = elim (Option-cases (apply_playlist_remove s id stamp.now)) [
    | inl n ↦ ground arith
    | inr ((u, item, i), n) ↦ ground (arith, remove-IsAdvanced s u item id i stamp.now n)
  ]
  body-IsAdvanced (viewer_media patch) s t p e = ground arith
  body-IsAdvanced (role_update target role) s t p e = ground arith
  body-IsAdvanced (password_set salt password) s t p e =
      ground (arith, security-IsAdvanced crypto s password salt stamp.now)
  body-IsAdvanced (update changes playback none) s t p e = ground arith
  body-IsAdvanced (update changes playback (some none)) s t p e = ground arith
  body-IsAdvanced (update changes playback (some (some error))) s t p e = ground arith
  body-IsAdvanced password_clear s t p e =
      ground (arith, (security-IsAdvanced crypto s "" "" stamp.now).1)
  body-IsAdvanced (default_role_set role) s t p e =
      elim (Option-cases (set_default_join_role s role)) [
        | inl n ↦ ground arith
        | inr (u, n) ↦ ground (arith, role-IsAdvanced s u role n)
      ]

-- A gate that lets a write through has let the body run.
behind_write :
    (g : Gate) (ctx : MessageContext) (body : Body) (s t : RoomState) (p : Participant)
    → behind g ctx body s p ≡ write t
    → body s p ≡ write t
unfolding controlled owner_only
behind_write anyone ctx body s t p e = e
behind_write controller ctx body s t p e = ground arith
behind_write owner_alone ctx body s t p e = ground arith

finish_advances :
    (limits : Limits) (stamp : Stamp) (user_id : String) (hint : PublishHint) (s : RoomState)
    → let t = finish_message limits stamp user_id hint s in
      (t.room_id ≡ s.room_id)
      × (t.generation ≡ s.generation + 1)
      × (t.structural_revision
          ≡ s.structural_revision + (if bumps_structural_revision hint then 1 else 0))
      × (t.playback.server_now_ms ≡ s.playback.server_now_ms)
      × (t.room_security.admission_version ≡ s.room_security.admission_version)
      × (t.owner_id ≡ (if is_empty s.owner_id then stamp.new_id else s.owner_id))
unfolding finish_message close_message mark_current_media repair_cleanup_and_check_room_state
    repair_playlist_state sanitize_playback normalize_room_security
finish_advances limits stamp user_id hint s =
    (ground arith, ground arith, ground arith, ground arith, ground arith, ground arith)

-- The moves of any room, with or without an owner.
pub message_moves :
    (crypto : Crypto) (limits : Limits) (stamp : Stamp) (active : List String)
    (ctx : MessageContext) (m : RoomMessage) (s : RoomState) (c : Commit)
    → (handle_message crypto limits stamp active ctx m (some s)).0 ≡ write c
    → (c.state.room_id ≡ s.room_id)
      × (c.state.generation ≡ s.generation + 1)
      × (c.state.structural_revision
          ≡ s.structural_revision + (if bumps_structural_revision (hint_of m) then 1 else 0))
      × (s.playback.server_now_ms ≤ c.state.playback.server_now_ms)
      × (s.room_security.admission_version ≤ c.state.room_security.admission_version)
      × (c.state.owner_id ≡ (if is_empty s.owner_id then stamp.new_id else s.owner_id))
unfolding handle_message mutate_room_message reconcile_participants_connectivity
message_moves crypto limits stamp active ctx m s c e =
    let body = body_of crypto limits stamp ctx m in
    let recon = reconcile_participants_connectivity s active stamp.now in
    let (p, next, _, run, f) =
      write_runs limits stamp active ctx.user_id (behind (gate_of m) ctx body) (hint_of m) s c e in
    let (a, b, g, r, k, v) =
      body-IsAdvanced crypto limits stamp ctx m recon.state next p
        (behind_write (gate_of m) ctx body recon.state next p run) in
    let (a1, g1, r1, k1, v1, b1) = finish_advances limits stamp ctx.user_id (hint_of m) next in
    rw f (
      ground (arith, a, a1),
      ground (arith, g, g1),
      ground (arith, r, r1),
      ground (arith, k, k1),
      ground (arith, v, v1),
      ground (arith, b, b1),
    )

-- Every message that writes, of whatever kind, raises the generation by exactly one, and the
-- structural revision by one exactly if its hint asks for a snapshot or a log; it never moves the
-- playback clock or the admission version back, and it keeps the room's id and, in a room that has
-- an owner, the owner.
pub messages_advance :
    (crypto : Crypto) (limits : Limits) (stamp : Stamp) (active : List String)
    (ctx : MessageContext) (m : RoomMessage) (s : RoomState) (c : Commit)
    → is_empty s.owner_id ≡ false
    → (handle_message crypto limits stamp active ctx m (some s)).0 ≡ write c
    → (c.state.room_id ≡ s.room_id)
      × (c.state.owner_id ≡ s.owner_id)
      × (c.state.generation ≡ s.generation + 1)
      × (c.state.structural_revision
          ≡ s.structural_revision + (if bumps_structural_revision (hint_of m) then 1 else 0))
      × (s.playback.server_now_ms ≤ c.state.playback.server_now_ms)
      × (s.room_security.admission_version ≤ c.state.room_security.admission_version)
messages_advance crypto limits stamp active ctx m s c owned e =
    let (a, g, r, k, v, b) = message_moves crypto limits stamp active ctx m s c e in
    (a, ground (arith, b, owned), g, r, k, v)
