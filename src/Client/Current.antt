-- ===== src/Client/Current.antt =====
-- The current item of a client's room: src/client/realtime/room-state-merge.ts
use web_sync_play.Prelude.{
  suc, ℕ, ◌≤◌, ◌≡◌, String, true, false, some, List, [], ◌∷◌, arith, Bool-cases, inl, inr, is_empty,
  any, find_index,
}
use web_sync_play.Room.State.{RoomSnapshot, PlaylistItem}
use web_sync_play.Room.Messages.{RoomControl}
use web_sync_play.Room.Playlist.{has_id}
use web_sync_play.Client.{apply_room_control, reconcile_control_current_index, names_item}

found_names :
    (items : List PlaylistItem) (media_id : String)
    → any (has_id media_id) items ≡ true
    → (i : ℕ) × (find_index (has_id media_id) items ≡ some i) × (names_item items i media_id ≡ true)
found_names [] media_id h = ground arith
found_names (item ∷ items) media_id h = elim (Bool-cases (has_id media_id item)) [
  | inl t ↦ (0, ground arith, ground arith)
  | inr f ↦
      let (i, a, b) = found_names items media_id (ground arith) in
      (suc i, ground (arith, a), ground (arith, b))
]

-- A control that is not older than the client's room and whose media the client's playlist lists makes
-- that item current, whatever index the control carries for the server's playlist.
pub control_names_media :
    (s : RoomSnapshot) (c : RoomControl) (media_id : String)
    → s.generation ≤ c.generation
    → c.playback.media_id ≡ some media_id
    → is_empty media_id ≡ false
    → any (has_id media_id) s.playlist ≡ true
    → names_item (apply_room_control s c).playlist (apply_room_control s c).current_index media_id
      ≡ true
unfolding apply_room_control reconcile_control_current_index
control_names_media s c media_id h m nonempty listed =
    let (i, a, b) = found_names s.playlist media_id listed in
    elim (Bool-cases (names_item s.playlist c.current_index media_id)) [
      | inl t ↦ ground arith
      | inr f ↦ ground (arith, a, b)
    ]
