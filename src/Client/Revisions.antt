-- ===== src/Client/Revisions.antt =====
-- The revisions of a client's room: src/client/realtime/room-state-merge.ts
use web_sync_play.Prelude.{◌≤◌, ◌<◌, ◌≡◌, refl, some, List, [], ◌∷◌, or_else, arith}
use web_sync_play.Room.State.{RoomSnapshot}
use web_sync_play.Room.Messages.{RoomControl, PresenceBatch}
use web_sync_play.Client.{
  apply_room_control, apply_presence_batch, apply_room_snapshot, Envelope, room_control,
  presence_batch, room_snapshot, receive, receive_all, merged_playback,
}

-- No revision of `t` lies below that of `s`.
abbrev pub IsLater : RoomSnapshot → RoomSnapshot → Type 0
IsLater s t =
    (s.generation ≤ t.generation)
    × (s.structural_revision ≤ t.structural_revision)
    × (or_else s.presence_revision 0 ≤ or_else t.presence_revision 0)

receive-IsLater :
    (s : RoomSnapshot) (e : Envelope)
    → (t : RoomSnapshot) × (receive (some s) e ≡ some t) × IsLater s t
unfolding receive apply_room_control apply_presence_batch apply_room_snapshot
receive-IsLater s (room_control payload) =
    (apply_room_control s payload, refl, (ground arith, ground arith, ground arith))
receive-IsLater s (presence_batch payload) =
    (apply_presence_batch s payload, refl, (ground arith, ground arith, ground arith))
receive-IsLater s (room_snapshot payload) =
    (apply_room_snapshot s payload, refl, (ground arith, ground arith, ground arith))

-- A client that has a room keeps one through any sequence of envelopes, in whatever order they come,
-- and none of its three revisions falls.
pub receive_all-IsLater :
    (s : RoomSnapshot) (es : List Envelope)
    → (t : RoomSnapshot) × (receive_all (some s) es ≡ some t) × IsLater s t
unfolding receive_all
receive_all-IsLater s [] = (s, refl, (ground arith, ground arith, ground arith))
receive_all-IsLater s (e ∷ es) =
    let (t, a, h) = receive-IsLater s e in
    let (u, b, k) = receive_all-IsLater t es in
    (u, ground (arith, a, b), (ground arith, ground arith, ground arith))

-- A presence batch counts once: a client that has taken it, and any presence envelopes after that,
-- takes it no more.
pub batch_counts_once :
    (s : RoomSnapshot) (b : PresenceBatch) (es : List Envelope)
    → (t : RoomSnapshot) × (receive_all (receive (some s) (presence_batch b)) es ≡ some t)
      × (apply_presence_batch t b ≡ t)
unfolding receive apply_presence_batch
batch_counts_once s b es =
    let (t, a, h) = receive_all-IsLater (apply_presence_batch s b) es in (t, a, ground arith)

-- A control and a snapshot that are older than what the client has leave the playback, the current index
-- and the generation as they are, whatever else they carry.
pub stale_playback :
    (s : RoomSnapshot) (c : RoomControl) (p : RoomSnapshot)
    → c.generation < s.generation
    → p.generation < s.generation
    → (apply_room_control s c ≡ s)
      × ((apply_room_snapshot s p).playback ≡ s.playback)
      × ((apply_room_snapshot s p).current_index ≡ s.current_index)
      × ((apply_room_snapshot s p).generation ≡ s.generation)
unfolding apply_room_control apply_room_snapshot merged_playback
stale_playback s c p h k = (ground arith, ground arith, ground arith, ground arith)
