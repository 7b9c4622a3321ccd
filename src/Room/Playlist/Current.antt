-- ===== src/Room/Playlist/Current.antt =====
-- Which item is current after a move or a removal: src/server/realtime/services/playlist-ops.ts.
use mathlib.Core.List.{Perm}
use web_sync_play.Prelude.{
  ℕ, suc, ◌-◌, ◌<◌, ◌≡◌, ◌≢◌, refl, String, true, false, Option, none, some, List, arith, length,
  get_elem?, remove_at, insert_at, find_index, any, any-splice, any_of_get_elem?, find_index-any,
  find_index-eq-some, splice-perm, Option-cases, inl, inr, lt-of-get_elem?, Bool-cases, is_empty,
  eq_iff, eq_refl, get_elem?-remove_at_below, get_elem?-remove_at_above, lookup, lookup-erase,
  lookup-map_values, erase, ltb, min, subst, is_some, nil-cases, if◌then◌else◌, ◌==◌,
}
use web_sync_play.Room.State.{RoomState, PlaylistItem, Participant, ViewerMedia}
use web_sync_play.Room.Timeline.{media_id_at, reset_playback_timeline}
use web_sync_play.Room.Playlist.{
  has_id, apply_playlist_reorder, apply_playlist_remove, reindex, settle_removal,
  prune_viewer_media, without_item, prune_viewer_media_item_id,
}

-- A reorder permutes the playlist.
pub reorder-perm :
    (s t : RoomState) (from to : ℕ) (item : PlaylistItem)
    → apply_playlist_reorder s from to ≡ some (t, item)
    → Perm t.playlist s.playlist
unfolding apply_playlist_reorder
reorder-perm s t from to item e = elim (Option-cases (get_elem? s.playlist from)) [
  | inl q ↦ absurd (ground arith)
  | inr (v, q) ↦
      let p : t.playlist ≡ insert_at (remove_at s.playlist from) to v = ground arith in
      rw p (splice-perm s.playlist from to q)
]

reindex_media :
    (m : String) (items : List PlaylistItem) (index : ℕ)
    → is_empty m ≡ false
    → any (has_id m) items ≡ true
    → media_id_at items (reindex (some m) items index) ≡ some m
unfolding reindex
reindex_media m items index h k = elim (Option-cases (find_index (has_id m) items)) [
  | inl q ↦ absurd (ground (arith, find_index-any (has_id m) items q))
  | inr (i, q) ↦
      let (a, g, t) = find_index-eq-some (has_id m) items (some i) i q refl in
      ground (arith, eq_iff a.id m)
]

-- A reorder keeps the same media current, if the current item has an id.
pub reorder_keeps_current :
    (s t : RoomState) (from to : ℕ) (item : PlaylistItem) (m : String)
    → media_id_at s.playlist s.current_index ≡ some m
    → is_empty m ≡ false
    → apply_playlist_reorder s from to ≡ some (t, item)
    → media_id_at t.playlist t.current_index ≡ some m
unfolding apply_playlist_reorder
reorder_keeps_current s t from to item m c h e = elim (Option-cases (get_elem? s.playlist from)) [
  | inl q ↦ absurd (ground arith)
  | inr (v, q) ↦ elim (Option-cases (get_elem? s.playlist s.current_index)) [
    | inl g ↦ ground arith
    | inr (a, g) ↦
        let items : List PlaylistItem = insert_at (remove_at s.playlist from) to v in
        let found : any (has_id m) s.playlist ≡ true =
          any_of_get_elem? (has_id m) s.playlist s.current_index a g
            (ground (arith, eq_iff a.id m)) in
        ground (
          arith,
          any-splice (has_id m) s.playlist from to v q,
          reindex_media m items s.current_index,
        )
  ]
]

-- A removal takes out the first item of that id, and only it.
pub remove_takes_out :
    (s t : RoomState) (item_id : String) (now index : ℕ) (item : PlaylistItem)
    → apply_playlist_remove s item_id now ≡ some (t, item, index)
    → (t.playlist ≡ remove_at s.playlist index)
      × (get_elem? s.playlist index ≡ some item)
      × (item.id ≡ item_id)
unfolding apply_playlist_remove
remove_takes_out s t item_id now index item e =
    elim (Option-cases (find_index (has_id item_id) s.playlist)) [
      | inl q ↦ ground arith
      | inr (i, q) ↦
          let (a, g, p) = find_index-eq-some (has_id item_id) s.playlist (some i) i q refl in
          ground (arith, eq_iff a.id item_id)
    ]

settle_removal_keeps :
    (s : RoomState) (index now : ℕ) (a : PlaylistItem)
    → get_elem? s.playlist s.current_index ≡ some a
    → index ≢ s.current_index
    → media_id_at
        (remove_at s.playlist index)
        (settle_removal
          (record s { playlist = remove_at s.playlist index })
          index
          now).current_index
      ≡ some a.id
unfolding settle_removal
settle_removal_keeps s index now a g h = elim (Bool-cases (ltb index s.current_index)) [
  | inl below ↦
      let e : s.current_index ≡ suc (s.current_index - 1) = ground arith in
      ground (
        arith,
        get_elem?-remove_at_above s.playlist index (s.current_index - 1),
        lt-of-get_elem? (remove_at s.playlist index) (s.current_index - 1) {a = a},
        e,
        subst (λ i. get_elem? s.playlist i ≡ some a) e g,
      )
  | inr above ↦ ground (
    arith,
    get_elem?-remove_at_below s.playlist index s.current_index,
    lt-of-get_elem? (remove_at s.playlist index) s.current_index {a = a},
  )
]

-- A removal of another item than the current one keeps the same media current, if there is any.
pub remove_keeps_current :
    (s t : RoomState) (item_id : String) (now index : ℕ) (item : PlaylistItem) (m : String)
    → media_id_at s.playlist s.current_index ≡ some m
    → apply_playlist_remove s item_id now ≡ some (t, item, index)
    → index ≢ s.current_index
    → media_id_at t.playlist t.current_index ≡ some m
unfolding apply_playlist_remove
remove_keeps_current s t item_id now index item m c e h =
    elim (Option-cases (find_index (has_id item_id) s.playlist)) [
      | inl q ↦ ground arith
      | inr (i, q) ↦ elim (Option-cases (get_elem? s.playlist i)) [
        | inl g ↦ ground arith
        | inr (v, g) ↦ elim (Option-cases (get_elem? s.playlist s.current_index)) [
          | inl f ↦ ground arith
          | inr (a, f) ↦
              let k : i ≡ index = ground arith in
              ground (arith, settle_removal_keeps s i now a f (rw k h), k)
        ]
      ]
    ]

-- A removal of the current item puts the next one in its place, or the last, from the start; with
-- none left the room pauses. The stamp of the timeline moves forward.
pub remove_current :
    (s t : RoomState) (item_id : String) (now index : ℕ) (item : PlaylistItem)
    → apply_playlist_remove s item_id now ≡ some (t, item, index)
    → index ≡ s.current_index
    → (t.current_index ≡ min index (length t.playlist - 1))
      × (t.playback.timeline_anchor_ms ≡ 0)
      × (s.playback.server_now_ms < t.playback.server_now_ms)
      × (t.playback.paused ≡ (if length t.playlist == 0 then true else s.playback.paused))
unfolding apply_playlist_remove reset_playback_timeline
remove_current s t item_id now index item e h =
    elim (Option-cases (find_index (has_id item_id) s.playlist)) [
      | inl q ↦ ground arith
      | inr (i, q) ↦ elim (Option-cases (get_elem? s.playlist i)) [
        | inl g ↦ ground arith
        | inr (v, g) ↦ ground arith
      ]
    ]

pruned_media :
    (item_id : String) (media : Option ViewerMedia) (rest : ViewerMedia)
    → prune_viewer_media item_id media ≡ some rest
    → lookup item_id rest ≡ none
pruned_media item_id none rest e = cc
pruned_media item_id (some m) rest e = elim (Bool-cases (is_some (lookup item_id m))) [
  | inl k ↦ elim (nil-cases (erase item_id m)) [
    | inl n ↦ ground arith
    | inr (p, ps, n) ↦ ground (arith, lookup-erase item_id item_id m, eq_refl item_id)
  ]
  | inr k ↦ ground arith
]

participants-settle_removal :
    (s : RoomState) (index now : ℕ) → (settle_removal s index now).participants ≡ s.participants
unfolding settle_removal
participants-settle_removal s index now = ground arith

remove_participants :
    (s t : RoomState) (item_id : String) (now index : ℕ) (item : PlaylistItem)
    → apply_playlist_remove s item_id now ≡ some (t, item, index)
    → t.participants ≡ prune_viewer_media_item_id s.participants item_id
unfolding apply_playlist_remove
remove_participants s t item_id now index item e =
    elim (Option-cases (find_index (has_id item_id) s.playlist)) [
      | inl q ↦ ground arith
      | inr (i, q) ↦
          let (a, g, p) = find_index-eq-some (has_id item_id) s.playlist (some i) i q refl in
          let left : RoomState = record s { playlist = remove_at s.playlist i } in
          ground (arith, eq_iff a.id item_id, participants-settle_removal left i now)
    ]

-- No viewer keeps a preference for an item that is removed.
pub remove_prunes_viewers :
    (s t : RoomState) (item_id user_id : String) (now index : ℕ) (item : PlaylistItem)
    (p : Participant) (media : ViewerMedia)
    → apply_playlist_remove s item_id now ≡ some (t, item, index)
    → lookup user_id t.participants ≡ some p
    → p.viewer_media ≡ some media
    → lookup item_id media ≡ none
unfolding prune_viewer_media_item_id
remove_prunes_viewers s t item_id user_id now index item p media e l v =
    let l' : lookup user_id (prune_viewer_media_item_id s.participants item_id) ≡ some p =
      rw (← remove_participants s t item_id now index item e) l in
    elim (Option-cases (lookup user_id s.participants)) [
      | inl q ↦ ground (arith, lookup-map_values user_id (without_item item_id) s.participants)
      | inr (old, q) ↦
          let k : prune_viewer_media item_id old.viewer_media ≡ some media =
            ground (arith, lookup-map_values user_id (without_item item_id) s.participants) in
          pruned_media item_id old.viewer_media media k
    ]
