-- ===== src/Room/Catalog/Items.antt =====
-- Changes to one item: src/server/realtime/services/playlist-ops.ts.
use web_sync_play.Prelude.{
  ℕ, ◌≡◌, refl, String, Bool, true, false, Option, some, List, arith, get_elem?, find_index, map,
  map-modify_at, find_index-modify_at, get_elem?-modify_at, Option-cases, inl, inr, Bool-cases,
  is_empty, modify_at, trim, ◌∙◌, ◌&&◌,
}
use web_sync_play.Room.State.{RoomState, PlaylistItem, is_error_status}
use web_sync_play.Room.Playlist.{has_id, is_truthy}
use web_sync_play.Room.Catalog.{
  apply_playlist_rename, apply_playlist_item_title, apply_playlist_item_duration,
  apply_playlist_item_error, advance_past, mark_item_error, clear_item_error, round_seconds,
}

abbrev pub id_of : PlaylistItem → String
id_of item = item.id

abbrev pub ids : RoomState → List String
ids s = map id_of s.playlist

playlist-advance_past :
    (s : RoomState) (index now : ℕ) → (advance_past s index now).playlist ≡ s.playlist
unfolding advance_past
playlist-advance_past s index now = ground arith

-- The item that carries a reported error, where it stands in the list.
abbrev HasFailed : String → List PlaylistItem → Type 0
HasFailed item_id items =
    (i : ℕ) × (a : PlaylistItem) × (find_index (has_id item_id) items ≡ some i)
    × (get_elem? items i ≡ some a)
    × (is_error_status a.ingest_status ≡ true)
    × (is_truthy a.ingest_error ≡ true)

marked-HasFailed :
    (items : List PlaylistItem) (item_id m : String) (i : ℕ) (a : PlaylistItem)
    → is_empty m ≡ false
    → find_index (has_id item_id) items ≡ some i
    → get_elem? items i ≡ some a
    → HasFailed item_id (modify_at items i (mark_item_error m))
marked-HasFailed items item_id m i a h q g = (
  i,
  mark_item_error m a,
  find_index-modify_at (has_id item_id) (mark_item_error m) items i (λ b. refl) ∙ q,
  get_elem?-modify_at (mark_item_error m) items i g,
  refl,
  rw h,
)

item_error-HasFailed :
    (s t : RoomState) (item_id m : String) (now : ℕ) (item : PlaylistItem) (cleared : Bool)
    → is_empty m ≡ false
    → apply_playlist_item_error s item_id (some m) now ≡ some (t, item, cleared)
    → HasFailed item_id t.playlist
unfolding apply_playlist_item_error
item_error-HasFailed s t item_id m now item cleared h e =
    elim (Option-cases (find_index (has_id item_id) s.playlist)) [
      | inl q ↦ absurd (ground arith)
      | inr (i, q) ↦ elim (Option-cases (get_elem? s.playlist i)) [
        | inl g ↦ absurd (ground arith)
        | inr (a, g) ↦
            elim (Bool-cases (is_error_status a.ingest_status && is_truthy a.ingest_error)) [
              | inl old ↦
                  let k : s ≡ t = ground arith in rw (← k) (i, a, q, g, ground arith, ground arith)
              | inr new ↦
                  let marked : RoomState = record s {
                    playlist = modify_at s.playlist i (mark_item_error m);
                  } in
                  let k : t.playlist ≡ modify_at s.playlist i (mark_item_error m) =
                    ground (arith, playlist-advance_past marked i now) in
                  rw k (marked-HasFailed s.playlist item_id m i a h q g)
            ]
      ]
    ]

-- After a report of an error with a message, a second report on the same item changes nothing, whatever
-- its message: the room does not advance twice.
pub item_error_twice :
    (s t : RoomState) (item_id m m' : String) (now later : ℕ) (item : PlaylistItem) (cleared : Bool)
    → is_empty m ≡ false
    → apply_playlist_item_error s item_id (some m) now ≡ some (t, item, cleared)
    → (again : PlaylistItem) × (apply_playlist_item_error t item_id (some m') later
        ≡ some (t, again, false))
unfolding apply_playlist_item_error
item_error_twice s t item_id m m' now later item cleared h e =
    let (i, a, q, g, failed, told) = item_error-HasFailed s t item_id m now item cleared h e in
    (a, ground arith)

abbrev renamed : String → PlaylistItem → PlaylistItem
renamed name item = record item { name = name }

abbrev timed : ℕ → PlaylistItem → PlaylistItem
timed n item = record item { duration = some (round_seconds n) }

rename-ids :
    (s t : RoomState) (item_id : String) (name : String) (a : PlaylistItem) (b c : String)
    → apply_playlist_rename s item_id name ≡ some (t, a, b, c)
    → ids t ≡ ids s
unfolding apply_playlist_rename
rename-ids s t item_id name a b c e = elim (Option-cases (find_index (has_id item_id) s.playlist)) [
  | inl q ↦ absurd (ground arith)
  | inr (i, q) ↦ elim (Option-cases (get_elem? s.playlist i)) [
    | inl g ↦ absurd (ground arith)
    | inr (v, g) ↦
        ground (arith, map-modify_at id_of (renamed (trim name)) s.playlist i (λ b. refl))
  ]
]

title-ids :
    (s t : RoomState) (item_id : String) (name : String) (a : PlaylistItem)
    → apply_playlist_item_title s item_id name ≡ some (t, a)
    → ids t ≡ ids s
unfolding apply_playlist_item_title
title-ids s t item_id name a e = elim (Option-cases (find_index (has_id item_id) s.playlist)) [
  | inl q ↦ absurd (ground arith)
  | inr (i, q) ↦ elim (Option-cases (get_elem? s.playlist i)) [
    | inl g ↦ absurd (ground arith)
    | inr (v, g) ↦
        ground (arith, map-modify_at id_of (renamed (trim name)) s.playlist i (λ b. refl))
  ]
]

duration-ids :
    (s t : RoomState) (item_id : String) (n : ℕ) (a : PlaylistItem)
    → apply_playlist_item_duration s item_id n ≡ some (t, a)
    → ids t ≡ ids s
unfolding apply_playlist_item_duration
duration-ids s t item_id n a e = elim (Option-cases (find_index (has_id item_id) s.playlist)) [
  | inl q ↦ absurd (ground arith)
  | inr (i, q) ↦ elim (Option-cases (get_elem? s.playlist i)) [
    | inl g ↦ absurd (ground arith)
    | inr (v, g) ↦ ground (arith, map-modify_at id_of (timed n) s.playlist i (λ b. refl))
  ]
]

error-ids :
    (s t : RoomState) (item_id : String) (message : Option String) (now : ℕ) (a : PlaylistItem)
    (c : Bool)
    → apply_playlist_item_error s item_id message now ≡ some (t, a, c)
    → ids t ≡ ids s
unfolding apply_playlist_item_error
error-ids s t item_id message now a c e =
    elim (Option-cases (find_index (has_id item_id) s.playlist)) [
      | inl q ↦ absurd (ground arith)
      | inr (i, q) ↦ elim (Option-cases (get_elem? s.playlist i)) [
        | inl g ↦ absurd (ground arith)
        | inr (v, g) ↦ elim (Option-cases message) [
          | inl n ↦ ground (arith, map-modify_at id_of clear_item_error s.playlist i (λ b. refl))
          | inr (m, n) ↦
              let marked : RoomState = record s {
                playlist = modify_at s.playlist i (mark_item_error m);
              } in
              ground (
                arith,
                playlist-advance_past marked i now,
                map-modify_at id_of (mark_item_error m) s.playlist i (λ b. refl),
              )
        ]
      ]
    ]

-- A rename, a title, a duration and an error report write one item in place: the ids stay, in order.
pub ids_kept :
    (s t : RoomState) (item_id name : String) (message : Option String) (n now : ℕ)
    (a : PlaylistItem) (b c : String) (cleared : Bool)
    → ((apply_playlist_rename s item_id name ≡ some (t, a, b, c)) → ids t ≡ ids s)
      × ((apply_playlist_item_title s item_id name ≡ some (t, a)) → ids t ≡ ids s)
      × ((apply_playlist_item_duration s item_id n ≡ some (t, a)) → ids t ≡ ids s)
      × ((apply_playlist_item_error s item_id message now ≡ some (t, a, cleared)) → ids t ≡ ids s)
ids_kept s t item_id name message n now a b c cleared = (
  rename-ids s t item_id name a b c,
  title-ids s t item_id name a,
  duration-ids s t item_id n a,
  error-ids s t item_id message now a cleared,
)
