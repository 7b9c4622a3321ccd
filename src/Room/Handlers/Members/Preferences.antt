-- ===== src/Room/Handlers/Members/Preferences.antt =====
-- What a viewer's preferences keep: src/server/realtime/handlers/viewer-media.ts
use web_sync_play.Prelude.{
  ◌==◌, ◌+◌, ◌-◌, ◌≤◌, ◌≡◌, refl, String, none, some, [], ◌∷◌, length, drop, lookup, insert,
  or_else, arith, Option-cases, Bool-cases, inl, inr, ltb, if◌then◌else◌, eq_refl, lookup-insert,
  is_some, length-drop,
}
use web_sync_play.Room.State.{Participant, PlaylistItem, ViewerItemPreference, ViewerMedia}
use web_sync_play.Room.Handlers.Members.{
  cap_viewer_media_by_item_id, apply_viewer_media_preferences, merge_viewer_media_item_preference,
  ViewerMediaPatch,
}

length-insert :
    (k : String) (v : ViewerItemPreference) (m : ViewerMedia)
    → length (insert k v m) ≡ (if is_some (lookup k m) then length m else length m + 1)
length-insert k v [] = refl
length-insert k v (e ∷ m) = ground (arith, length-insert k v m)

-- A new key is the last one.
insert_last :
    (k : String) (v : ViewerItemPreference) (m : ViewerMedia)
    → lookup k m ≡ none
    → lookup k (drop 1 (insert k v m)) ≡ (if length m == 0 then none else some v)
insert_last k v [] h = ground arith
insert_last k v (e ∷ m) h = ground (arith, lookup-insert k k v m, eq_refl k)

capped :
    (k : String) (v : ViewerItemPreference) (m : ViewerMedia)
    → length m ≤ 32
    → let c = cap_viewer_media_by_item_id 32 (insert k v m) in
      (length c ≤ 32) × (lookup k c ≡ some v)
unfolding cap_viewer_media_by_item_id
capped k v m fits = elim (Bool-cases (ltb 32 (length (insert k v m)))) [
  | inl t ↦
      let one : length (insert k v m) - 32 ≡ 1 = ground (arith, length-insert k v m) in
      rw (t, one)
        (
          ground (arith, length-insert k v m, length-drop 1 (insert k v m)),
          ground (arith, length-insert k v m, insert_last k v m),
        )
  | inr f ↦ rw f (ground arith, ground (arith, lookup-insert k k v m, eq_refl k))
]

-- A viewer who has at most 32 preferences has at most 32 after an accepted change, and the change is
-- one of them, even if it drops the oldest.
pub preference_kept :
    (p q : Participant) (item : PlaylistItem) (patch : ViewerMediaPatch)
    → length (or_else p.viewer_media []) ≤ 32
    → apply_viewer_media_preferences p item patch ≡ some q
    → (length (or_else q.viewer_media []) ≤ 32)
      × (next : ViewerItemPreference) × (merge_viewer_media_item_preference item
            (lookup patch.item_id (or_else p.viewer_media []))
            patch
          ≡ some next)
      × (lookup patch.item_id (or_else q.viewer_media []) ≡ some next)
unfolding apply_viewer_media_preferences
preference_kept p q item patch fits e =
    let m = or_else p.viewer_media [] in
    elim (Option-cases (merge_viewer_media_item_preference item (lookup patch.item_id m) patch)) [
      | inl n ↦ ground arith
      | inr (next, n) ↦
          let (short, kept) = capped patch.item_id next m fits in
          (ground (arith, e, n, short), next, n, ground (arith, e, n, kept))
    ]
