-- ===== src/Room/Offline/Effects.antt =====
-- What a user's last socket leaves: src/server/realtime/services/disconnect.ts
use web_sync_play.Prelude.{
  zero, suc, suc, ap, ◌∙◌, get_elem?, eq_iff, eq_refl, is_empty, ◌⊎◌, Option-cases, is_some, ℕ, ◌≡◌,
  refl, String, true, false, not, ◌&&◌, ◌||◌, Option, none, some, List, [], ◌∷◌, map, lookup,
  modify, map_some, lookup-modify, str_eq, if◌then◌else◌, arith, Bool-cases, inl, inr,
}
use web_sync_play.Room.State.{
  Participants, remote_url, SourceKind, BlockedReason, local_file, RoomState, PlaylistItem,
  Participant, Limits, Stamp,
}
use web_sync_play.Room.Timeline.{resolve_current_timeline_ms, next_monotonic_ms}
use web_sync_play.Room.ActionLog.{append_action_log}
use web_sync_play.Room.Offline.{
  is_local_file, local_owner_offline, is_blocked, apply_user_went_offline,
  invalidate_local_media_for_owner, invalidate_item, loses_owner, invalidates_current, mark_offline,
  log_offline,
}

-- A file of the user's own machine, in the words of the room: its kind, and who shares it.
abbrev pub IsSharedBy : String → PlaylistItem → Type 0
IsSharedBy user_id item =
    (item.source_kind ≡ local_file)
    × (item.local_origin_user_id ≡ some user_id)
    × (is_empty user_id ≡ false)

-- The item `t` that stands where `s` was.
abbrev pub IsLeftBy : String → PlaylistItem → PlaylistItem → Type 0
IsLeftBy user_id s t =
    (IsSharedBy user_id s × (t.blocked_reason ≡ some local_owner_offline) × (t.id ≡ s.id))
    ⊎ (¬ IsSharedBy user_id s × (t ≡ s))

-- The participant `q` that was `p`, offline since `now`.
pub record IsGone (now : ℕ) (p q : Participant) : Type 0 where
  pub connected : q.connected ≡ false
  pub left : q.disconnected_at ≡ some now
  pub seen : q.last_seen_at ≡ some now
  pub reported : q.local_playback.updated_at ≡ now
  pub paused : q.local_playback.paused ≡ p.local_playback.paused
  pub place : q.local_playback.current_time_ms ≡ p.local_playback.current_time_ms
  pub same_user : q.user_id ≡ p.user_id
  pub named : q.username ≡ p.username
  pub role : q.role ≡ p.role
  pub joined : q.joined_at ≡ p.joined_at

mark_offline-IsGone : (now : ℕ) (p : Participant) → IsGone now p (mark_offline now p)
mark_offline-IsGone now p = record {
  connected = refl;
  left = refl;
  seen = refl;
  reported = refl;
  paused = refl;
  place = refl;
  same_user = refl;
  named = refl;
  role = refl;
  joined = refl;
}

marked_only :
    (user_id k : String) (now : ℕ) (p : Participant) (ps : Participants)
    → lookup user_id ps ≡ some p
    → lookup k (modify user_id (mark_offline now) ps)
      ≡ (if str_eq user_id k then some (mark_offline now p) else lookup k ps)
marked_only user_id k now p ps member = elim (Bool-cases (str_eq user_id k)) [
  | inl here ↦
      let e : user_id ≡ k = ground (arith, eq_iff user_id k) in
      lookup-modify user_id k (mark_offline now) ps ∙ rw (here, ← e, member) refl
  | inr away ↦ lookup-modify user_id k (mark_offline now) ps ∙ rw away refl
]

is_local_file-eq : (k : SourceKind) → is_local_file k ≡ true → k ≡ local_file
is_local_file-eq local_file h = refl
is_local_file-eq remote_url h = cc

blocked_cases :
    (r : Option BlockedReason)
    → ((is_blocked r ≡ false) × (r ≡ none))
      ⊎ ((is_blocked r ≡ true) × (r ≡ some local_owner_offline))
blocked_cases none = inl (refl, refl)
blocked_cases (some local_owner_offline) = inr (refl, refl)

loses_owner-IsSharedBy :
    (user_id : String) (item : PlaylistItem)
    → loses_owner user_id item ≡ true
    → IsSharedBy user_id item
loses_owner-IsSharedBy user_id item h = elim (Option-cases item.local_origin_user_id) [
  | inl e ↦ absurd (ground arith)
  | inr (origin, e) ↦ (
    is_local_file-eq item.source_kind (ground arith),
    ground (arith, eq_iff origin user_id),
    ground (arith, eq_iff origin user_id),
  )
]

shared_loses :
    (user_id : String) (item : PlaylistItem)
    → IsSharedBy user_id item
    → is_blocked item.blocked_reason ≡ false
    → loses_owner user_id item ≡ true
shared_loses user_id item (kind, origin, named) free =
    rw (origin, kind, named, free, eq_refl user_id) refl

blocked_item-IsLeftBy :
    (user_id : String) (item : PlaylistItem)
    → item.blocked_reason ≡ some local_owner_offline
    → IsLeftBy user_id item item
blocked_item-IsLeftBy user_id item reason =
    let freed = record item { blocked_reason = none } in
    elim (Bool-cases (loses_owner user_id freed)) [
      | inl t ↦ inl (loses_owner-IsSharedBy user_id freed t, reason, refl)
      | inr f ↦ inr (λ h. cc (shared_loses user_id freed h refl), refl)
    ]

get_elem?-invalidated :
    (user_id : String) (items : List PlaylistItem) (i : ℕ) (item : PlaylistItem)
    → get_elem? items i ≡ some item
    → get_elem? (map (invalidate_item user_id) items) i ≡ some (invalidate_item user_id item)
get_elem?-invalidated user_id [] i item e = cc
get_elem?-invalidated user_id (x ∷ items) zero item e = ap (map_some (invalidate_item user_id)) e
get_elem?-invalidated user_id (x ∷ items) (suc i) item e =
    get_elem?-invalidated user_id items i item e

invalidate_item-IsLeftBy :
    (user_id : String) (item : PlaylistItem) → IsLeftBy user_id item (invalidate_item user_id item)
invalidate_item-IsLeftBy user_id item = elim (Bool-cases (loses_owner user_id item)) [
  | inl t ↦ rw t (inl (loses_owner-IsSharedBy user_id item t, refl, refl))
  | inr f ↦ elim (blocked_cases item.blocked_reason) [
    | inl (free, _) ↦ rw f (inr (λ h. cc (shared_loses user_id item h free), refl))
    | inr (_, reason) ↦ rw f (blocked_item-IsLeftBy user_id item reason)
  ]
]

log_offline_keeps :
    (limits : Limits) (stamp : Stamp) (user_id : String) (p : Option Participant) (s : RoomState)
    → let t = log_offline limits stamp user_id p s in
      (t.playlist ≡ s.playlist)
      × (t.participants ≡ s.participants)
      × (t.playback ≡ s.playback)
      × (t.owner_id ≡ s.owner_id)
unfolding append_action_log
log_offline_keeps limits stamp user_id none s = (refl, refl, refl, refl)
log_offline_keeps limits stamp user_id (some p) s = (refl, refl, refl, refl)

-- The parts of the room that a user leaves.
offline_parts :
    (limits : Limits) (stamp : Stamp) (s : RoomState) (user_id : String)
    → let t = (apply_user_went_offline limits stamp s user_id).0 in
      let pauses = invalidates_current user_id s && not s.playback.paused in
      (t.participants ≡ modify user_id (mark_offline stamp.now) s.participants)
      × (t.playlist ≡ map (invalidate_item user_id) s.playlist)
      × (t.owner_id ≡ s.owner_id)
      × (t.playback ≡ (
          if pauses
          then record (s.playback) {
            paused = true;
            server_now_ms = next_monotonic_ms s.playback.server_now_ms stamp.now;
          }
          else s.playback))
unfolding apply_user_went_offline invalidate_local_media_for_owner
offline_parts limits stamp s user_id =
    let left = record s { participants = modify user_id (mark_offline stamp.now) s.participants } in
    let (invalidated, lost) = invalidate_local_media_for_owner left user_id stamp.now in
    let member = lookup user_id s.participants in
    let (a, b, c, d) = log_offline_keeps limits stamp user_id member invalidated in
    elim (Bool-cases (is_some member || lost)) [
      | inl t ↦ rw t (b, a, d, c)
      | inr f ↦ rw f (b, a, d, c)
    ]

-- A user who goes offline is marked so: not connected, with now as the time of leaving, of the last sight
-- and of the report, and otherwise the same person in the same role. Every other participant is as
-- before, and so is the owner. Each item of the playlist keeps its index: a local file that the user
-- shares is blocked because its owner is offline, and every other item is as before.
pub went_offline :
    (limits : Limits) (stamp : Stamp) (s : RoomState) (user_id : String) (p : Participant) (i : ℕ)
    (item : PlaylistItem)
    → lookup user_id s.participants ≡ some p
    → get_elem? s.playlist i ≡ some item
    → let t = (apply_user_went_offline limits stamp s user_id).0 in
      ((q : Participant) × IsGone stamp.now p q
        × ((k : String)
            → lookup k t.participants
              ≡ (if str_eq user_id k then some q else lookup k s.participants)))
      × ((left : PlaylistItem) × (get_elem? t.playlist i ≡ some left) × IsLeftBy user_id item left)
      × (t.owner_id ≡ s.owner_id)
went_offline limits stamp s user_id p i item member there =
    let (ps, items, owner, _) = offline_parts limits stamp s user_id in
    (
      (
        mark_offline stamp.now p,
        mark_offline-IsGone stamp.now p,
        λ k. rw ps (marked_only user_id k stamp.now p s.participants member),
      ),
      (
        invalidate_item user_id item,
        rw items (get_elem?-invalidated user_id s.playlist i item there),
        invalidate_item-IsLeftBy user_id item,
      ),
      owner,
    )

-- A user whose unblocked shared file is the current item leaves the room standing at its last anchor
-- from then on, whatever place it had reached. The place of every other room is as before.
pub offline_pause :
    (limits : Limits) (stamp : Stamp) (s : RoomState) (user_id : String) (later : ℕ)
    → let t = (apply_user_went_offline limits stamp s user_id).0 in
      resolve_current_timeline_ms t.playback later ≡ (
        if invalidates_current user_id s
        then s.playback.timeline_anchor_ms
        else resolve_current_timeline_ms s.playback later)
unfolding resolve_current_timeline_ms
offline_pause limits stamp s user_id later =
    let (_, _, _, playback) = offline_parts limits stamp s user_id in rw playback (ground arith)
