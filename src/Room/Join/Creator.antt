-- ===== src/Room/Join/Creator.antt =====
-- The first to join a room: src/server/realtime/handlers/join/commit-membership.ts with
-- src/server/realtime/services/room.ts.
use web_sync_play.Prelude.{
  ℕ, zero, suc, take, ◌≡◌, refl, ◌∙◌, ap, ◌+◌, String, Bool, false, Option, none, some, List, [],
  ◌∷◌, if◌then◌else◌, is_empty, eq_refl,
}
use web_sync_play.Room.State.{RoomState, owner, Participant, LocalPlayback, Limits, Stamp}
use web_sync_play.UrlSafety.{Net}
use web_sync_play.Room.Security.{
  Crypto, allowed, evaluate_join_admission, create_default_room_security, ensure_room_security,
}
use web_sync_play.Room.Ownership.{Entry, transfer_ownership_if_needed}
use web_sync_play.Room.Participants.{reconcile_participants_connectivity}
use web_sync_play.Room.Repair.{repair_cleanup_and_check_room_state}
use web_sync_play.Room.Creation.{DailyDefault, create_initial_room_state}
use web_sync_play.Room.Join.{
  JoinRequest, JoinCommit, joined, join_commit, commit_join_membership, close_join, seat,
  join_participant,
}
use web_sync_play.Room.Join.Seat.{
  IsPresent, joiner-IsPresent, repair_counts, close_seats, seated, owned, close_participants,
  close_owner,
}

-- The room that the first member is put into.
abbrev prepared : Limits → Stamp → List String → RoomState → RoomState
prepared limits stamp active s =
    (reconcile_participants_connectivity (repair_cleanup_and_check_room_state limits stamp s).0
      active stamp.now).state

take_nil : (n : ℕ) → take {A = Entry} n [] ≡ []
take_nil zero = refl
take_nil (suc n) = refl

created_empty :
    (limits : Limits) (stamp : Stamp) (net : Net) (defaults : List DailyDefault)
    (active : List String) (req : JoinRequest)
    → is_empty req.user_id ≡ false
    → let s =
        create_initial_room_state net stamp defaults req.room_id req.user_id req.seed_url
          req.skip_default_media in
      ((prepared limits stamp active s).participants ≡ [])
      × ((prepared limits stamp active s).owner_id ≡ req.user_id)
unfolding create_initial_room_state repair_cleanup_and_check_room_state
    reconcile_participants_connectivity
created_empty limits stamp net defaults active req named =
    rw (take_nil limits.room_participants_limit, named) (refl, refl)

module _ (limits : Limits) (stamp : Stamp) (req : JoinRequest) (overlay : Option LocalPlayback)
    (s : RoomState) (empty : s.participants ≡ []) (own : s.owner_id ≡ req.user_id) where
  abbrev joiner : Participant
  joiner = join_participant req stamp.now overlay (ensure_room_security s) none

  seated_alone : (seated limits stamp req overlay s).participants ≡ (req.user_id, joiner) ∷ []
  unfolding seat
  seated_alone = rw empty refl

  joiner_owns : joiner.role ≡ owner
  unfolding join_participant ensure_room_security
  joiner_owns = rw (own, eq_refl) refl

  seated_owner : (seated limits stamp req overlay s).owner_id ≡ req.user_id
  unfolding seat ensure_room_security
  seated_owner = own

  -- There is nothing to hand over.
  owned_seated : owned limits stamp req overlay s ≡ seated limits stamp req overlay s
  unfolding transfer_ownership_if_needed
  owned_seated = rw (seated_owner, seated_alone, eq_refl) refl

  not_reconnect : (close_join limits stamp req overlay s).1 ≡ false
  unfolding close_join
  not_reconnect = rw empty refl

  first_join :
      let t = (close_join limits stamp req overlay s).0 in
      (t.owner_id ≡ req.user_id)
      × (t.participants ≡ (req.user_id, joiner) ∷ [])
      × (t.generation ≡ s.generation + 1)
  first_join =
      let (_, counts) = close_seats limits stamp req overlay s in
      let alone = owned_seated in
      (
        close_owner limits stamp req overlay s ∙ (ap (λ x. x.owner_id) alone ∙ seated_owner),
        close_participants limits stamp req overlay s
            ∙ (ap (λ x. x.participants) alone ∙ seated_alone),
        counts.1 ∙ ap (λ b. s.generation + (if b then 0 else 1)) not_reconnect,
      )

created_open :
    (crypto : Crypto) (net : Net) (stamp : Stamp) (defaults : List DailyDefault)
    (room_id owner_id : String) (seed password : Option String) (skip : Bool)
    → evaluate_join_admission crypto
        (some (create_initial_room_state net stamp defaults room_id owner_id seed skip))
        password
      ≡ allowed
unfolding evaluate_join_admission create_initial_room_state create_default_room_security
created_open crypto net stamp defaults room_id owner_id seed password skip = refl

created_number :
    (net : Net) (stamp : Stamp) (defaults : List DailyDefault) (room_id owner_id : String)
    (seed : Option String) (skip : Bool)
    → (create_initial_room_state net stamp defaults room_id owner_id seed skip).generation ≡ 0
unfolding create_initial_room_state
created_number net stamp defaults room_id owner_id seed skip = refl

-- Whoever joins a room that does not exist creates and owns it: the request is not refused, whatever its
-- password. The room that is written is owned by the user, who has an id, and has that user alone
-- in it, connected since now and with the owner's role, and its generation is 1.
pub creator_owns :
    (crypto : Crypto) (limits : Limits) (stamp : Stamp) (net : Net) (defaults : List DailyDefault)
    (active : List String) (overlay : Option LocalPlayback) (req : JoinRequest)
    → is_empty req.user_id ≡ false
    → (c : JoinCommit) × (commit_join_membership crypto limits stamp net defaults active overlay req
          none
        ≡ joined c)
      × (c.state.owner_id ≡ req.user_id)
      × ((p : Participant) × (c.state.participants ≡ (req.user_id, p) ∷ [])
          × (p.role ≡ owner)
          × IsPresent req.user_id stamp.now p)
      × (c.state.generation ≡ 1)
unfolding commit_join_membership
creator_owns crypto limits stamp net defaults active overlay req named =
    let created =
      create_initial_room_state net stamp defaults req.room_id req.user_id req.seed_url
        req.skip_default_media in
    let s = prepared limits stamp active created in
    let (empty, own) = created_empty limits stamp net defaults active req named in
    let unchanged = repair_counts limits stamp created active in
    let joiner_here = joiner-IsPresent req stamp.now overlay (ensure_room_security s) none in
    let (owns, alone, counts) = first_join limits stamp req overlay s empty own in
    (
      join_commit limits stamp active overlay req created,
      rw
          (created_open crypto net stamp defaults req.room_id req.user_id req.seed_url req.password
            req.skip_default_media)
          refl,
      owns,
      (
        join_participant req stamp.now overlay (ensure_room_security s) none,
        alone,
        joiner_owns limits stamp req overlay s empty own,
        joiner_here,
      ),
      counts
          ∙ ap (λ n. n + 1)
              (unchanged.1
                ∙ ap (λ n. n + 0)
                    (created_number net stamp defaults req.room_id req.user_id req.seed_url
                      req.skip_default_media)),
    )
