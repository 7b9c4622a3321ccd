-- ===== src/Room/Join/Tests.antt =====
-- The theorems on src/server/realtime/handlers/join, applied to concrete rooms, people and messages.
use web_sync_play.Room.Ownership.Succession.{IsOwned}
use web_sync_play.Room.State.{room_session}
use web_sync_play.UrlSafety.{Net}
use web_sync_play.Room.Join.{
  owner, refused, repair_cleanup_and_check_room_state, Participant, is_allowed,
  evaluate_join_admission, joined, JoinCommit, commit_join_membership, JoinRequest, close_join,
}
use web_sync_play.Prelude.{lookup, is_some, refl, ◌∷◌, [], ◌≡◌, ◌⊎◌, true, false, some, none}
use web_sync_play.Room.Samples.{
  cinema-IsOwned, cinema-IsNamed, online, plain_crypto, small_limits, cinema, noon,
}
use web_sync_play.Room.Join.Seat.{IsCounted, IsPresent, join_seats}
use web_sync_play.Room.Join.Succession.{join_keeps_owner}
use web_sync_play.Room.Join.Full.{full_room_drops}
use web_sync_play.Room.Join.Creator.{creator_owns}

-- Nothing is fetched.
abbrev no_net : Net
no_net = record { parse_url = λ t. none; is_ip = λ t. false; allow_private_urls = false }

abbrev dan_joins : JoinRequest
dan_joins = record {
  room_id = "r1";
  user_id = "dan";
  username = "dan";
  avatar_style = "lorelei";
  password = none;
  seed_url = none;
  skip_default_media = false;
  session_kind = room_session;
  is_control_session = false;
  control_authorized = false;
  is_presence_already_tracked = false;
}

join_seats_example :
    let outcome =
      commit_join_membership plain_crypto small_limits noon no_net [] online none dan_joins
        (some cinema) in
    let admission = evaluate_join_admission plain_crypto (some cinema) dan_joins.password in
    ((is_allowed admission ≡ false) × (outcome ≡ refused admission))
    ⊎ ((is_allowed admission ≡ true)
        × ((c : JoinCommit) × (outcome ≡ joined c)
            × ((p : Participant) × (lookup dan_joins.user_id c.state.participants ≡ some p)
                × IsPresent dan_joins.user_id noon.now p)
            × IsCounted c.pure_reconnect cinema c.state
            × (c.pure_reconnect ≡ true → dan_joins.is_presence_already_tracked ≡ true)))
join_seats_example =
    join_seats plain_crypto small_limits noon no_net [] online none dan_joins cinema

join_keeps_owner_example :
    let t = (close_join small_limits noon dan_joins none cinema).0 in
    IsOwned t.owner_id t.participants × (is_some (lookup t.owner_id t.participants) ≡ true)
join_keeps_owner_example =
    join_keeps_owner small_limits noon dan_joins none cinema (refl, (refl, (refl, tt)))
      (cinema-IsNamed) (cinema-IsOwned)

full_room_drops_example :
    let t =
      (close_join
        (record small_limits { room_participants_limit = 3 })
        noon
        dan_joins
        none
        cinema).0 in
    (is_some (lookup dan_joins.user_id t.participants) ≡ true)
    × (lookup dan_joins.user_id
          (repair_cleanup_and_check_room_state
            (record small_limits { room_participants_limit = 3 })
            (record noon { now = 100001 })
            t).0.participants
        ≡ none)
full_room_drops_example =
    full_room_drops (record small_limits { room_participants_limit = 3 }) noon
      (record noon { now = 100001 }) dan_joins none cinema refl (refl, (refl, (refl, tt))) refl refl

creator_owns_example :
    (c : JoinCommit) × (commit_join_membership plain_crypto small_limits noon no_net [] online none
        dan_joins none
      ≡ joined c)
    × (c.state.owner_id ≡ dan_joins.user_id)
    × ((p : Participant) × (c.state.participants ≡ (dan_joins.user_id, p) ∷ [])
        × (p.role ≡ owner)
        × IsPresent dan_joins.user_id noon.now p)
    × (c.state.generation ≡ 1)
creator_owns_example =
    creator_owns plain_crypto small_limits noon no_net [] online none dan_joins refl
