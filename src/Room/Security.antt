-- ===== src/Room/Security.antt =====
-- src/server/realtime/services/room-security.ts: the join password and the default role.
mod Tests
pub mod Admission
use web_sync_play.Prelude.{
  ℕ, ◌+◌, String, Bool, true, false, not, ◌&&◌, ◌||◌, Option, none, some, List, [], ◌∷◌, ltb, ◌==◌,
  length, str_eq, is_empty, trim, if◌then◌else◌,
}
use web_sync_play.Room.State.{
  RoomState, RoomSecurity, PublicRoomSecurity, RoomSnapshot, DefaultJoinRole, join_moderator,
  join_guest,
}

-- `scrypt` to hexadecimal digits and `Buffer.from(text, "hex")`, which Node provides.
pub record Crypto : Type 0 where
  pub hash_join_password : String → String → String
  pub from_hex : String → List ℕ

pub data JoinAdmission : Type 0 where
  allowed password_required invalid_password : JoinAdmission

unfoldable pub create_default_room_security : RoomSecurity
create_default_room_security = record {
  join_password_enabled = false;
  join_password_updated_at = none;
  admission_version = 0;
  default_join_role = join_guest;
  join_password_hash = none;
  join_password_salt = none;
}

-- A text that is there and not empty.
abbrev pub is_present : Option String → Bool
is_present none = false
is_present (some s) = not (is_empty s)

-- Of a value that has its type; a password without its hash or salt is switched off.
unfoldable pub normalize_room_security : RoomSecurity → RoomSecurity
normalize_room_security c =
    if c.join_password_enabled
      && (not (is_present c.join_password_hash) || not (is_present c.join_password_salt))
    then record c {
      join_password_enabled = false;
      join_password_hash = none;
      join_password_salt = none;
    }
    else c

unfoldable pub ensure_room_security : RoomState → RoomState
unfolding normalize_room_security
ensure_room_security s = record s { room_security = normalize_room_security s.room_security }

unfoldable pub public_room_security : RoomSecurity → PublicRoomSecurity
public_room_security c = record {
  join_password_enabled = c.join_password_enabled;
  join_password_updated_at = c.join_password_updated_at;
  admission_version = c.admission_version;
  default_join_role = c.default_join_role;
}

unfoldable pub sanitize_room_state_for_client : RoomState → ℕ → RoomSnapshot
unfolding public_room_security ensure_room_security
sanitize_room_state_for_client s now = record {
  room_id = s.room_id;
  owner_id = s.owner_id;
  room_security = public_room_security (ensure_room_security s).room_security;
  playback = s.playback;
  playlist = s.playlist;
  current_index = s.current_index;
  participants = s.participants;
  action_log = s.action_log;
  updated_at = s.updated_at;
  generation = s.generation;
  structural_revision = s.structural_revision;
  presence_revision = s.presence_revision;
  server_wall_now_ms = some now;
}

abbrev pub same_join_role : DefaultJoinRole → DefaultJoinRole → Bool
same_join_role join_moderator join_moderator = true
same_join_role join_guest join_guest = true
same_join_role _ _ = false

-- `none` is the answer `false`.
unfoldable pub set_default_join_role : RoomState → DefaultJoinRole → Option RoomState
unfolding ensure_room_security
set_default_join_role s role =
    let t = ensure_room_security s in
    if same_join_role t.room_security.default_join_role role
    then none
    else some (record t { room_security = record (t.room_security) { default_join_role = role } })

-- `randomBytes` gives the salt.
unfoldable pub set_join_password : Crypto → RoomState → String → String → ℕ → RoomState
unfolding ensure_room_security
set_join_password crypto s password salt now =
    let c = (ensure_room_security s).room_security in
    record s {
      room_security = record c {
        join_password_enabled = true;
        join_password_salt = some salt;
        join_password_hash = some (crypto.hash_join_password (trim password) salt);
        join_password_updated_at = some now;
        admission_version = c.admission_version + 1;
      };
    }

-- The room, and whether the password changed.
unfoldable pub clear_join_password : RoomState → ℕ → RoomState × Bool
unfolding ensure_room_security
clear_join_password s now =
    let c = (ensure_room_security s).room_security in
    let changed =
      c.join_password_enabled
      || (is_present c.join_password_hash || is_present c.join_password_salt) in
    (
      record s {
        room_security = record c {
          join_password_enabled = false;
          join_password_hash = none;
          join_password_salt = none;
          join_password_updated_at = some now;
          admission_version = c.admission_version + (if changed then 1 else 0);
        };
      },
      changed,
    )

pub same_bytes : List ℕ → List ℕ → Bool
same_bytes [] [] = true
same_bytes (x ∷ xs) (y ∷ ys) = x == y && same_bytes xs ys
same_bytes _ _ = false

-- `timingSafeEqual` of buffers of one length.
abbrev pub verify_hash : Crypto → String → Option String → Option String → Bool
verify_hash crypto supplied (some hash) (some salt) =
    if is_empty hash || is_empty salt
    then true
    else let expected = crypto.from_hex hash in
      let actual = crypto.from_hex (crypto.hash_join_password (trim supplied) salt) in
      if not (length expected == length actual) then false else same_bytes expected actual
verify_hash crypto supplied none salt = true
verify_hash crypto supplied (some hash) none = true

unfoldable pub verify_join_password : Crypto → RoomState → String → Bool
unfolding ensure_room_security
verify_join_password crypto s supplied =
    let c = (ensure_room_security s).room_security in
    if not c.join_password_enabled
    then true
    else verify_hash crypto supplied c.join_password_hash c.join_password_salt

abbrev pub admit_password : Crypto → RoomState → Option String → JoinAdmission
admit_password crypto s none = password_required
admit_password crypto s (some supplied) =
    if is_empty (trim supplied)
    then password_required
    else if not (verify_join_password crypto s supplied)
    then invalid_password
    else allowed

unfoldable pub evaluate_join_admission : Crypto → Option RoomState → Option String → JoinAdmission
unfolding ensure_room_security verify_join_password
evaluate_join_admission crypto none supplied = allowed
evaluate_join_admission crypto (some s) supplied =
    if not (ensure_room_security s).room_security.join_password_enabled
    then allowed
    else admit_password crypto s supplied
