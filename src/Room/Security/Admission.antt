-- ===== src/Room/Security/Admission.antt =====
-- Who is admitted to a room: src/server/realtime/services/room-security.ts.
use web_sync_play.Prelude.{
  ℕ, ◌+◌, ◌≡◌, ◌≢◌, refl, String, true, false, Option, none, some, List, [], ◌∷◌, arith, is_empty,
  trim, if◌then◌else◌,
}
use web_sync_play.Room.State.{RoomState, RoomSecurity}
use web_sync_play.Room.Security.{
  Crypto, allowed, password_required, invalid_password, same_bytes, sanitize_room_state_for_client,
  set_join_password, clear_join_password, evaluate_join_admission,
}

pub same_bytes_refl : (xs : List ℕ) → same_bytes xs xs ≡ true
unfolding same_bytes
same_bytes_refl [] = refl
same_bytes_refl (x ∷ xs) = ground (arith, same_bytes_refl xs)

pub same_bytes_sound : (xs ys : List ℕ) → same_bytes xs ys ≡ true → xs ≡ ys
unfolding same_bytes
same_bytes_sound [] [] h = refl
same_bytes_sound [] (y ∷ ys) h = cc
same_bytes_sound (x ∷ xs) [] h = cc
same_bytes_sound (x ∷ xs) (y ∷ ys) h = ground (arith, same_bytes_sound xs ys)

-- Who gives the password that was set is admitted, up to the blanks around it, if the password is not
-- blank itself.
pub set_password_admits :
    (crypto : Crypto) (s : RoomState) (password supplied salt : String) (now : ℕ)
    → trim supplied ≡ trim password
    → is_empty (trim password) ≡ false
    → evaluate_join_admission crypto
        (some (set_join_password crypto s password salt now))
        (some supplied)
      ≡ allowed
unfolding evaluate_join_admission set_join_password
set_password_admits crypto s password supplied salt now same given =
    ground
      (arith, same_bytes_refl (crypto.from_hex (crypto.hash_join_password (trim password) salt)))

-- Who gives no password, blanks, or one whose hash differs is kept out, if the hash and the salt are
-- not empty.
pub set_password_rejects :
    (crypto : Crypto) (s : RoomState) (password supplied salt : String) (now : ℕ)
    → is_empty salt ≡ false
    → is_empty (crypto.hash_join_password (trim password) salt) ≡ false
    → crypto.from_hex (crypto.hash_join_password (trim password) salt)
      ≢ crypto.from_hex (crypto.hash_join_password (trim supplied) salt)
    → let t = set_join_password crypto s password salt now in
      (evaluate_join_admission crypto (some t) none ≡ password_required)
      × (evaluate_join_admission crypto (some t) (some supplied)
          ≡ (if is_empty (trim supplied) then password_required else invalid_password))
unfolding evaluate_join_admission set_join_password
set_password_rejects crypto s password supplied salt now a b differ = (
  ground arith,
  ground (
    arith,
    same_bytes_sound (crypto.from_hex (crypto.hash_join_password (trim password) salt))
        (crypto.from_hex (crypto.hash_join_password (trim supplied) salt)),
  ),
)

-- After the password is cleared everybody is admitted. The version of the admission, by which members
-- are evicted, moves exactly if the password changed, and always when one is set.
pub clear_password_admits :
    (crypto : Crypto) (s : RoomState) (supplied : Option String) (password salt : String) (now : ℕ)
    → let (t, changed) = clear_join_password s now in
      (evaluate_join_admission crypto (some t) supplied ≡ allowed)
      × (t.room_security.admission_version
          ≡ s.room_security.admission_version + (if changed then 1 else 0))
      × ((set_join_password crypto s password salt now).room_security.admission_version
          ≡ s.room_security.admission_version + 1)
unfolding evaluate_join_admission clear_join_password set_join_password
clear_password_admits crypto s supplied password salt now = ground arith

-- What is sent to clients does not depend on the hash and the salt, as long as both are there.
pub sanitize_hides_secrets :
    (s : RoomState) (c : RoomSecurity) (hash hash' salt salt' : String) (now : ℕ)
    → is_empty hash ≡ false
    → is_empty hash' ≡ false
    → is_empty salt ≡ false
    → is_empty salt' ≡ false
    → sanitize_room_state_for_client
        (record s {
          room_security = record c {
            join_password_hash = some hash;
            join_password_salt = some salt;
          };
        })
        now
      ≡ sanitize_room_state_for_client
          (record s {
            room_security = record c {
              join_password_hash = some hash';
              join_password_salt = some salt';
            };
          })
          now
unfolding sanitize_room_state_for_client
sanitize_hides_secrets s c hash hash' salt salt' now a b d e = ground arith
