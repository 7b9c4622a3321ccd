-- ===== src/Room/Participants/PruneMember.antt =====
-- The members of the prune index of src/server/realtime/services/participants.ts.
use Prim.Native.Char.{Char, code}
use Prim.Native.String.append
use text.Mathlib.TextEquality.{Char-path}
use web_sync_play.Prelude.{
  ◌≡◌, refl, String, Bool, true, false, some, arith, concat, is_empty, ◌==◌, Bool-cases,
  Option-cases, ap, sym, ◌∙◌, inl, inr, if◌then◌else◌,
}
use web_sync_play.Room.Participants.{split_tab, encode_prune_member, parse_prune_member}

abbrev tab : Char
tab = "\t"

-- No character of the text is a tab.
abbrev pub has_no_tab : String → Bool
has_no_tab String.[] = true
has_no_tab (String.◌∷◌ c s) = if code c == 9 then false else has_no_tab s

encode-cons :
    (c : Char) (s user_id : String)
    → encode_prune_member (String.◌∷◌ c s) user_id ≡ String.◌∷◌ c (encode_prune_member s user_id)
unfolding encode_prune_member
encode-cons c s user_id = append.cons c s (concat "\t" user_id)

encode-nil : (user_id : String) → encode_prune_member "" user_id ≡ String.◌∷◌ tab user_id
unfolding encode_prune_member
encode-nil user_id =
    append.nil (concat "\t" user_id)
    ∙ append.cons tab "" user_id
    ∙ ap (String.◌∷◌ tab) (append.nil user_id)

split_tab-encode :
    (room_id user_id : String)
    → has_no_tab room_id ≡ true
    → split_tab (encode_prune_member room_id user_id) ≡ some (room_id, user_id)
unfolding split_tab
split_tab-encode String.[] user_id h = rw (encode-nil user_id)
split_tab-encode (String.◌∷◌ c s) user_id h =
    ground (arith, encode-cons c s user_id, split_tab-encode s user_id)

-- A member of the index reads back as the room and the user that it was made of, if neither is empty
-- and the room's id holds no tab.
pub parse-encode :
    (room_id user_id : String)
    → has_no_tab room_id ≡ true
    → is_empty room_id ≡ false
    → is_empty user_id ≡ false
    → parse_prune_member (encode_prune_member room_id user_id) ≡ some (room_id, user_id)
unfolding parse_prune_member
parse-encode room_id user_id h r u = ground (arith, split_tab-encode room_id user_id)

split_tab-eq-some :
    (member a b : String)
    → split_tab member ≡ some (a, b)
    → (member ≡ encode_prune_member a b) × (has_no_tab a ≡ true)
unfolding split_tab
split_tab-eq-some String.[] a b e = cc
split_tab-eq-some (String.◌∷◌ c s) a b e = elim (Bool-cases (code c == 9)) [
  | inl t ↦
      let p : a ≡ "" = ground arith in
      let r : b ≡ s = ground arith in
      let q : c ≡ tab = Char-path c tab (ground arith) in rw (p, r, q) (sym (encode-nil s), refl)
  | inr t ↦ elim (Option-cases (split_tab s)) [
    | inl q ↦ absurd (ground arith)
    | inr ((x, y), q) ↦
        let (rest, clean) = split_tab-eq-some s x y q in
        let p : a ≡ String.◌∷◌ c x = ground arith in
        let r : b ≡ y = ground arith in
        rw (p, r) (rw (encode-cons c x y) (ap (String.◌∷◌ c) rest), rw t clean)
  ]
]

-- Whatever is read is the member that those two make.
pub encode-parse :
    (member room_id user_id : String)
    → parse_prune_member member ≡ some (room_id, user_id)
    → (member ≡ encode_prune_member room_id user_id)
      × (is_empty room_id ≡ false)
      × (is_empty user_id ≡ false)
unfolding parse_prune_member
encode-parse member room_id user_id e = elim (Option-cases (split_tab member)) [
  | inl q ↦ absurd (ground arith)
  | inr ((a, b), q) ↦ ground (arith, split_tab-eq-some member a b)
]
