-- ===== src/UrlSafety/Ranges.antt =====
-- The private ranges of src/server/security/url-safety.ts as blocks of addresses.
use web_sync_play.Prelude.{
  ℕ, ◌+◌, ◌*◌, ◌/◌, ◌^◌, ◌-◌, ◌<◌, ◌≡◌, refl, Bool, List, [], ◌∷◌, any, ◌==◌, arith, some, ◌++◌,
}
use web_sync_play.UrlSafety.{
  read_octets, read_decimal, split_at, is_private_octets, Text, is_private_or_local_ipv4,
}

-- An address as a number, and the block of addresses that share its first bits with a base.
abbrev pub address : ℕ → ℕ → ℕ → ℕ → ℕ
address a b c d = a * 2 ^ 24 + b * 2 ^ 16 + c * 2 ^ 8 + d

abbrev pub in_block : ℕ → ℕ × ℕ → Bool
in_block n (base, size) = n / size == base / size

-- 0.0.0.0/8, 10.0.0.0/8, 100.64.0.0/10, 127.0.0.0/8, 169.254.0.0/16, 172.16.0.0/12 and 192.168.0.0/16
abbrev pub private_blocks : List (ℕ × ℕ)
private_blocks =
    (address 0 0 0 0, 2 ^ 24)
    ∷ (address 10 0 0 0, 2 ^ 24)
    ∷ (address 100 64 0 0, 2 ^ 22)
    ∷ (address 127 0 0 0, 2 ^ 24)
    ∷ (address 169 254 0 0, 2 ^ 16)
    ∷ (address 172 16 0 0, 2 ^ 20)
    ∷ (address 192 168 0 0, 2 ^ 16)
    ∷ []

octets_blocks :
    (a b c d : ℕ)
    → a < 256
    → b < 256
    → c < 256
    → d < 256
    → is_private_octets a b ≡ any (in_block (address a b c d)) private_blocks
octets_blocks a b c d ha hb hc hd = ground arith

-- A part that reads as a number has no dot in it.
split_last :
    (part : Text) (acc n : ℕ) → read_decimal acc part ≡ some n → split_at b'.' part ≡ part ∷ []
unfolding read_decimal split_at
split_last [] acc n e = refl
split_last (c ∷ s) acc n e = ground (arith, split_last s (acc * 10 + (c - b'0')) n)

split_part :
    (part rest : Text) (acc n : ℕ)
    → read_decimal acc part ≡ some n
    → split_at b'.' (part ++ b'.' ∷ rest) ≡ part ∷ split_at b'.' rest
unfolding read_decimal split_at
split_part [] rest acc n e = refl
split_part (c ∷ s) rest acc n e = ground (arith, split_part s rest (acc * 10 + (c - b'0')) n)

read_four :
    (p q r s : Text) (a b c d : ℕ)
    → read_decimal 0 p ≡ some a
    → read_decimal 0 q ≡ some b
    → read_decimal 0 r ≡ some c
    → read_decimal 0 s ≡ some d
    → read_octets (p ∷ q ∷ r ∷ s ∷ []) ≡ some (a ∷ b ∷ c ∷ d ∷ [])
read_four p q r s a b c d hp hq hr hs = ground arith

-- Written in dotted decimal, an IPv4 address is taken for private exactly if it lies in one of the
-- reserved blocks 0.0.0.0/8, 10.0.0.0/8, 100.64.0.0/10, 127.0.0.0/8, 169.254.0.0/16, 172.16.0.0/12 and
-- 192.168.0.0/16. Each part reads as a number below 256.
pub ipv4_blocks :
    (p q r s : Text) (a b c d : ℕ)
    → read_decimal 0 p ≡ some a
    → read_decimal 0 q ≡ some b
    → read_decimal 0 r ≡ some c
    → read_decimal 0 s ≡ some d
    → a < 256
    → b < 256
    → c < 256
    → d < 256
    → is_private_or_local_ipv4 (p ++ b'.' ∷ (q ++ b'.' ∷ (r ++ b'.' ∷ s)))
      ≡ any (in_block (address a b c d)) private_blocks
unfolding is_private_or_local_ipv4
ipv4_blocks p q r s a b c d hp hq hr hs la lb lc ld =
    rw
      (
        split_part p (q ++ b'.' ∷ (r ++ b'.' ∷ s)) 0 a hp,
        split_part q (r ++ b'.' ∷ s) 0 b hq,
        split_part r s 0 c hr,
        split_last s 0 d hs,
        read_four p q r s a b c d hp hq hr hs,
      )
      (octets_blocks a b c d la lb lc ld)
