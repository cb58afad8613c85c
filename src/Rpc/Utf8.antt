-- ===== src/Rpc/Utf8.antt =====
-- utf8.ValidString, as an automaton over the bytes of a string.
use synap_sdk_go.Prelude.{
  ℕ, zero, suc, ◌<◌, ◌≡◌, refl, ◌∙◌, ap, Bool, true, false, ◌&&◌, [], ◌∷◌, ltb, leb, if◌then◌else◌,
  All, arith,
}
use synap_sdk_go.Bytes.{Bytes}

-- Between two characters, inside one, or behind a byte that none has there. Inside a character the
-- next byte lies in a range, and so many more follow it.
pub data State : Type 0 where
  start invalid : State
  inside : (low high more : ℕ) → State

-- The first byte of a character; overlong forms, surrogates and code points above U+10FFFF are cut
-- off by the range of the second byte.
abbrev first : ℕ → State
first b =
    if ltb b 0x80
    then start
    else if ltb b 0xc2
    then invalid
    else if ltb b 0xe0
    then inside 0x80 0xbf 0
    else if ltb b 0xe1
    then inside 0xa0 0xbf 1
    else if ltb b 0xed
    then inside 0x80 0xbf 1
    else if ltb b 0xee
    then inside 0x80 0x9f 1
    else if ltb b 0xf0
    then inside 0x80 0xbf 1
    else if ltb b 0xf1
    then inside 0x90 0xbf 2
    else if ltb b 0xf4
    then inside 0x80 0xbf 2
    else if ltb b 0xf5
    then inside 0x80 0x8f 2
    else invalid

abbrev rest_of : ℕ → State
rest_of zero = start
rest_of (suc more) = inside 0x80 0xbf more

step : State → ℕ → State
step start b = first b
step invalid b = invalid
step (inside low high more) b = if leb low b && leb b high then rest_of more else invalid

abbrev is_start : State → Bool
is_start start = true
is_start q = false

accepts : State → Bytes → Bool
unfolding step
accepts q [] = is_start q
accepts q (b ∷ s) = accepts (step q b) s

unfoldable pub is_utf8 : Bytes → Bool
unfolding accepts
is_utf8 s = accepts start s

first-ascii : (b : ℕ) → b < 0x80 → first b ≡ start
first-ascii b h = ground arith

pub is_utf8-ascii : (s : Bytes) → All (λ b. b < 0x80) s → is_utf8 s ≡ true
unfolding is_utf8
is_utf8-ascii [] h = refl
is_utf8-ascii (b ∷ s) h = ap (λ q. accepts q s) (first-ascii b h.0) ∙ is_utf8-ascii s h.1
