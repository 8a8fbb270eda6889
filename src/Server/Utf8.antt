-- ===== src/Server/Utf8.antt =====
-- src/server/protocol.rs: `String::from_utf8` as `JsonLineAccumulator` uses it.
use vcd_tools_rs.Prelude.{
  ℕ, zero, suc, ◌+◌, ◌-◌, ◌*◌, ◌&&◌, Option, none, some, List, [], ◌∷◌, Text, leb, ltb, nat_eqb,
  if◌then◌else◌,
}
use mathlib.Core.Option

-- What a leading byte asks for: continuation bytes, the bits it holds, and the range of the byte
-- that follows.
pub record Lead : Type 0 where
  pub more : ℕ
  pub bits : ℕ
  pub low : ℕ
  pub high : ℕ

unfoldable pub lead_three : ℕ → Lead
lead_three b =
    if nat_eqb b 0xe0
    then record { more = 2; bits = 0; low = 0xa0; high = 0xbf }
    else if nat_eqb b 0xed
    then record { more = 2; bits = 0xd; low = 0x80; high = 0x9f }
    else record { more = 2; bits = b - 0xe0; low = 0x80; high = 0xbf }

unfoldable pub lead_four : ℕ → Lead
lead_four b =
    if nat_eqb b 0xf0
    then record { more = 3; bits = 0; low = 0x90; high = 0xbf }
    else if nat_eqb b 0xf4
    then record { more = 3; bits = 4; low = 0x80; high = 0x8f }
    else record { more = 3; bits = b - 0xf0; low = 0x80; high = 0xbf }

unfoldable pub lead : ℕ → Option Lead
lead b =
    if ltb b 0x80
    then some (record { more = 0; bits = b; low = 0x80; high = 0xbf })
    else if ltb b 0xc2
    then none
    else if ltb b 0xe0
    then some (record { more = 1; bits = b - 0xc0; low = 0x80; high = 0xbf })
    else if ltb b 0xf0
    then some (lead_three b)
    else if ltb b 0xf5
    then some (lead_four b)
    else none

-- A character is complete when no byte is missing.
abbrev complete : ℕ → ℕ → Option Text → Option Text
complete zero c rest = Option.map (λ t. c ∷ t) rest
complete (suc n) c rest = rest

-- The rest of the bytes, `more` bytes into a character with the bits read.
unfoldable pub decode : ℕ → ℕ → ℕ → ℕ → List ℕ → Option Text
decode zero bits low high [] = some []
decode (suc more) bits low high [] = none
decode zero bits low high (b ∷ bs) = elim (lead b) [
  | none ↦ none
  | some l ↦ complete l.more l.bits (decode l.more l.bits l.low l.high bs)
]
decode (suc more) bits low high (b ∷ bs) =
    let next = bits * 64 + (b - 0x80) in
    let rest = complete more next (decode more next 0x80 0xbf bs) in
    if leb low b && leb b high then rest else none

unfoldable pub from_utf8 : List ℕ → Option Text
from_utf8 bytes = decode 0 0 0x80 0xbf bytes
