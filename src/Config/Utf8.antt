-- ===== src/Config/Utf8.antt =====
-- The texts of a configuration (internal/config/config.go) that are UTF-8, which encoding/json keeps as
-- they are; in any other it replaces the bytes that are not.
use zcr521_ai_mcp.Common.{
  ℕ, Text, Option, all, if◌then◌else◌, Bool, Map, ltb, true, List, ◌++◌, leb, suc, [], ◌∷◌, ◌&&◌,
  false, some, ◌==◌, none,
}
use Prim.Native.Nat.{zero}
use zcr521_ai_mcp.Config.Data.{Config}

-- What a first byte asks for: the number of bytes that follow, and the bounds of the next one. A byte
-- that begins no character asks for one that there is not.
abbrev lead : ℕ → ℕ × ℕ × ℕ
lead c =
    if ltb c 0x80
    then (0, 0, 0)
    else if leb 0xc2 c && leb c 0xdf
    then (1, 0x80, 0xbf)
    else if c == 0xe0
    then (2, 0xa0, 0xbf)
    else if c == 0xed
    then (2, 0x80, 0x9f)
    else if leb 0xe1 c && leb c 0xef
    then (2, 0x80, 0xbf)
    else if c == 0xf0
    then (3, 0x90, 0xbf)
    else if leb 0xf1 c && leb c 0xf3
    then (3, 0x80, 0xbf)
    else if c == 0xf4
    then (3, 0x80, 0x8f)
    else (1, 1, 0)

unfoldable utf8_from : ℕ → ℕ → ℕ → Text → Bool
utf8_from zero low high [] = true
utf8_from (suc k) low high [] = false
utf8_from zero low high (c ∷ s) = let (k, low', high') = lead c in utf8_from k low' high' s
utf8_from (suc k) low high (c ∷ s) =
    let rest = utf8_from k 0x80 0xbf s in leb low c && leb c high && rest

-- utf8.Valid
unfoldable pub is_utf8 : Text → Bool
unfolding utf8_from
is_utf8 s = utf8_from 0 0 0 s

abbrev keys_of : Option (Map Bool) → List Text
keys_of none = []
keys_of (some []) = []
keys_of (some ((k, _) ∷ m)) = k ∷ keys_of (some m)

unfoldable pub has_utf8 : Config → Bool
unfolding is_utf8 all
has_utf8 c = all is_utf8 (
    c.network.allowed_origins
    ++ c.paths.state_dir
      ∷ c.paths.work_dir
      ∷ c.paths.downloads_dir
      ∷ c.paths.uploads_dir
      ∷ c.paths.artifacts_dir
      ∷ c.paths.temp_dir
      ∷ keys_of c.capabilities)
