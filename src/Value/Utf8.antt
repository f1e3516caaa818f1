-- ===== src/Value/Utf8.antt =====
-- `String::from_utf8`: which bytes are well formed UTF-8.
use rarm_db.Base.{ℕ, zero, suc, List, [], ◌∷◌, Bool, true, false, ◌&&◌, leb, ltb, if◌then◌else◌}

-- How many continuation bytes a leading byte wants, and the range of the first of them.
unfoldable pub lead : ℕ → Bool × ℕ × ℕ × ℕ
lead b =
    if ltb b 0x80
    then (true, 0, 0x80, 0xbf)
    else if ltb b 0xc2
    then (false, 0, 0, 0)
    else if ltb b 0xe0
    then (true, 1, 0x80, 0xbf)
    else if ltb b 0xe1
    then (true, 2, 0xa0, 0xbf)
    else if ltb b 0xed
    then (true, 2, 0x80, 0xbf)
    else if ltb b 0xee
    then (true, 2, 0x80, 0x9f)
    else if ltb b 0xf0
    then (true, 2, 0x80, 0xbf)
    else if ltb b 0xf1
    then (true, 3, 0x90, 0xbf)
    else if ltb b 0xf4
    then (true, 3, 0x80, 0xbf)
    else if ltb b 0xf5
    then (true, 3, 0x80, 0x8f)
    else (false, 0, 0, 0)

-- The bytes from one that must be leading (`zero`) or a continuation in a range.
unfoldable pub utf8_from : ℕ → ℕ → ℕ → List ℕ → Bool
utf8_from zero low high [] = true
utf8_from (suc n) low high [] = false
utf8_from zero low high (b ∷ bytes) =
    let (fine, n, low', high') = lead b in fine && utf8_from n low' high' bytes
utf8_from (suc n) low high (b ∷ bytes) = leb low b && leb b high && utf8_from n 0x80 0xbf bytes

abbrev pub is_utf8 : List ℕ → Bool
is_utf8 bytes = utf8_from 0 0x80 0xbf bytes
