-- ===== src/Frontend/Uuid.antt =====
-- `isUuid` of App.tsx.
use vtnet.Base.{ℕ, Bool, true, false, ◌&&◌, ◌||◌, List, [], ◌∷◌, ◌++◌, leb, ◌==◌, nat_eq, replicate}
use vtnet.Text.{Text}

-- The classes of its pattern, one for each character, in either case.
unfoldable pub is_hex : ℕ → Bool
is_hex c = leb b'0' c && leb c b'9' || leb b'a' c && leb c b'f' || leb b'A' c && leb c b'F'

abbrev is_dash : ℕ → Bool
is_dash c = c == b'-'

abbrev is_version : ℕ → Bool
is_version c = leb b'1' c && leb c b'8'

abbrev is_variant : ℕ → Bool
is_variant c = c == b'8' || c == b'9' || c == b'a' || c == b'b' || c == b'A' || c == b'B'

abbrev pub matches : List (ℕ → Bool) → Text → Bool
matches [] [] = true
matches (p ∷ ps) (c ∷ t) = p c && matches ps t
matches _ _ = false

abbrev pub uuid_pattern : List (ℕ → Bool)
uuid_pattern =
    replicate 8 is_hex
    ++ is_dash ∷ replicate 4 is_hex
    ++ is_dash ∷ is_version ∷ replicate 3 is_hex
    ++ is_dash ∷ is_variant ∷ replicate 3 is_hex
    ++ is_dash ∷ replicate 12 is_hex

unfoldable pub is_uuid : Text → Bool
unfolding is_hex
is_uuid t = matches uuid_pattern t
