-- ===== src/Util.antt =====
-- `internal/util/util.go`.
pub mod Uuid
use provider_dip.Base.{ℕ, Bool, List, ◌++◌, ◌&&◌, ◌||◌, leb, ◌==◌, nat_Comparable, Text, replicate}
use provider_dip.Regex.{Item, one, literal, matches_full}

-- The class `[0-9a-fA-F]`.
unfoldable pub is_hex : ℕ → Bool
is_hex c = (leb b'0' c && leb c b'9') || (leb b'a' c && leb c b'f') || (leb b'A' c && leb c b'F')

-- `[0-9a-fA-F]{n}`.
abbrev pub hex_digits : ℕ → List Item
hex_digits n = replicate n (one is_hex)

-- `uuidRegex`, between its `^` and `$`.
unfoldable pub uuid_regex : List Item
uuid_regex =
    hex_digits 8
    ++ (literal "-"
        ++ (hex_digits 4
            ++ (literal "-"
                ++ (hex_digits 4
                    ++ (literal "-" ++ (hex_digits 4 ++ (literal "-" ++ hex_digits 12)))))))

unfoldable pub is_valid_uuid : Text → Bool
is_valid_uuid s = matches_full uuid_regex s

unfoldable pub is_not_found_or_invalid_id : ℕ → Bool
is_not_found_or_invalid_id status_code = status_code == 400 || status_code == 404
