-- ===== src/Command/Validation.antt =====
-- core/command/command_validation.hpp and FormatUuidV4 of command_state.cpp. A text is the list of its
-- bytes here, and a byte a number.
use cns_server.Base.{
  ℕ, zero, suc, ◌+◌, ◌/◌, ◌%◌, Bool, true, not, ◌&&◌, ◌||◌, List, [], ◌∷◌, ◌==◌, ltb, leb,
  if◌then◌else◌, length, ℕ_eq,
}

-- value[index], for an index within the text
unfoldable pub byte_at : ℕ → List ℕ → ℕ
byte_at index [] = 0
byte_at zero (b ∷ bs) = b
byte_at (suc index) (b ∷ bs) = byte_at index bs

abbrev is_digit : ℕ → Bool
is_digit c = leb 48 c && leb c 57

abbrev is_hex : ℕ → Bool
is_hex c = is_digit c || (leb 97 c && leb c 102)

abbrev is_dash_index : ℕ → Bool
is_dash_index index = index == 8 || index == 13 || index == 18 || index == 23

unfoldable pub has_hex_digits : ℕ → List ℕ → Bool
has_hex_digits index [] = true
has_hex_digits index (c ∷ cs) = (is_dash_index index || is_hex c) && has_hex_digits (suc index) cs

-- IsUuidV4Shape
unfoldable pub is_uuid_v4_shape : List ℕ → Bool
unfolding byte_at has_hex_digits
is_uuid_v4_shape value =
    (length value == 36
      && byte_at 8 value == 45
      && byte_at 13 value == 45
      && byte_at 18 value == 45
      && byte_at 23 value == 45)
    && has_hex_digits 0 value
    && byte_at 14 value == 52
    && (byte_at 19 value == 56
        || byte_at 19 value == 57
        || byte_at 19 value == 97
        || byte_at 19 value == 98)

abbrev is_error_code_byte : ℕ → Bool
is_error_code_byte c = (leb 97 c && leb c 122) || is_digit c || c == 95

unfoldable pub all_error_code_bytes : List ℕ → Bool
all_error_code_bytes [] = true
all_error_code_bytes (c ∷ cs) = is_error_code_byte c && all_error_code_bytes cs

-- IsValidErrorCode
unfoldable pub is_valid_error_code : List ℕ → Bool
unfolding all_error_code_bytes
is_valid_error_code value =
    not (length value == 0) && leb (length value) 64 && all_error_code_bytes value

-- kHex[nibble]
unfoldable pub hex_digit : ℕ → ℕ
hex_digit nibble = if ltb nibble 10 then 48 + nibble else 87 + nibble

-- The version and the variant, which replace bits of bytes 6 and 8: `& 0x0f | 0x40`, `& 0x3f | 0x80`.
unfoldable pub marked_byte : ℕ → ℕ → ℕ
marked_byte index byte =
    if index == 6 then byte % 16 + 64 else if index == 8 then byte % 64 + 128 else byte

unfoldable pub format_bytes : ℕ → List ℕ → List ℕ
unfolding hex_digit marked_byte
format_bytes index [] = []
format_bytes index (b ∷ bs) =
    let byte = marked_byte index b in
    let digits = hex_digit (byte / 16) ∷ hex_digit (byte % 16) ∷ format_bytes (suc index) bs in
    if index == 4 || index == 6 || index == 8 || index == 10 then 45 ∷ digits else digits

-- FormatUuidV4
unfoldable pub format_uuid_v4 : List ℕ → List ℕ
unfolding format_bytes
format_uuid_v4 random_bytes = format_bytes 0 random_bytes
