-- ===== src/Paths.antt =====
-- `normalize_relative_path` and `normalize_extension` of src/ace_service/schemas.py. `PurePosixPath`
-- and `PureWindowsPath` are read as pathlib documents them: the parts of a POSIX path are what
-- stands between its slashes, less the empty ones and the single dots; a path is absolute if it begins with a slash;
-- and a Windows path has a drive if its second character is a colon (one with a backslash was
-- refused before).
use Prim.Native.Char.{Char, code}
use Prim.Native.String.{count}
use audio_ventura.Base.{
  ℕ, Bool, true, false, not, ◌&&◌, ◌||◌, List, [], ◌∷◌, String, ◌+++◌, ◌==◌, nat_eq, string_eq, ltb,
  leb, is_empty, longer_than, if◌then◌else◌, Result, ok, err,
}
use audio_ventura.Errors.{Failure, value_error}
pub mod Safe
mod Tests

-- `char in text`
unfoldable pub has_code : ℕ → String → Bool
has_code k String.[] = false
has_code k (String.◌∷◌ c s) = code c == k || has_code k s

abbrev pub starts_with : ℕ → String → Bool
starts_with k String.[] = false
starts_with k (String.◌∷◌ c s) = code c == k

abbrev pub has_drive : String → Bool
has_drive (String.◌∷◌ a s) = starts_with 58 s
has_drive String.[] = false

-- What stands before the first slash, and between the others.
abbrev pub cons_segment : Char → List String → List String
cons_segment c [] = []
cons_segment c (p ∷ ps) = if code c == 47 then "" ∷ p ∷ ps else String.◌∷◌ c p ∷ ps

unfoldable pub segments : String → List String
segments String.[] = "" ∷ []
segments (String.◌∷◌ c s) = cons_segment c (segments s)

abbrev pub is_dot : String → Bool
is_dot s = is_empty s || s == "."

unfoldable pub parts_of : List String → List String
parts_of [] = []
parts_of (p ∷ ps) = if is_dot p then parts_of ps else p ∷ parts_of ps

unfoldable pub has_parent : List String → Bool
has_parent [] = false
has_parent (p ∷ ps) = p == ".." || has_parent ps

-- `"/".join(parts)`
unfoldable pub join : List String → String
join [] = ""
join (p ∷ []) = p
join (p ∷ q ∷ ps) = p +++ ("/" +++ join (q ∷ ps))

unfoldable pub named_file : List String → Result Failure String
named_file [] = err (value_error "relative path must name a file")
named_file (p ∷ ps) = ok (join (p ∷ ps))

unfoldable pub normalize_relative_path : String → Result Failure String
unfolding named_file
normalize_relative_path value =
    if is_empty value || has_code 0 value
    then err (value_error "relative path must be a non-empty string without NUL bytes")
    else if has_code 92 value
    then err (value_error "relative paths must use POSIX separators")
    else if starts_with 47 value || has_drive value
    then err (value_error "relative path must not be absolute")
    else if has_parent (parts_of (segments value))
    then err (value_error "relative path traversal is not allowed")
    else named_file (parts_of (segments value))

is_lower_or_digit : ℕ → Bool
is_lower_or_digit k = (leb 97 k && leb k 122) || (leb 48 k && leb k 57)

all_lower_or_digits : String → Bool
unfolding is_lower_or_digit
all_lower_or_digits String.[] = true
all_lower_or_digits (String.◌∷◌ c s) = is_lower_or_digit (code c) && all_lower_or_digits s

-- `_EXTENSION_RE.fullmatch`
unfoldable pub is_extension : String → Bool
unfolding all_lower_or_digits
is_extension String.[] = false
is_extension (String.◌∷◌ c s) =
    code c == 46 && not (is_empty s) && not (longer_than s 12) && all_lower_or_digits s

is_hexadecimal : ℕ → Bool
is_hexadecimal k = (leb 48 k && leb k 57) || (leb 97 k && leb k 102) || (leb 65 k && leb k 70)

unfoldable pub all_hexadecimal : String → Bool
unfolding is_hexadecimal
all_hexadecimal String.[] = true
all_hexadecimal (String.◌∷◌ c s) = is_hexadecimal (code c) && all_hexadecimal s

-- `_SHA256_RE.fullmatch`, and the text in lower case.
unfoldable pub validate_sha256 : (String → String) → String → Result Failure String
unfolding all_hexadecimal
validate_sha256 lower value =
    if not (count value == 64) || not (all_hexadecimal value)
    then err (value_error "SHA-256 values must be exactly 64 hexadecimal characters")
    else ok (lower value)

-- `strip` and `lower` are the methods of `str`.
module _ (strip lower : String → String) where
  dotted : String → String
  dotted e = if starts_with 46 e then e else "." +++ e

  unfoldable pub normalize_extension : String → Result Failure String
  unfolding dotted
  normalize_extension value =
      if not (is_extension (dotted (lower (strip value))))
      then err (value_error "extension must contain only 1-12 lowercase alphanumeric characters")
      else ok (dotted (lower (strip value)))
