-- ===== src/Paths/Tests.antt =====
-- Runs of the path checks of src/ace_service/schemas.py.
use audio_ventura.Base.{◌≡◌, refl, ok, err, if◌then◌else◌, nat_eq}
use audio_ventura.Errors.{value_error}
use audio_ventura.Paths.{
  normalize_relative_path, has_code, has_parent, parts_of, segments, join, has_drive,
}
use audio_ventura.Paths.Safe.{
  IsNormal, normalize_relative_path-IsNormal, normalize_relative_path_twice,
}

normalized : normalize_relative_path "a/./b//c.mp3" ≡ ok "a/b/c.mp3"
unfolding normalize_relative_path has_code has_parent parts_of segments join
normalized = refl

climbing :
    normalize_relative_path "a/../b" ≡ err (value_error "relative path traversal is not allowed")
unfolding normalize_relative_path has_code has_parent parts_of segments join
climbing = refl

-- The drive that the leading `./` hides.
hidden_drive : normalize_relative_path "./c:x" ≡ ok "c:x"
unfolding normalize_relative_path has_code has_parent parts_of segments join
hidden_drive = refl

normalize_relative_path-IsNormal_example : IsNormal "a/b/c.mp3"
normalize_relative_path-IsNormal_example =
    normalize_relative_path-IsNormal "a/./b//c.mp3" "a/b/c.mp3" normalized

normalize_relative_path_twice_example : normalize_relative_path "a/b/c.mp3" ≡ (
    if has_drive "a/b/c.mp3"
    then err (value_error "relative path must not be absolute")
    else ok "a/b/c.mp3")
normalize_relative_path_twice_example =
    normalize_relative_path_twice "a/./b//c.mp3" "a/b/c.mp3" normalized
