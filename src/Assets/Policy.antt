-- ===== src/Assets/Policy.antt =====
-- What an asset transfer may be for: `_ASSET_PURPOSE_POLICY` and the paths that
-- `issue_asset_transfer_capability` of src/ace_service/repository.py asks for, over the enumerations of
-- src/ace_service/models.py.
use audio_ventura.Base.{Option, none, some, String, ◌+++◌, ◌==◌, string_eq, Bool, not, ◌&&◌, ◌||◌}

pub data AssetTransferDirection : Type 0 where
  upload download : AssetTransferDirection

pub data AssetTransferStatus : Type 0 where
  issued consumed expired revoked : AssetTransferStatus

pub data AssetTransferPurpose : Type 0 where
  browser_source_upload : AssetTransferPurpose
  home_source_download : AssetTransferPurpose
  home_source_mp3_upload : AssetTransferPurpose
  home_clip_download : AssetTransferPurpose
  home_clip_upload : AssetTransferPurpose
  home_derivative_download : AssetTransferPurpose
  home_derivative_upload : AssetTransferPurpose

-- The direction, the storage namespace and the extension.
pub record Policy : Type 0 where
  pub direction : AssetTransferDirection
  pub namespace : String
  pub extension : String

abbrev pub asset_purpose_policy : AssetTransferPurpose → Policy
asset_purpose_policy browser_source_upload = record {
  direction = upload;
  namespace = "uploads";
  extension = ".bin";
}
asset_purpose_policy home_source_download = record {
  direction = download;
  namespace = "uploads";
  extension = ".bin";
}
asset_purpose_policy home_source_mp3_upload = record {
  direction = upload;
  namespace = "library";
  extension = ".mp3";
}
asset_purpose_policy home_clip_download = record {
  direction = download;
  namespace = "library";
  extension = ".mp3";
}
asset_purpose_policy home_clip_upload = record {
  direction = upload;
  namespace = "incoming";
  extension = ".mp3";
}
asset_purpose_policy home_derivative_download = record {
  direction = download;
  namespace = "outputs";
  extension = ".lossless";
}
asset_purpose_policy home_derivative_upload = record {
  direction = upload;
  namespace = "library";
  extension = ".mp3";
}

-- What the code reads of a `MediaDerivativeTask` and of its source file.
pub record DerivativeTask : Type 0 where
  pub media_item_id : String
  pub source_relative_path : String

abbrev pub below : Option String → (String → String) → Option String
below none f = none
below (some id) f = some (f id)

-- The one path that a capability of the purpose may name, where it has the owner that it needs.
unfoldable pub purpose_path :
    AssetTransferPurpose → Option String → Option String → Option DerivativeTask → Option String
purpose_path browser_source_upload source job task = below source (λ id. id +++ "/source.bin")
purpose_path home_source_download source job task = below source (λ id. id +++ "/source.bin")
purpose_path home_source_mp3_upload source job task =
    below source (λ id. "sources/" +++ (id +++ "/source.mp3"))
purpose_path home_clip_download source job task =
    below source (λ id. "sources/" +++ (id +++ "/source.mp3"))
purpose_path home_clip_upload source job task = below job (λ id. id +++ "/source.mp3")
purpose_path home_derivative_download source job none = none
purpose_path home_derivative_download source job (some task) = some task.source_relative_path
purpose_path home_derivative_upload source job none = none
purpose_path home_derivative_upload source job (some task) =
    some ("generated/" +++ (task.media_item_id +++ "/playback.mp3"))

abbrev pub path_message : AssetTransferPurpose → String
path_message browser_source_upload = "source raw capability path is invalid"
path_message home_source_download = "source raw capability path is invalid"
path_message home_source_mp3_upload = "source MP3 capability path is invalid"
path_message home_clip_download = "source MP3 capability path is invalid"
path_message home_clip_upload = "clip capability path is invalid"
path_message home_derivative_download = "derivative source capability path is invalid"
path_message home_derivative_upload = "derivative output capability path is invalid"

abbrev pub is_lossless : String → Bool
is_lossless extension = extension == ".flac" || extension == ".wav"

-- The extension breaks a fixed one, or is no lossless one where that is asked for.
abbrev pub breaks_fixed : String → String → Bool
breaks_fixed fixed extension = not (fixed == ".lossless") && not (extension == fixed)

abbrev pub breaks_lossless : String → String → Bool
breaks_lossless fixed extension = fixed == ".lossless" && not (is_lossless extension)
