-- ===== src/Shared/Content.antt =====
-- `RoomTextContent` of shared/src/lib.rs: a text message that is not blank and has at most 4 KiB.
pub mod Laws
use vtnet.Base.{ℕ, ◌*◌, Result, ok, err, ltb, if◌then◌else◌}
use vtnet.Text.{Text, trim, is_empty, len}

abbrev pub max_text_content_bytes : ℕ
max_text_content_bytes = 4 * 1024

pub record RoomTextContent : Type 0 where
  pub value : Text

pub data ContentError : Type 0 where
  must_not_be_empty exceeds_4_kib : ContentError

-- `RoomTextContent::new`, which its `Deserialize` calls on the decoded string.
unfoldable pub new : Text → Result RoomTextContent ContentError
new value =
    if is_empty (trim value)
    then err must_not_be_empty
    else if ltb max_text_content_bytes (len value)
    then err exceeds_4_kib
    else ok (record { value = value })
