-- ===== src/Storage.antt =====
-- backend/crates/ferum-application/src/storage_utils.rs, and the tests of image data in
-- backend/crates/ferum-application/src/validators/mod.rs. Data are lists of bytes.
pub mod Keys
use ferum_board.Prelude.{
  ℕ, String, Bool, true, false, ◌&&◌, ◌||◌, List, [], ◌∷◌, ◌++◌, ◌==◌, Text, str_eq, any, ltb, leb,
  length, take, drop, if◌then◌else◌,
}
use ferum_board.Text.{codes, starts_with, text_eq}

unfoldable pub content_type_to_ext : String → Text
content_type_to_ext ct =
    if str_eq ct "image/jpeg" || str_eq ct "image/jpg"
    then codes "jpg"
    else if str_eq ct "image/png"
    then codes "png"
    else if str_eq ct "image/webp"
    then codes "webp"
    else if str_eq ct "image/gif"
    then codes "gif"
    else if str_eq ct "image/svg+xml"
    then codes "svg"
    else if str_eq ct "image/x-icon" || str_eq ct "image/vnd.microsoft.icon"
    then codes "ico"
    else codes "bin"

-- `{prefix}/{hex}.{ext}`; the 32 digits are the hexadecimal form of half a SHA-256 hash.
unfoldable pub cas_key : (digest : List ℕ → Text) → Text → List ℕ → String → Text
unfolding content_type_to_ext
cas_key digest prefix bytes content_type =
    prefix ++ (codes "/" ++ (digest bytes ++ (codes "." ++ content_type_to_ext content_type)))

unfoldable pub validate_image_content_type : String → Bool
validate_image_content_type ct =
    str_eq ct "image/jpeg"
    || (str_eq ct "image/jpg"
        || (str_eq ct "image/png" || (str_eq ct "image/webp" || str_eq ct "image/gif")))

unfoldable pub validate_favicon_content_type : String → Bool
validate_favicon_content_type ct =
    str_eq ct "image/x-icon"
    || (str_eq ct "image/vnd.microsoft.icon"
        || (str_eq ct "image/png"
            || (str_eq ct "image/gif" || (str_eq ct "image/jpeg" || str_eq ct "image/jpg"))))

-- JPEG, PNG, GIF and WebP, by the first bytes.
unfoldable pub validate_image_magic : List ℕ → Bool
validate_image_magic bytes =
    if ltb (length bytes) 12
    then false
    else starts_with bytes (0xff ∷ 0xd8 ∷ 0xff ∷ [])
      || (starts_with bytes (0x89 ∷ 0x50 ∷ 0x4e ∷ 0x47 ∷ 0x0d ∷ 0x0a ∷ 0x1a ∷ 0x0a ∷ [])
          || (starts_with bytes (codes "GIF87a")
              || (starts_with bytes (codes "GIF89a")
                  || (starts_with bytes (codes "RIFF")
                      && text_eq (take 4 (drop 8 bytes)) (codes "WEBP")))))

unfoldable pub validate_favicon_magic : List ℕ → Bool
unfolding validate_image_magic
validate_favicon_magic bytes =
    (leb 4 (length bytes) && text_eq (take 4 bytes) (0 ∷ 0 ∷ 1 ∷ 0 ∷ []))
    || validate_image_magic bytes
