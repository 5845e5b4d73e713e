-- ===== src/Server/Avatars.antt =====
-- The images of hosts and participants (server/avatar.go). The image codecs and the resizing are a
-- parameter.
pub mod Stored
use cc_core_server.Common.{
  ℕ, String, Option, none, some, List, GoError, plain, wrap, not_exist, Result, ok, err,
  if◌then◌else◌, ◌≡◌,
}
use cc_core_server.Common.Text.{◌==◌, ◌&◌}
use cc_core_server.Storage.{Bucket, load_value, store_value}
use cc_core_server.Server.{Avatar, Externals, Server}

-- The implementations of `imageProcessor`.
pub data ImageProcessor : Type 0 where
  png_processor jpeg_processor : ImageProcessor

-- The packages image/png, image/jpeg and resize.
pub record Images : Type 1 where
  pub Image : Type 0
  pub decode : ImageProcessor → List ℕ → Result Image
  pub encode : ImageProcessor → Image → Result (List ℕ)
  pub resize : ℕ → ℕ → Image → Image

abbrev pub default_avatar_image_size : ℕ
default_avatar_image_size = 256

-- `imgProcessors`.
unfoldable pub img_processors : String → Option ImageProcessor
img_processors content_type =
    if content_type == "image/png"
    then some png_processor
    else if content_type == "image/jpeg"
    then some jpeg_processor
    else none

module _ ⦃x : Externals⦄ where
  -- The end of `NewAvatar`, on the outcome of the store, of the encoding and of the decoding.
  unfoldable pub avatar_stored :
      String → Server x → Result (Bucket x.bolt) → Result String × Server x
  avatar_stored uuid s (err e) = (err (wrap "could not store image" e), s)
  avatar_stored uuid s (ok b) = (ok uuid, record s { avatar_storage = b })

  unfoldable pub image_encoded :
      String → String → Server x → Result (List ℕ) → Result String × Server x
  unfolding avatar_stored
  image_encoded uuid content_type s (err e) = (err (wrap "could not encode image data" e), s)
  image_encoded uuid content_type s (ok image_data) = avatar_stored uuid s (
      store_value x.avatar_codec s.avatar_storage uuid
        (record { uuid = uuid; image_data = image_data; content_type = content_type }))

  unfoldable pub image_decoded :
      (i : Images)
      → ImageProcessor
      → String
      → String
      → Server x
      → Result i.Image
      → Result String × Server x
  unfolding image_encoded
  image_decoded i p uuid content_type s (err e) = (err (wrap "could not decode image data" e), s)
  image_decoded i p uuid content_type s (ok image) =
      image_encoded uuid content_type s
        (i.encode p (i.resize default_avatar_image_size default_avatar_image_size image))

  unfoldable pub processor_found :
      Images
      → String
      → String
      → List ℕ
      → Server x
      → Option ImageProcessor
      → Result String × Server x
  unfolding image_decoded
  processor_found i uuid content_type body s none =
      (err (plain ("unsupported image type: " & content_type)), s)
  processor_found i uuid content_type body s (some p) =
      image_decoded i p uuid content_type s (i.decode p body)

  -- `NewAvatar`; `uuid` is the identifier that it draws.
  unfoldable pub new_avatar :
      Images → String → String → List ℕ → Server x → Result String × Server x
  unfolding processor_found img_processors
  new_avatar i uuid content_type body s =
      processor_found i uuid content_type body s (img_processors content_type)

  -- `AvatarByID`: the image and its content type.
  unfoldable pub avatar_loaded : Option (Result Avatar) → Result (List ℕ × String)
  avatar_loaded none = err not_exist
  avatar_loaded (some (err e)) = err (wrap "could not read avatar data" e)
  avatar_loaded (some (ok a)) = ok (a.image_data, a.content_type)

  unfoldable pub avatar_by_id : Server x → String → Result (List ℕ × String)
  unfolding avatar_loaded
  avatar_by_id s uuid = avatar_loaded (load_value x.avatar_codec s.avatar_storage uuid)
