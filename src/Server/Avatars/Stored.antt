-- ===== src/Server/Avatars/Stored.antt =====
-- NewAvatar and AvatarByID: what is stored is found again.
use cc_core_server.Common.{
  ℕ, String, false, Option, none, some, List, Result, ok, err, ◌≡◌, ◌∙◌, refl, ap,
}
use cc_core_server.Common.Text.{◌==◌, eq_refl}
use cc_core_server.Storage.{Bucket, load_value, store_value}
use cc_core_server.Storage.Laws.{load_value-store_value}
use cc_core_server.Server.{Externals, Server}
use cc_core_server.Server.Avatars.{
  ImageProcessor, Images, default_avatar_image_size, img_processors, avatar_stored, image_encoded,
  image_decoded, processor_found, new_avatar, avatar_loaded, avatar_by_id,
}

module _ ⦃x : Externals⦄ where
  -- An avatar that was added to `s`, which became `t`.
  pub record IsAdded (i : Images) (uuid content_type : String) (body : List ℕ) (s t : Server x)
      (answer : String) : Type 0 where
    pub processor : ImageProcessor
    pub supported : img_processors content_type ≡ some processor
    pub image : i.Image
    pub decoded : i.decode processor body ≡ ok image
    pub image_data : List ℕ
    pub encoded :
        i.encode processor (i.resize default_avatar_image_size default_avatar_image_size image)
        ≡ ok image_data
    pub identifier : answer ≡ uuid
    pub found : avatar_by_id t uuid ≡ ok (image_data, content_type)
    pub others : (j : String) → (uuid == j) ≡ false → avatar_by_id t j ≡ avatar_by_id s j

  -- The part of it that the store establishes.
  abbrev Found : String → String → List ℕ → Server x → Server x → String → Type 0
  Found uuid content_type image_data s t answer =
      (answer ≡ uuid)
      × (avatar_by_id t uuid ≡ ok (image_data, content_type))
      × ((j : String) → (uuid == j) ≡ false → avatar_by_id t j ≡ avatar_by_id s j)

  avatar_stored-Found :
      (uuid content_type : String) (image_data : List ℕ) (s : Server x) (o : Result (Bucket x.bolt))
      (answer : String)
      → store_value x.avatar_codec s.avatar_storage uuid
          (record { uuid = uuid; image_data = image_data; content_type = content_type })
        ≡ o
      → (avatar_stored uuid s o).0 ≡ ok answer
      → Found uuid content_type image_data s (avatar_stored uuid s o).1 answer
  unfolding avatar_stored avatar_by_id
  avatar_stored-Found uuid content_type image_data s (err e) answer stored h = absurd (cc)
  avatar_stored-Found uuid content_type image_data s (ok b) answer stored h =
      let seen =
        λ (j : String). load_value-store_value x.avatar_codec s.avatar_storage b uuid j _ stored in
      (
        cc,
        ap avatar_loaded
            {y = some
              (ok (record { uuid = uuid; image_data = image_data; content_type = content_type }))}
            (seen uuid ∙ rw (eq_refl uuid) refl),
        λ j apart.
            ap avatar_loaded {y = load_value x.avatar_codec s.avatar_storage j}
              (seen j ∙ rw apart refl),
      )

  image_encoded-Found :
      (uuid content_type : String) (s : Server x) (o : Result (List ℕ)) (answer : String)
      → (image_encoded uuid content_type s o).0 ≡ ok answer
      → (image_data : List ℕ) × (o ≡ ok image_data)
        × Found uuid content_type image_data s (image_encoded uuid content_type s o).1 answer
  unfolding image_encoded
  image_encoded-Found uuid content_type s (err e) answer h = absurd (cc)
  image_encoded-Found uuid content_type s (ok image_data) answer h =
      (image_data, refl, avatar_stored-Found uuid content_type image_data s _ answer refl h)

  processor_found-IsAdded :
      (i : Images) (uuid content_type : String) (body : List ℕ) (s : Server x)
      (o : Option ImageProcessor) (answer : String)
      → img_processors content_type ≡ o
      → (processor_found i uuid content_type body s o).0 ≡ ok answer
      → IsAdded i uuid content_type body s (processor_found i uuid content_type body s o).1 answer
  unfolding processor_found image_decoded
  processor_found-IsAdded i uuid content_type body s none answer ho h = absurd (cc)
  processor_found-IsAdded i uuid content_type body s (some p) answer ho h =
      go (i.decode p body) refl h
    where
      go :
          (d : Result i.Image)
          → i.decode p body ≡ d
          → (image_decoded i p uuid content_type s d).0 ≡ ok answer
          → IsAdded i uuid content_type body s (image_decoded i p uuid content_type s d).1 answer
      go (err e) hd h' = absurd (cc)
      go (ok image) hd h' =
          let (image_data, encoded, (same, found, others)) =
            image_encoded-Found uuid content_type s _ answer h' in
          record {
            processor = p;
            supported = ho;
            image = image;
            decoded = hd;
            image_data = image_data;
            encoded = encoded;
            identifier = same;
            found = found;
            others = others;
          }

  -- A NewAvatar that returns no error answers the drawn identifier; by it AvatarByID then gives the
  -- decoded, resized and encoded image with its content type, and every other avatar as before.
  pub new_avatar-IsAdded :
      (i : Images) (uuid content_type : String) (body : List ℕ) (s : Server x) (answer : String)
      → (new_avatar i uuid content_type body s).0 ≡ ok answer
      → IsAdded i uuid content_type body s (new_avatar i uuid content_type body s).1 answer
  unfolding new_avatar
  new_avatar-IsAdded i uuid content_type body s answer =
      processor_found-IsAdded i uuid content_type body s _ answer refl
