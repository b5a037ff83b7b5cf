-- ===== src/Mock/Objects/Kept.antt =====
-- The images of the mock server, from their creation to their deletion.
use nutanix_vma.Prelude.{
  ◌+◌, String, none, some, List, [], ◌∷◌, str_eq, eq_iff, concat, ◌≡◌, ◌≢◌, refl, sym, ap, ◌∙◌, inl,
  inr, Bool-cases, arith,
}
use nutanix_vma.HttpClient.Codec.{Image}
use nutanix_vma.Mock.{Store, lookup, delete_key, add_image, delete_image, create_task, padded}
use nutanix_vma.Mock.Handlers.{Fields, Payload, reply, accept}
use nutanix_vma.Mock.Objects.{
  default_image_size, create_image, handle_image_get, handle_image_delete,
}

module _ {V : Type 0} where
  pub lookup_self : (k : String) (v : V) (m : List (String × V)) → lookup k ((k, v) ∷ m) ≡ some v
  unfolding lookup
  lookup_self k v m = rw ((eq_iff k k).1 refl) refl

  pub lookup_other :
      (k j : String) (v : V) (m : List (String × V)) → j ≢ k → lookup j ((k, v) ∷ m) ≡ lookup j m
  unfolding lookup
  lookup_other k j v m h = elim (Bool-cases (str_eq k j)) [
    | inl e ↦ absurd (h (sym ((eq_iff k j).0 e)))
    | inr n ↦ rw n refl
  ]

  lookup-delete_key : (k : String) (m : List (String × V)) → lookup k (delete_key k m) ≡ none
  unfolding lookup delete_key
  lookup-delete_key k [] = refl
  lookup-delete_key k ((j, v) ∷ m) = elim (Bool-cases (str_eq j k)) [
    | inl e ↦ rw e (lookup-delete_key k m)
    | inr n ↦ rw (n, lookup, n) (lookup-delete_key k m)
  ]

  lookup-delete_key_other :
      (k i : String) (m : List (String × V)) → i ≢ k → lookup i (delete_key k m) ≡ lookup i m
  unfolding lookup delete_key
  lookup-delete_key_other k i [] h = refl
  lookup-delete_key_other k i ((j, v) ∷ m) h =
      ground (arith, eq_iff j k, eq_iff j i, lookup-delete_key_other k i m h)

-- The UUID of the next image.
abbrev pub image_id : Store → String
image_id s = concat ("img-" ∷ padded (s.image_counter + 1) ∷ [])

abbrev pub new_image : Fields → Store → Image
new_image b s = record {
  ext_id = image_id s;
  name = b.name;
  type = b.type;
  size_bytes = default_image_size;
}

pub create-images :
    (b : Fields) (s : Store)
    → (create_image (some b) s).1.images ≡ (image_id s, new_image b s) ∷ s.images
unfolding create_image add_image accept create_task
create-images b s = refl

get-found :
    (uuid : String) (s : Store) (image : Image)
    → lookup uuid s.images ≡ some image
    → handle_image_get uuid s ≡ (reply 200 (Payload.image image), s)
unfolding handle_image_get
get-found uuid s image e = rw (e, handle_image_get) refl

get-missing :
    (uuid : String) (s : Store)
    → lookup uuid s.images ≡ none
    → handle_image_get uuid s ≡ (reply 404 (Payload.error "image not found"), s)
unfolding handle_image_get
get-missing uuid s e = rw (e, handle_image_get) refl

delete_image-found :
    (uuid : String) (s : Store) (image : Image)
    → lookup uuid s.images ≡ some image
    → delete_image uuid s ≡ some (record s { images = delete_key uuid s.images })
unfolding delete_image
delete_image-found uuid s image e = rw (e, delete_image) refl

delete-images :
    (uuid : String) (s : Store) (image : Image)
    → lookup uuid s.images ≡ some image
    → (handle_image_delete uuid s).1.images ≡ delete_key uuid s.images
unfolding handle_image_delete accept create_task
delete-images uuid s image e = rw (delete_image-found uuid s image e, handle_image_delete) refl

-- What the creation and then the deletion of an image do to the images.
pub record Kept (b : Fields) (s : Store) : Type 0 where
  pub created : Store
  pub made : (create_image (some b) s).1 ≡ created
  pub read :
      handle_image_get (image_id s) created ≡ (reply 200 (Payload.image (new_image b s)), created)
  pub others :
      (uuid : String) → uuid ≢ image_id s → lookup uuid created.images ≡ lookup uuid s.images
  pub deleted : Store
  pub unmade : (handle_image_delete (image_id s) created).1 ≡ deleted
  pub missing :
      handle_image_get (image_id s) deleted ≡ (reply 404 (Payload.error "image not found"), deleted)
  pub untouched :
      (uuid : String) → uuid ≢ image_id s → lookup uuid deleted.images ≡ lookup uuid s.images

-- After the mock server has created an image, it is read back by its UUID with the name and the type of
-- the request, and the other images are as they were; after it has been deleted, a read finds none, and
-- the others are as they were.
pub create_image-Kept : (b : Fields) (s : Store) → Kept b s
create_image-Kept b s =
    let id = image_id s in
    let made = (create_image (some b) s).1 in
    let gone = (handle_image_delete id made).1 in
    let found : lookup id made.images ≡ some (new_image b s) =
      ap (lookup id) (create-images b s) ∙ lookup_self id (new_image b s) s.images in
    let others : (uuid : String) → uuid ≢ id → lookup uuid made.images ≡ lookup uuid s.images =
      λ uuid h.
        ap (lookup uuid) (create-images b s) ∙ lookup_other id uuid (new_image b s) s.images h in
    let left = delete-images id made (new_image b s) found in
    record {
      created = made;
      made = refl;
      read = get-found id made (new_image b s) found;
      others = others;
      deleted = gone;
      unmade = refl;
      missing = get-missing id gone (ap (lookup id) left ∙ lookup-delete_key id made.images);
      untouched = λ uuid h.
          ap (lookup uuid) left ∙ lookup-delete_key_other id uuid made.images h ∙ others uuid h;
    }
