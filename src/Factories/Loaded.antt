-- ===== src/Factories/Loaded.antt =====
-- When the factories of textures and materials return.
use rune_old.Base.{
  le→leb, rune_assert-true, ◌>>=◌, ℕ, ◌*◌, ◌%◌, ◌^◌, ◌≤◌, ◌<◌, ◌≡◌, refl, sym, ap, ◌∙◌, Bool, true,
  Option, some, List, [], ◌∷◌, ◌++◌, append_assoc, append-nil, map, arith, ◌==◌, length, take,
  length-take, Bytes, All, ok, or_fault, null_access,
}
use native.Mathlib.Nat.{mod-eq_of_lt}
use rune_old.Factories.{
  Image, MaterialFile, factory_load_texture, factory_load_material, texture_handles,
}
use rune_old.Materials.{Material, MaterialGfx, new_material, set_textures}
use rune_old.Maps.{nat_eq}
use rune_old.Resources.{SystemResources, get_metadata}
use rune_old.Resources.Handles.{ResourceHandle, get_ptr, get}
use rune_old.Resources.Types.{ResourceMetadata}
use rune_old.Textures.{Texture, TextureGfx, fill_staging, upload, set_data}

-- The staging buffers and the command lists that are asked for are created.
pub record Creates {W : Type 0} (g : TextureGfx W) : Type 0 where
  pub buffer_of : ℕ → W → ℕ × W
  pub buffers : (n : ℕ) (w : W) → g.create_buffer n w ≡ (some (buffer_of n w).0, (buffer_of n w).1)
  pub list_of : W → ℕ × W
  pub lists : (w : W) → g.create_command_list w ≡ (some (list_of w).0, (list_of w).1)

==-of : (a b : ℕ) → a ≡ b → (a == b) ≡ true
==-of a b h = ground arith

-- `area` is the product of a width and a height.
size_fits :
    (area : ℕ) (bytes : Bytes)
    → area * 4 ≤ length bytes
    → area * 4 < 2 ^ 31
    → (length (take (area * 4) bytes) == (area * 1 * 4) % 2 ^ 32) ≡ true
size_fits area bytes enough small =
    let one : area * 1 * 4 ≡ area * 4 = omega arith in
    let fits : (area * 4) % 2 ^ 32 ≡ area * 4 = mod-eq_of_lt (omega arith) in
    ==-of (length (take (area * 4) bytes)) ((area * 1 * 4) % 2 ^ 32)
      (rw (one, fits) (omega (arith, length-take (area * 4) bytes)))

-- The factory of textures returns on an image whose bytes are there and can be counted in a signed
-- integer, where the graphics library creates what it is asked for, whether assertions are checked or
-- not: the texture has the image's size, the depth 1, and as its data the first bytes of the image,
-- four for each pixel.
pub factory_load_texture-pixels :
    {Res W : Type 0} (g : TextureGfx W) (stbi_load : Bytes → Image) (debug : Bool)
    (metadata : ResourceMetadata Res) (w : W) (image : Image) (bytes : Bytes)
    → Creates g
    → stbi_load metadata.source_filename ≡ image
    → image.pixels ≡ some bytes
    → image.width * image.height * 4 ≤ length bytes
    → image.width * image.height * 4 < 2 ^ 31
    → (t : Texture) × (w' : W) × (factory_load_texture g stbi_load debug metadata w ≡ ok (t, w'))
      × (t.width ≡ image.width)
      × (t.height ≡ image.height)
      × (t.depth ≡ 1)
      × (t.data_of ≡ take (image.width * image.height * 4) bytes)
unfolding factory_load_texture set_data
factory_load_texture-pixels g stbi_load debug metadata w image bytes creates loads there enough
      small =
    let area = image.width * image.height in
    let data_of = take (area * 4) bytes in
    let created = g.create_texture image.width image.height w in
    let staged = creates.buffer_of (length data_of) created.1 in
    let filled = fill_staging g staged.0 data_of staged.1 in
    let commands = creates.list_of filled in
    (
      record {
        width = image.width;
        height = image.height;
        depth = 1;
        data_of = data_of;
        handle = created.0;
      },
      upload g commands.0 staged.0 created.0 commands.1,
      rw
          (
            loads,
            there,
            le→leb (area * 4) (length bytes) enough,
            size_fits area bytes enough small,
            rune_assert-true debug,
            creates.buffers (length data_of) created.1,
            creates.lists filled,
          )
          refl,
      refl,
      refl,
      refl,
      refl,
    )

module _ {Res : Type 0} (resources : SystemResources Res) where
  -- The entry of a resource is there.
  abbrev pub Registered : ℕ → Type 0
  Registered id = (metadata : ResourceMetadata Res) × (get_metadata id resources ≡ ok metadata)

  texture_handles-Registered :
      (ids : List ℕ) (hs : List ResourceHandle)
      → All Registered ids
      → texture_handles resources (map some ids) hs ≡ ok (hs ++ map some ids)
  unfolding texture_handles get_ptr
  texture_handles-Registered [] hs h = ap ok (sym (append-nil hs))
  texture_handles-Registered (id ∷ ids) hs ((metadata, e), rest) = rw (e) (
      texture_handles-Registered ids (hs ++ some id ∷ []) rest
      ∙ ap ok (append_assoc hs (some id ∷ []) (map some ids)))

-- What `set_textures` makes of a material that is new, with the first of its textures.
abbrev pub bound : {W : Type 0} → MaterialGfx W → List ResourceHandle → Texture → W → Material × W
bound g textures first w =
    let set = g.create_descriptor_set w in
    let sampler = g.create_sampler set.1 in
    (
      record { textures = textures; texture_set = set.0 },
      g.bind_texture set.0 first.handle sampler.0 sampler.1,
    )

-- The factory of materials, on a file that names registered textures, at least one: it returns the
-- material with handles to all of them, and the first one bound, if the first one is loaded, and
-- goes through a null pointer if it is not.
pub factory_load_material-textures :
    {Res W : Type 0} (g : MaterialGfx W) (load_file : Bytes → Option MaterialFile)
    (as_texture : Res → Texture) (debug : Bool) (resources : SystemResources Res)
    (metadata : ResourceMetadata Res) (w : W) (id : ℕ) (ids : List ℕ) (pointer : Option Res)
    → load_file metadata.source_filename
      ≡ some (record { material = some (record { textures = map some (id ∷ ids) }) })
    → All (Registered resources) (id ∷ ids)
    → get (some id) resources ≡ ok pointer
    → factory_load_material g load_file as_texture debug resources metadata w ≡ (
        or_fault pointer null_access >>= λ first.
        ok (bound g (map some (id ∷ ids)) (as_texture first) w))
unfolding factory_load_material set_textures new_material
factory_load_material-textures g load_file as_texture debug resources metadata w id ids pointer
      loads registered there =
    rw
      (
        loads,
        rune_assert-true debug,
        texture_handles-Registered resources (id ∷ ids) [] registered,
        there,
      )
      refl
