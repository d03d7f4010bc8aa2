-- ===== src/Textures.antt =====
-- Rune/include/rune/rendering/texture.hpp and Rune/src/rendering/texture.cpp: `Texture`, whose pixels
-- `set_data` copies to the graphics library. That library is a parameter over its state `W`.
use rune_old.Base.{
  ℕ, ◌*◌, ◌%◌, ◌^◌, Bool, Option, [], ◌==◌, if◌then◌else◌, length, Bytes, Outcome, ok, ◌>>=◌, ◌>>◌,
  or_fault, rune_assert, exception_thrown,
}

pub data TextureUse : Type 0 where
  undefined upload_dst shader_read : TextureUse

-- The calls of the graphics library of which nothing is used that they return.
pub data TextureCall : Type 0 where
  write_pixels : ℕ → Bytes → TextureCall
  unmap_staging destroy_staging begin_upload end_upload wait_for destroy_upload : ℕ → TextureCall
  transition : ℕ → ℕ → TextureUse → TextureUse → TextureCall
  copy_to_texture : ℕ → ℕ → ℕ → TextureCall

-- `none` is a call that returns false; a texture is created of a width and a height.
pub record TextureGfx (W : Type 0) : Type 0 where
  pub perform : TextureCall → W → W
  pub create_texture : ℕ → ℕ → W → ℕ × W
  pub create_buffer : ℕ → W → Option ℕ × W
  pub map_buffer : ℕ → W → Bool × W
  pub create_command_list : W → Option ℕ × W
  pub submit : ℕ → W → ℕ × W

pub record Texture : Type 0 where
  pub width : ℕ
  pub height : ℕ
  pub depth : ℕ
  pub data_of : Bytes
  pub handle : ℕ

abbrev pub new_texture : Texture
new_texture = record { width = 0; height = 0; depth = 0; data_of = []; handle = 0 }

abbrev pub set_dimensions : ℕ → ℕ → ℕ → Texture → Texture
set_dimensions width height depth t = record t { width = width; height = height; depth = depth }

module _ {W : Type 0} (g : TextureGfx W) where
  -- The bytes are written if the buffer can be mapped.
  unfoldable pub fill_staging : ℕ → Bytes → W → W
  fill_staging buffer bytes w =
      let (mapped, w') = g.map_buffer buffer w in
      if mapped
      then g.perform (unmap_staging buffer) (g.perform (write_pixels buffer bytes) w')
      else w'

  -- The commands that copy the staging buffer to the texture, and the wait for them.
  unfoldable pub upload : ℕ → ℕ → ℕ → W → W
  upload commands buffer texture w =
      let w1 = g.perform (begin_upload commands) w in
      let w2 = g.perform (transition commands texture undefined upload_dst) w1 in
      let w3 = g.perform (copy_to_texture commands buffer texture) w2 in
      let w4 = g.perform (transition commands texture upload_dst shader_read) w3 in
      let w5 = g.perform (end_upload commands) w4 in
      let (fence, w6) = g.submit commands w5 in
      let w7 = g.perform (wait_for fence) w6 in
      g.perform (destroy_staging buffer) (g.perform (destroy_upload commands) w7)

  -- The product of the dimensions is one of 32 bits.
  unfoldable pub set_data : Bool → Bytes → Texture → W → Outcome (Texture × W)
  set_data debug bytes t w = do
    rune_assert debug (length bytes == (t.width * t.height * t.depth * 4) % 2 ^ 32)
    let (texture, w1) = g.create_texture t.width t.height w
    let (staging, w2) = g.create_buffer (length bytes) w1
    buffer ← or_fault staging exception_thrown
    let (list, w3) = g.create_command_list (fill_staging buffer bytes w2)
    commands ← or_fault list exception_thrown
    ok (record t { data_of = bytes; handle = texture }, upload commands buffer texture w3)
