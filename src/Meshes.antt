-- ===== src/Meshes.antt =====
-- Rune/include/rune/rendering/static_mesh.hpp and Rune/src/rendering/static_mesh.cpp: `StaticMesh`,
-- whose vertices and triangles `apply` copies into buffers of the graphics library. That library is
-- a parameter over its state `W`. Vectors are of types `V3` and `V2`.
pub mod Upload
use rune_old.Base.{
  ℕ, ◌+◌, ◌*◌, ◌%◌, ◌^◌, List, [], ◌∷◌, length, map, Outcome, ok, fault, ◌>>=◌, out_of_bounds,
}

pub data BufferType : Type 0 where
  vertex index : BufferType

-- What the code copies into mapped memory.
pub data Cell (V3 V2 : Type 0) : Type 0 where
  position : V3 → Cell V3 V2
  attributes : V3 → V2 → Cell V3 V2
  index_cell : ℕ → Cell V3 V2

-- `create_buffer` takes the size in bytes; `write` copies cells from the start of a mapped buffer.
pub record Buffers (V3 V2 W : Type 0) : Type 0 where
  pub destroy_buffer : ℕ → W → W
  pub create_buffer : BufferType → ℕ → W → ℕ × W
  pub map_buffer : ℕ → W → W
  pub write : ℕ → List (Cell V3 V2) → W → W
  pub unmap_buffer : ℕ → W → W

pub record StaticMesh (V3 V2 : Type 0) : Type 0 where
  pub positions : List V3
  pub normals : List V3
  pub tex_coords : List V2
  pub triangles : List ℕ
  pub positions_buffer : ℕ
  pub other_attrib_buffer : ℕ
  pub index_buffer : ℕ
  pub index_count : ℕ

module _ {V3 V2 : Type 0} where
  unfoldable pub set_positions : List V3 → StaticMesh V3 V2 → StaticMesh V3 V2
  set_positions positions m = record m { positions = positions }

  unfoldable pub set_normals : List V3 → StaticMesh V3 V2 → StaticMesh V3 V2
  set_normals normals m = record m { normals = normals }

  unfoldable pub set_tex_coords : List V2 → StaticMesh V3 V2 → StaticMesh V3 V2
  set_tex_coords tex_coords m = record m { tex_coords = tex_coords }

  unfoldable pub set_triangles : List ℕ → StaticMesh V3 V2 → StaticMesh V3 V2
  set_triangles triangles m = record m { triangles = triangles }

  -- The loop over the normals, which reads the texture coordinate of the same index.
  unfoldable pub interleave : List V3 → List V2 → Outcome (List (Cell V3 V2))
  interleave [] ts = ok []
  interleave (n ∷ ns) [] = fault out_of_bounds
  interleave (n ∷ ns) (t ∷ ts) = do rest ← interleave ns ts; ok (attributes n t ∷ rest)

  unfoldable pub get_vertex_buffers : StaticMesh V3 V2 → List ℕ
  get_vertex_buffers m = m.positions_buffer ∷ m.other_attrib_buffer ∷ []

  module _ {W : Type 0} (g : Buffers V3 V2 W) where
    -- One buffer: created, mapped, written and unmapped.
    unfoldable pub fill_buffer : BufferType → ℕ → List (Cell V3 V2) → W → ℕ × W
    fill_buffer type size cells w =
        let (buffer, w1) = g.create_buffer type size w in
        (buffer, g.unmap_buffer buffer (g.write buffer cells (g.map_buffer buffer w1)))

    -- A `vec3` has 12 bytes, a `vec2` 8, an index 4.
    unfoldable pub apply : StaticMesh V3 V2 → W → Outcome (StaticMesh V3 V2 × W)
    unfolding fill_buffer
    apply m w = do
      let w1 = g.destroy_buffer m.positions_buffer w
      let w2 = g.destroy_buffer m.other_attrib_buffer w1
      let w3 = g.destroy_buffer m.index_buffer w2
      let (p, w4) = fill_buffer vertex (12 * length m.positions) (map position m.positions) w3
      cells ← interleave m.normals m.tex_coords
      let (a, w5) = fill_buffer vertex (12 * length m.normals + 8 * length m.tex_coords) cells w4
      let (i, w6) = fill_buffer index (4 * length m.triangles) (map index_cell m.triangles) w5
      ok (
        record {
          positions = [];
          normals = [];
          tex_coords = [];
          triangles = [];
          positions_buffer = p;
          other_attrib_buffer = a;
          index_buffer = i;
          index_count = length m.triangles % 2 ^ 32;
        },
        w6,
      )
