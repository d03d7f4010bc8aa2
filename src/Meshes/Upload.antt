-- ===== src/Meshes/Upload.antt =====
-- When the upload of a mesh goes well.
use rune_old.Base.{
  ℕ, ◌+◌, ◌*◌, map, ◌%◌, ◌^◌, ◌≤◌, ◌≡◌, refl, ap, List, [], ◌∷◌, arith, length, Outcome, ok, ◌>>=◌,
}
use rune_old.Meshes.{
  StaticMesh, Cell, position, attributes, index_cell, BufferType, vertex, index, Buffers,
  interleave, fill_buffer, apply,
}

bind-ok : {A B : Type 0} {m : Outcome A} {a : A} (f : A → Outcome B) → m ≡ ok a → (m >>= f) ≡ f a
bind-ok f h = ap (λ m. m >>= f) h

module _ {V3 V2 : Type 0} where
  -- Each normal with the texture coordinate of its index.
  abbrev pub zip : List V3 → List V2 → List (Cell V3 V2)
  zip [] ts = []
  zip (n ∷ ns) [] = []
  zip (n ∷ ns) (t ∷ ts) = attributes n t ∷ zip ns ts

  pub interleave-zip :
      (ns : List V3) (ts : List V2) → length ns ≤ length ts → interleave ns ts ≡ ok (zip ns ts)
  unfolding interleave
  interleave-zip [] ts h = refl
  interleave-zip (n ∷ ns) [] h = absurd (omega arith)
  interleave-zip (n ∷ ns) (t ∷ ts) h = rw (interleave-zip ns ts (omega arith))

  module _ {W : Type 0} (g : Buffers V3 V2 W) where
    -- A new buffer that holds cells, and the state behind it.
    abbrev pub holding : BufferType → ℕ → List (Cell V3 V2) → W → ℕ × W
    holding type size cells w =
        let made = g.create_buffer type size w in
        (made.0, g.unmap_buffer made.0 (g.write made.0 cells (g.map_buffer made.0 made.1)))

    abbrev pub destroy_all : List ℕ → W → W
    destroy_all [] w = w
    destroy_all (b ∷ bs) w = destroy_all bs (g.destroy_buffer b w)

    -- The upload returns, behind the destruction of the old buffers, with three new buffers of the mesh: one holds all the positions, one holds
    -- each normal with the texture coordinate of its index, and one holds the indices, which are
    -- counted. The mesh keeps none of them.
    pub record Uploads (old : List ℕ) (positions normals : List V3) (tex_coords : List V2)
        (triangles : List ℕ) (w : W) (out : Outcome (StaticMesh V3 V2 × W)) : Type 0 where
      pub mesh : StaticMesh V3 V2
      pub state : W
      pub returns : out ≡ ok (mesh, state)
      pub attributed : W
      pub indexed : W
      pub positions_sent :
          holding vertex (12 * length positions) (map position positions) (destroy_all old w)
          ≡ (mesh.positions_buffer, attributed)
      pub attributes_sent :
          holding vertex
            (12 * length normals + 8 * length tex_coords)
            (zip normals tex_coords)
            attributed
          ≡ (mesh.other_attrib_buffer, indexed)
      pub indices_sent :
          holding index (4 * length triangles) (map index_cell triangles) indexed
          ≡ (mesh.index_buffer, state)
      pub counted : mesh.index_count ≡ length triangles % 2 ^ 32
      pub kept_none :
          (mesh.positions ≡ [])
          × (mesh.normals ≡ [])
          × (mesh.tex_coords ≡ [])
          × (mesh.triangles ≡ [])

    -- `apply` uploads a mesh with a texture coordinate for each normal.
    pub apply-Uploads :
        (m : StaticMesh V3 V2) (w : W)
        → length m.normals ≤ length m.tex_coords
        → Uploads
            (m.positions_buffer ∷ m.other_attrib_buffer ∷ m.index_buffer ∷ [])
            m.positions
            m.normals
            m.tex_coords
            m.triangles
            w
            (apply g m w)
    unfolding apply fill_buffer
    apply-Uploads m w h = record {
      mesh = _;
      state = _;
      returns = bind-ok _ (interleave-zip m.normals m.tex_coords h);
      attributed = _;
      indexed = _;
      positions_sent = refl;
      attributes_sent = refl;
      indices_sent = refl;
      counted = refl;
      kept_none = (refl, refl, refl, refl);
    }

  -- The upload returns with a mesh that keeps none of its vertices, and counts the indices.
  pub apply-interleave :
      {W : Type 0} (g : Buffers V3 V2 W) (m : StaticMesh V3 V2) (w : W)
      → length m.normals ≤ length m.tex_coords
      → (m' : StaticMesh V3 V2) × (w' : W) × (apply g m w ≡ ok (m', w'))
        × (m'.index_count ≡ length m.triangles % 2 ^ 32)
        × (m'.positions ≡ [])
        × (m'.normals ≡ [])
        × (m'.tex_coords ≡ [])
        × (m'.triangles ≡ [])
  apply-interleave g m w h =
      let u = apply-Uploads g m w h in
      let (a, b, c, d) = u.kept_none in (u.mesh, u.state, u.returns, u.counted, a, b, c, d)
