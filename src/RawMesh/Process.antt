-- ===== src/RawMesh/Process.antt =====
-- What `assimp_process_mesh` makes of a mesh of triangles.
use rune_old.Base.{
  ℕ, zero, suc, ◌+◌, ◌*◌, ◌%◌, ◌^◌, ◌<◌, ◌≡◌, refl, sym, ap, ◌∙◌, Option, none, some, List, [], ◌∷◌,
  ◌++◌, append-nil, append_assoc, arith, lt→ltb, length, length-append, length-replicate, get_elem?,
  set, replicate, ok,
}
use native.Mathlib.Nat.{mod-eq_of_lt}
use rune_old.MeshFile.{Vec3, Vec2, StaticMesh}
use rune_old.RawMesh.{
  AiMesh, zero3, zero2, write_at, element_of, copy_vertices, copy_face, copy_faces, resized,
  assimp_process_mesh, no_mesh,
}

module _ {A : Type 0} where
  set-append :
      (d : List A) (r : A) (rs : List A) (v : A) (i : ℕ)
      → length d ≡ i
      → set (d ++ r ∷ rs) i v ≡ (d ++ v ∷ []) ++ rs
  set-append [] r rs v zero h = refl
  set-append [] r rs v (suc i) h = absurd (omega arith)
  set-append (x ∷ d) r rs v zero h = absurd (omega arith)
  set-append (x ∷ d) r rs v (suc i) h = ap (◌∷◌ x) (set-append d r rs v i (omega arith))

  -- Behind `d`, the next element is overwritten.
  write_at-append :
      (d : List A) (r : A) (rs : List A) (v : A) (i : ℕ)
      → length d ≡ i
      → write_at (d ++ r ∷ rs) i v ≡ ok ((d ++ v ∷ []) ++ rs)
  write_at-append d r rs v i h =
      let inside : i < length (d ++ r ∷ rs) = omega (arith, length-append d (r ∷ rs)) in
      rw (lt→ltb i (length (d ++ r ∷ rs)) inside, set-append d r rs v i h)

  length-concat : (d : List A) (v : A) (i : ℕ) → length d ≡ i → length (d ++ v ∷ []) ≡ suc i
  length-concat d v i h = omega (arith, length-append d (v ∷ []))

  -- From index `i` the array holds `xs`, as far as `element_of` is asked.
  abbrev pub Reads : Option (List A) → A → ℕ → List A → Type 0
  Reads o z i [] = Unit
  Reads o z i (x ∷ xs) = (element_of o z i ≡ ok x) × Reads o z (suc i) xs

  -- The elements that a loop of `n` rounds copies.
  abbrev pub elements : ℕ → Option (List A) → A → List A
  elements n none z = replicate n z
  elements n (some xs) z = xs

  Reads-none : (n i : ℕ) (z : A) → Reads none z i (replicate n z)
  unfolding element_of
  Reads-none zero i z = tt
  Reads-none (suc n) i z = (refl, Reads-none n (suc i) z)

  get_elem?-length :
      (d : List A) (x : A) (xs : List A) → get_elem? (d ++ x ∷ xs) (length d) ≡ some x
  get_elem?-length [] x xs = refl
  get_elem?-length (y ∷ d) x xs = get_elem?-length d x xs

  Reads-some : (d xs : List A) (z : A) → Reads (some (d ++ xs)) z (length d) xs
  unfolding element_of
  Reads-some d [] z = tt
  Reads-some d (x ∷ xs) z =
      let split : (d ++ x ∷ []) ++ xs ≡ d ++ x ∷ xs = append_assoc d (x ∷ []) xs in
      (
        rw (get_elem?-length d x xs),
        rw (split, length-concat d x (length d) refl) at (Reads-some (d ++ x ∷ []) xs z),
      )

  Reads-elements : (n : ℕ) (o : Option (List A)) (z : A) → Reads o z 0 (elements n o z)
  Reads-elements n none z = Reads-none n 0 z
  Reads-elements n (some xs) z = Reads-some [] xs z

-- The arrays that the loop over the vertices fills.
abbrev with_arrays : StaticMesh → List Vec3 → List Vec3 → List Vec2 → StaticMesh
with_arrays m p n t = record m { positions = p; normals = n; tex_coords = t }

copy_vertices-lem :
    (mesh : AiMesh) (m : StaticMesh) (i : ℕ) (vs dp rp : List Vec3) (ns dn rn : List Vec3)
    (ts dt rt : List Vec2)
    → (length dp ≡ i) × (length dn ≡ i) × (length dt ≡ i)
    → (length rp ≡ length vs) × (length rn ≡ length vs) × (length rt ≡ length vs)
    → (length ns ≡ length vs) × (length ts ≡ length vs)
    → Reads mesh.normals zero3 i ns
    → Reads mesh.tex_coords zero2 i ts
    → copy_vertices mesh vs i (with_arrays m (dp ++ rp) (dn ++ rn) (dt ++ rt))
      ≡ ok (with_arrays m (dp ++ vs) (dn ++ ns) (dt ++ ts))
unfolding copy_vertices
copy_vertices-lem mesh m i [] dp [] [] dn [] [] dt [] d r s n t = refl
copy_vertices-lem mesh m i (v ∷ vs) dp (rp ∷ rps) (n ∷ ns) dn (rn ∷ rns) (t ∷ ts) dt (rt ∷ rts)
      (d0, d1, d2) (r0, r1, r2) (s0, s1) (n0, n1) (t0, t1) =
    rw
      (
        write_at-append dp rp rps v i d0,
        n0,
        write_at-append dn rn rns n i d1,
        t0,
        write_at-append dt rt rts t i d2,
      )
      (copy_vertices-lem mesh m (suc i) vs (dp ++ v ∷ []) rps ns (dn ++ n ∷ []) rns ts
          (dt ++ t ∷ []) rts
          (length-concat dp v i d0, length-concat dn n i d1, length-concat dt t i d2)
          (omega arith, omega arith, omega arith) (omega arith, omega arith) n1 t1
        ∙ rw
            (append_assoc dp (v ∷ []) vs, append_assoc dn (n ∷ []) ns, append_assoc dt (t ∷ []) ts))
copy_vertices-lem mesh m i [] dp (x ∷ rp) ns dn rn ts dt rt d r s n t = absurd (omega arith)
copy_vertices-lem mesh m i [] dp [] (x ∷ ns) dn rn ts dt rt d r s n t = absurd (omega arith)
copy_vertices-lem mesh m i [] dp [] [] dn (x ∷ rn) ts dt rt d r s n t = absurd (omega arith)
copy_vertices-lem mesh m i [] dp [] [] dn [] (x ∷ ts) dt rt d r s n t = absurd (omega arith)
copy_vertices-lem mesh m i [] dp [] [] dn [] [] dt (x ∷ rt) d r s n t = absurd (omega arith)
copy_vertices-lem mesh m i (v ∷ vs) dp [] ns dn rn ts dt rt d r s n t = absurd (omega arith)
copy_vertices-lem mesh m i (v ∷ vs) dp (x ∷ rp) [] dn rn ts dt rt d r s n t = absurd (omega arith)
copy_vertices-lem mesh m i (v ∷ vs) dp (x ∷ rp) (y ∷ ns) dn [] ts dt rt d r s n t =
    absurd (omega arith)
copy_vertices-lem mesh m i (v ∷ vs) dp (x ∷ rp) (y ∷ ns) dn (z ∷ rn) [] dt rt d r s n t =
    absurd (omega arith)
copy_vertices-lem mesh m i (v ∷ vs) dp (x ∷ rp) (y ∷ ns) dn (z ∷ rn) (w ∷ ts) dt [] d r s n t =
    absurd (omega arith)

-- Every face has three indices.
abbrev pub Triangulated : List (List ℕ) → Type 0
Triangulated [] = Unit
Triangulated (f ∷ fs) = (length f ≡ 3) × Triangulated fs

abbrev pub flatten : List (List ℕ) → List ℕ
flatten [] = []
flatten (f ∷ fs) = f ++ flatten fs

copy_face-lem :
    (f d r rest : List ℕ) (i : ℕ)
    → length d ≡ i
    → length r ≡ length f
    → i + length f < 2 ^ 32
    → copy_face f i (d ++ (r ++ rest)) ≡ ok ((d ++ f) ++ rest)
unfolding copy_face
copy_face-lem [] d [] rest i h k small = rw append-nil
copy_face-lem [] d (x ∷ r) rest i h k small = absurd (omega arith)
copy_face-lem (v ∷ f) d [] rest i h k small = absurd (omega arith)
copy_face-lem (v ∷ f) d (x ∷ r) rest i h k small =
    let next : suc i % 2 ^ 32 ≡ suc i = mod-eq_of_lt (omega arith) in
    rw (write_at-append d x (r ++ rest) v i h, next)
      (copy_face-lem f (d ++ v ∷ []) r rest (suc i) (length-concat d v i h) (omega arith)
          (omega arith)
        ∙ ap (λ (xs : List ℕ). ok (xs ++ rest)) (append_assoc d (v ∷ []) f))

copy_faces-lem :
    (fs : List (List ℕ)) (d : List ℕ) (i : ℕ)
    → length d ≡ i * 3
    → i * 3 + length fs * 3 < 2 ^ 32
    → Triangulated fs
    → copy_faces fs i (d ++ replicate {A = ℕ} (length fs * 3) 0) ≡ ok (d ++ flatten fs)
unfolding copy_faces
copy_faces-lem [] d i h small t = refl
copy_faces-lem (f ∷ fs) d i h small (three, rest) =
    let three_more : suc (length fs) * 3 ≡ suc (suc (suc (length fs * 3))) = omega arith in
    let room : replicate {A = ℕ} (suc (length fs) * 3) 0
        ≡ replicate {A = ℕ} 3 0 ++ replicate {A = ℕ} (length fs * 3) 0 =
      ap (λ (n : ℕ). replicate {A = ℕ} n 0) three_more in
    let at : (i * 3) % 2 ^ 32 ≡ i * 3 = mod-eq_of_lt (omega arith) in
    rw
      (
        room,
        at,
        copy_face-lem f d (replicate {A = ℕ} 3 0) (replicate {A = ℕ} (length fs * 3) 0) (i * 3) h
            (sym three) (omega arith),
      )
      (copy_faces-lem fs (d ++ f) (suc i) (omega (arith, length-append d f)) (omega arith) rest
        ∙ ap ok (append_assoc d f (flatten fs)))

-- The arrays of a mesh have as many elements as it has vertices, where they are there, and its faces
-- are triangles, whose indices can be counted in 32 bits.
pub record IsTriangleMesh (mesh : AiMesh) : Type 0 where
  pub same_normals :
      length (elements (length mesh.vertices) mesh.normals zero3) ≡ length mesh.vertices
  pub same_tex_coords :
      length (elements (length mesh.vertices) mesh.tex_coords zero2) ≡ length mesh.vertices
  pub indices_fit : length mesh.faces * 3 < 2 ^ 32
  pub triangulated : Triangulated mesh.faces

-- What the import makes of a mesh: its vertices, its normals and texture coordinates, which are zero
-- where it has none, the indices of its faces, and one submesh of all of them.
abbrev pub imported : AiMesh → StaticMesh
imported mesh =
    let n = length mesh.vertices in
    record {
      positions = mesh.vertices;
      normals = elements n mesh.normals zero3;
      tex_coords = elements n mesh.tex_coords zero2;
      triangles = flatten mesh.faces;
      submeshes = record { index_offset = 0; index_count = length mesh.faces * 3 } ∷ [];
    }

pub assimp_process_mesh-imported :
    (mesh : AiMesh) → IsTriangleMesh mesh → assimp_process_mesh mesh no_mesh ≡ ok (imported mesh)
unfolding assimp_process_mesh
assimp_process_mesh-imported mesh fits =
    let n = length mesh.vertices in
    let count : (length mesh.faces * 3) % 2 ^ 32 ≡ length mesh.faces * 3 =
      mod-eq_of_lt fits.indices_fit in
    rw (
      copy_vertices-lem mesh (resized mesh no_mesh) 0 mesh.vertices [] (replicate n zero3)
          (elements n mesh.normals zero3) [] (replicate n zero3) (elements n mesh.tex_coords zero2)
          [] (replicate n zero2) (refl, refl, refl)
          (length-replicate n zero3, length-replicate n zero3, length-replicate n zero2)
          (fits.same_normals, fits.same_tex_coords) (Reads-elements n mesh.normals zero3)
          (Reads-elements n mesh.tex_coords zero2),
      count,
      copy_faces-lem mesh.faces [] 0 refl (omega (arith, fits.indices_fit)) fits.triangulated,
    )
