-- ===== src/Renderer/Submit.antt =====
-- What is drawn is what was submitted.
use rune_old.Base.{
  ℕ, zero, suc, ◌+◌, ◌^◌, ◌≤◌, ◌<◌, ◌≡◌, refl, ap₂, ◌∙◌, some, List, [], ◌∷◌, ◌++◌, append_assoc,
  append-nil, arith, length, length-append, get_elem?, Outcome, ok, for_each,
}
use rune_old.Renderer.{
  DrawCall, RenderMesh, MaterialPtr, SystemRenderer, bind_descriptor_set, bind_index_buffer,
  bind_vertex_buffers, set_constants, draw_indexed, bind_pipeline, Gfx, last_index,
  render_static_mesh, draw, geometry_pass,
}

-- A call of `render_static_mesh` with a mesh and at least one material, whose pointer is not null.
pub record Object (M : Type 0) : Type 0 where
  pub mesh : RenderMesh
  pub material : ℕ
  pub others : List MaterialPtr
  pub transform : M

module _ {ℓ} {A : Type ℓ} where
  get_elem?-append :
      (xs ys : List A) (i : ℕ) {x : A} → get_elem? xs i ≡ some x → get_elem? (xs ++ ys) i ≡ some x
  get_elem?-append [] ys i h = cc
  get_elem?-append (y ∷ xs) ys zero h = h
  get_elem?-append (y ∷ xs) ys (suc i) h = get_elem?-append xs ys i h

  get_elem?-concat : (xs : List A) (x : A) → get_elem? (xs ++ x ∷ []) (length xs) ≡ some x
  get_elem?-concat [] x = refl
  get_elem?-concat (y ∷ xs) x = get_elem?-concat xs x

  last_index-concat :
      (xs : List A) (x : A)
      → length xs < 2 ^ 32
      → get_elem? (xs ++ x ∷ []) (last_index (length (xs ++ x ∷ []))) ≡ some x
  unfolding last_index
  last_index-concat xs x h =
      let e : last_index (length (xs ++ x ∷ [])) ≡ length xs =
        omega (arith, length-append xs (x ∷ [])) in
      rw e (get_elem?-concat xs x)

module _ {M : Type 0} where
  abbrev pub submit : Object M → SystemRenderer M → Outcome (SystemRenderer M)
  submit o = render_static_mesh (some o.mesh) (some o.material ∷ o.others) o.transform

  -- The draw call refers to what the object holds.
  abbrev pub Resolves : SystemRenderer M → DrawCall → Object M → Type 0
  Resolves s d o =
      (get_elem? s.materials d.material ≡ some (some o.material))
      × (get_elem? s.meshes d.mesh ≡ some o.mesh)
      × (get_elem? s.instances d.instance_index ≡ some o.transform)

  pub data Shows (s : SystemRenderer M) : List DrawCall → List (Object M) → Type 0 where
    nothing : Shows s [] []
    shown :
        {d : DrawCall} {ds : List DrawCall} {o : Object M} {os : List (Object M)}
        → Resolves s d o
        → Shows s ds os
        → Shows s (d ∷ ds) (o ∷ os)

  -- There is room for `n` more indices of 32 bits in each list.
  abbrev pub Room : ℕ → SystemRenderer M → Type 0
  Room n s =
      (length s.materials + n ≤ 2 ^ 32)
      × (length s.meshes + n ≤ 2 ^ 32)
      × (length s.instances + n ≤ 2 ^ 32)

  abbrev new_call : Object M → SystemRenderer M → DrawCall
  new_call o s = record {
    material = last_index (length (s.materials ++ some o.material ∷ []));
    mesh = last_index (length (s.meshes ++ o.mesh ∷ []));
    instance_index = last_index (length (s.instances ++ o.transform ∷ []));
  }

  -- The state behind `submit`.
  abbrev submitted : Object M → SystemRenderer M → SystemRenderer M
  submitted o s = record s {
    instances = s.instances ++ o.transform ∷ [];
    meshes = s.meshes ++ o.mesh ∷ [];
    materials = s.materials ++ some o.material ∷ [];
    draw_calls = s.draw_calls ++ new_call o s ∷ [];
  }

  submit_lem : (o : Object M) (s : SystemRenderer M) → submit o s ≡ ok (submitted o s)
  unfolding render_static_mesh
  submit_lem o s = refl

  Shows-submitted :
      (o : Object M) (s : SystemRenderer M) {ds : List DrawCall} {os : List (Object M)}
      → Room 1 s
      → Shows s ds os
      → Shows (submitted o s) (ds ++ new_call o s ∷ []) (os ++ o ∷ [])
  Shows-submitted o s room nothing =
      shown
        (
          last_index-concat s.materials (some o.material) (omega arith),
          last_index-concat s.meshes o.mesh (omega arith),
          last_index-concat s.instances o.transform (omega arith),
        )
        nothing
  Shows-submitted o s room (shown {d = d} r rest) =
      shown
        (
          get_elem?-append s.materials _ d.material r.0,
          get_elem?-append s.meshes _ d.mesh r.1,
          get_elem?-append s.instances _ d.instance_index r.2,
        )
        (Shows-submitted o s room rest)

  Room-submitted :
      (n : ℕ) (o : Object M) (s : SystemRenderer M) → Room (suc n) s → Room n (submitted o s)
  Room-submitted n o s (a, b, c) = (
    omega (arith, length-append s.materials (some o.material ∷ [])),
    omega (arith, length-append s.meshes (o.mesh ∷ [])),
    omega (arith, length-append s.instances (o.transform ∷ [])),
  )

  pub submit_all :
      (os before : List (Object M)) (s : SystemRenderer M)
      → Room (length os) s
      → Shows s s.draw_calls before
      → (s' : SystemRenderer M) × (for_each submit os s ≡ ok s')
        × Shows s' s'.draw_calls (before ++ os)
        × (s'.pipeline ≡ s.pipeline)
        × (s'.descriptor_set ≡ s.descriptor_set)
        × (s'.frames ≡ s.frames)
        × (s'.cameras_to_render ≡ s.cameras_to_render)
        × (s'.swapchain_map ≡ s.swapchain_map)
        × ((k : ℕ) → Room (length os + k) s → Room k s')
  submit_all [] before s room shows = (
    s,
    refl,
    rw append-nil shows,
    refl,
    refl,
    refl,
    refl,
    refl,
    λ k r. (omega arith, omega arith, omega arith),
  )
  submit_all (o ∷ os) before s room shows =
      let room1 : Room 1 s = (omega arith, omega arith, omega arith) in
      let (s', run, shows', p, d, f, c, m, roomy) =
        submit_all os (before ++ o ∷ []) (submitted o s) (Room-submitted (length os) o s room)
          (Shows-submitted o s room1 shows) in
      let more : (k : ℕ) → Room (suc (length os) + k) s → Room (suc (length os + k)) s =
        λ k r. (omega arith, omega arith, omega arith) in
      (
        s',
        rw (submit_lem o s) run,
        rw append_assoc at shows',
        p,
        d,
        f,
        c,
        m,
        λ k r. roomy k (Room-submitted (length os + k) o s (more k r)),
      )

module _ {M W : Type 0} (g : Gfx M W) (cmd : ℕ) where
  -- The calls that draw an object, and those that draw the objects of a list in turn.
  abbrev pub draw_object : Object M → W → W
  draw_object o w =
      let w1 = g.perform (bind_descriptor_set cmd 1 (g.texture_set o.material w)) w in
      let w2 = g.perform (bind_index_buffer cmd o.mesh.index_buffer) w1 in
      let w3 = g.perform (bind_vertex_buffers cmd o.mesh.vertex_buffers) w2 in
      let w4 = g.perform (set_constants cmd o.transform) w3 in
      g.perform (draw_indexed cmd o.mesh.index_count) w4

  abbrev pub draw_objects : List (Object M) → W → W
  draw_objects [] w = w
  draw_objects (o ∷ os) w = draw_objects os (draw_object o w)

  -- The bindings of a pipeline and of a descriptor set.
  abbrev pub bind_scene : ℕ → ℕ → W → W
  bind_scene p d w = g.perform (bind_descriptor_set cmd 0 d) (g.perform (bind_pipeline cmd p) w)

  for_each-draw :
      (s : SystemRenderer M) {ds : List DrawCall} {os : List (Object M)} (w : W)
      → Shows s ds os
      → for_each (draw g cmd s) ds w ≡ ok (draw_objects os w)
  unfolding draw
  for_each-draw s w nothing = refl
  for_each-draw s w (shown {o = o} r rest) =
      rw (r.0, r.1, r.2) (for_each-draw s (draw_object o w) rest)

  pub geometry_pass-Shows :
      (s : SystemRenderer M) {os : List (Object M)} (w : W)
      → Shows s s.draw_calls os
      → geometry_pass g cmd s w ≡ ok (draw_objects os (bind_scene s.pipeline s.descriptor_set w))
  unfolding geometry_pass
  geometry_pass-Shows s w shows = for_each-draw s (bind_scene s.pipeline s.descriptor_set w) shows

  -- From a renderer with no draw calls, and with room for the indices of all objects, submitting the
  -- objects returns, and the geometry pass then returns too: behind the bindings of the scene it
  -- makes, for every object in the order of submission, the calls that draw that object.
  pub geometry_pass-submit :
      (os : List (Object M)) (s : SystemRenderer M) (w : W)
      → s.draw_calls ≡ []
      → Room (length os) s
      → (s' : SystemRenderer M) × (for_each submit os s ≡ ok s')
        × (geometry_pass g cmd s' w
            ≡ ok (draw_objects os (bind_scene s.pipeline s.descriptor_set w)))
  geometry_pass-submit os s w empty room =
      let (s', run, shows, p, d, _, _, _, _) = submit_all os [] s room (rw empty nothing) in
      (
        s',
        run,
        geometry_pass-Shows s' w shows ∙ ap₂ (λ p d. ok (draw_objects os (bind_scene p d w))) p d,
      )
