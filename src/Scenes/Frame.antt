-- ===== src/Scenes/Frame.antt =====
-- Rune/src/scenes/system_scene.cpp: `SystemScene::update`, a frame of the scene. The library of
-- vectors and matrices is a parameter, and so are the views of the entity registry, in the order in
-- which they are walked, and the cast of a resource to its class.
use rune_old.Base.{ℕ, Bool, if◌then◌else◌, Bytes, codes}
use rune_old.Platform.{Glfw, Platform, is_key_down, is_mouse_button_down, get_cursor_position}
use rune_old.Platform.Keys.{key_w, key_s, key_d, key_a, button_two}

-- Vectors, rotations and matrices over floats `F` and integers `I`. A literal is its text.
pub record Glm (F I V2 V3 Q M : Type 0) : Type 0 where
  pub literal : Bytes → F
  pub of_nat : ℕ → F
  pub truncate : F → I
  pub difference : I × I → I × I → V2
  pub vec2 : F → F → V2
  pub x2 : V2 → F
  pub y2 : V2 → F
  pub add2 : V2 → V2 → V2
  pub vec3 : F → F → F → V3
  pub add3 : V3 → V3 → V3
  pub scale3 : V3 → F → V3
  pub is_long : V3 → Bool
  pub normalize : V3 → V3
  pub rotate : Q → V3 → V3
  pub clamp : F → F → F → F
  pub radians : F → F
  pub quat : V3 → Q
  pub divide : F → F → F
  pub identity : M
  pub multiply : M → M → M
  pub translate : M → V3 → M
  pub scale : M → V3 → M
  pub mat4_cast : Q → M
  pub inverse : M → M
  pub perspective : F → F → F → F → M

pub record Transform (V3 Q : Type 0) : Type 0 where
  pub position : V3
  pub rotation : Q
  pub scale : V3

-- `m_lastCursorPos` and `m_yawPitch`.
pub record CameraControl (I V2 : Type 0) : Type 0 where
  pub last_cursor_pos : I × I
  pub yaw_pitch : V2

-- A camera, whose window is 0 where it is null, with the transform of its entity.
pub record CameraEntity (V3 Q : Type 0) : Type 0 where
  pub target_window : ℕ
  pub transform : Transform V3 Q

module _ {F I V2 V3 Q M : Type 0} (m : Glm F I V2 V3 Q M) where
  abbrev pub get_forward : Transform V3 Q → V3
  get_forward t =
      m.rotate t.rotation
        (m.vec3 (m.literal (codes "0")) (m.literal (codes "0")) (m.literal (codes "1")))

  abbrev pub get_right : Transform V3 Q → V3
  get_right t =
      m.rotate t.rotation
        (m.vec3 (m.literal (codes "1")) (m.literal (codes "0")) (m.literal (codes "0")))

  -- One of the four keys.
  abbrev pub move_by : Bool → V3 → Bytes → V3 → V3
  move_by pressed direction factor movement =
      if pressed then m.add3 movement (m.scale3 direction (m.literal factor)) else movement

  unfoldable pub movement_of : Glfw F → ℕ → Platform → Transform V3 Q → V3
  movement_of g window platform t =
      let z = m.literal (codes "0.0f") in
      let v0 = m.vec3 z z z in
      let v1 = move_by (is_key_down g window key_w platform) (get_forward t) (codes "1.0f") v0 in
      let v2 = move_by (is_key_down g window key_s platform) (get_forward t) (codes "-1.0f") v1 in
      let v3 = move_by (is_key_down g window key_d platform) (get_right t) (codes "1.0f") v2 in
      move_by (is_key_down g window key_a platform) (get_right t) (codes "-1.0f") v3

  -- With the right button down, the keys move the camera and the cursor turns it.
  unfoldable pub move_camera :
      Glfw F
      → F
      → Platform
      → CameraEntity V3 Q
      → CameraControl I V2
      → CameraEntity V3 Q × CameraControl I V2
  move_camera g delta_time platform c control =
      let cursor = get_cursor_position g m.truncate c.target_window platform in
      let delta = m.difference cursor control.last_cursor_pos in
      if is_mouse_button_down g c.target_window button_two platform
      then (let movement = movement_of g c.target_window platform c.transform in
          let step =
            m.scale3 (m.scale3 (m.normalize movement) (m.literal (codes "8.0f"))) delta_time in
          let position =
            if m.is_long movement then m.add3 c.transform.position step else c.transform.position in
          let turned = m.add2 control.yaw_pitch (m.vec2 (m.y2 delta) (m.x2 delta)) in
          let yaw_pitch =
            m.vec2 (m.clamp (m.x2 turned) (m.literal (codes "-89.0f")) (m.literal (codes "89.0f")))
              (m.y2 turned) in
          let rotation = m.quat (
            m.vec3 (m.radians (m.x2 yaw_pitch)) (m.radians (m.y2 yaw_pitch))
              (m.literal (codes "0.0f"))) in
          (
            record c {
              transform = record (c.transform) { position = position; rotation = rotation };
            },
            record { last_cursor_pos = cursor; yaw_pitch = yaw_pitch },
          ))
      else (c, record control { last_cursor_pos = cursor })

  unfoldable pub view_matrix : Transform V3 Q → M
  view_matrix t =
      m.inverse (m.multiply (m.translate m.identity t.position) (m.mat4_cast t.rotation))

  unfoldable pub projection : ℕ × ℕ → M
  projection size =
      m.perspective (m.radians (m.literal (codes "70.0f")))
        (m.divide (m.of_nat size.0) (m.of_nat size.1)) (m.literal (codes "0.1f"))
        (m.literal (codes "100.0f"))

  unfoldable pub world_matrix : Transform V3 Q → M
  world_matrix t =
      m.scale (m.multiply (m.translate m.identity t.position) (m.mat4_cast t.rotation)) t.scale
