-- ===== src/Scenes/FrameTests.antt =====
-- A frame with two renderers: the mesh of the first is loaded, that of the second is not.
use rune_old.Base.{ℕ, ◌≡◌, refl, [], arith, ok}
use rune_old.Maps.{nat_eq}
use rune_old.Renderer.{SystemRenderer, geometry_pass}
use rune_old.Renderer.Submit.{draw_objects, bind_scene}
use rune_old.Scenes.Drawn.{geometry_pass-submit_renderers}
use rune_old.Scenes.Update.{submit_renderers}
use rune_old.Scenes.Samples.{maths, casts, resources, views, objects, pictures, empty_renderer, gfx}

geometry_pass-submit_renderers_example :
    (s' : SystemRenderer ℕ) × (submit_renderers maths casts resources views empty_renderer ≡ ok s')
    × (geometry_pass gfx 8 s' [] ≡ ok (draw_objects gfx 8 objects (bind_scene gfx 8 3 4 [])))
geometry_pass-submit_renderers_example =
    geometry_pass-submit_renderers maths casts resources gfx 8 empty_renderer [] pictures refl
      (omega arith, omega arith, omega arith)
