-- ===== src/World/Tests.antt =====
-- A frame with a script, a camera, and two renderers, one of whose meshes is loaded; an event waits, and
-- GLFW reports a resize.
use rune_old.Maps.{nat_eq}
use rune_old.Renderer.Submit.{nothing}
use rune_old.Scenes.Samples
use rune_old.Scenes.Samples.{maths, casts, gfx, empty_renderer, at_origin}
use rune_old.World.{World}
use rune_old.Scenes.Drawn.{nothing}
