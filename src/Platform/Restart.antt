-- ===== src/Platform/Restart.antt =====
-- Starting the platform again.
use rune_old.Base.{
  ◌≡◌, refl, true, false, ok, fault, assertion_failed, exception_thrown, if◌then◌else◌,
}
use rune_old.Platform.{Glfw, Platform, glfw_init, glfw_call, initialise, shutdown}

-- A platform that was shut down cannot be started again where assertions are checked; where they are
-- not, it is started again if GLFW can be, and throws otherwise.
pub initialise-shutdown :
    {F : Type 0} (g : Glfw F) (s : Platform)
    → (initialise g true (shutdown g s) ≡ fault assertion_failed)
      × (initialise g false (shutdown g s) ≡ (
          if g.init_succeeds (shutdown g s).calls
          then ok (glfw_call glfw_init (shutdown g s))
          else fault exception_thrown))
unfolding initialise shutdown
initialise-shutdown g s = (refl, refl)
