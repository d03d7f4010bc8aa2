-- ===== src/Scripting/Startup.antt =====
-- How the scripting system starts, by the files it finds, and how it ends.
use rune_old.Base.{
  rune_assert-true, ℕ, ◌%◌, ◌==◌, arith, length, Bool, true, ◌≡◌, refl, ap, Option, some, is_some,
  Bytes, codes, ok,
}
use rune_old.Binary.Whole.{read_binary-whole}
use rune_old.Paths.{join}
use rune_old.Scripting.{
  register_functions, Mono, Scripting, Component, ComponentTypes, load_image, load_mono_assembly,
  init_mono, load_core_assembly, load_app_assembly, initialise, register_components,
}

abbrev pub core_file : Bytes
core_file = codes "../../data/Rune-ScriptCore.dll"

abbrev pub app_file : Bytes → Bytes
app_file current_path = join current_path (codes "../../data/Sandbox-ScriptAssembly.dll")

module _ {W : Type 0} (mono : Mono W) (files : Bytes → Option Bytes) where
  -- A file with an assembly: it is read, and in any state Mono opens the image and loads it.
  pub record Loads (filename : Bytes) : Type 0 where
    pub bytes : Bytes
    pub is_read : files filename ≡ some bytes
    pub image : W → ℕ × W
    pub opens : (w : W) → mono.open_image bytes w ≡ (some (image w).0, (image w).1)
    pub assembly : ℕ → W → ℕ × W
    pub loads :
        (i : ℕ) (w : W)
        → mono.load_assembly i filename w ≡ (some (assembly i w).0, (assembly i w).1)

  load_mono_assembly-Loads :
      (filename : Bytes) (w : W) (l : Loads filename)
      → load_mono_assembly mono files filename w
        ≡ ok (
          some (l.assembly (l.image w).0 (l.image w).1).0,
          mono.close_image (l.image w).0 (l.assembly (l.image w).0 (l.image w).1).1,
        )
  unfolding load_mono_assembly load_image
  load_mono_assembly-Loads filename w l =
      let next : W = (l.image w).1 in
      let opened : (mono.open_image l.bytes w).1 ≡ next =
        ap (λ (p : Option ℕ × W). p.1) (l.opens w) in
      let whole : (length l.bytes % 1 == 0) ≡ true = ground arith in
      rw
        (
          load_mono_assembly,
          read_binary-whole 1 files filename l.bytes l.is_read,
          whole,
          load_image,
          l.opens w,
          opened,
          l.loads (l.image w).0 next,
        )
        refl

-- The scripting system starts if both of its assemblies' files are there and Mono opens and loads
-- them, whether assertions are checked or not: it has then a root domain, the file and the image of
-- the core assembly, the image of the app's assembly, and the types of the components, which are
-- registered from the image of the core assembly.
pub initialise-Loads :
    {W : Type 0} (mono : Mono W) (debug : Bool) (files : Bytes → Option Bytes)
    (current_path : Bytes) (type_name : Component → Bytes) (s : Scripting) (w : W)
    (root : W → ℕ × W)
    → ((v : W) → mono.jit_init (codes "RuneJitRuntime") v ≡ (some (root v).0, (root v).1))
    → Loads mono files core_file
    → Loads mono files (app_file current_path)
    → (s' : Scripting) × (types : ComponentTypes) × (w' : W) × (image : ℕ) × (initialise mono debug
          files current_path type_name s w
        ≡ ok (s', types, w'))
      × (is_some s'.mono_root_domain ≡ true)
      × (s'.core_assembly_filename ≡ core_file)
      × (s'.core_assembly_image ≡ some image)
      × (is_some s'.app_assembly_image ≡ true)
      × (types ≡ register_components mono type_name image)
unfolding initialise init_mono load_core_assembly load_app_assembly
initialise-Loads mono debug files current_path type_name s w root starts core app =
    let begun = root (mono.set_assemblies_path (codes "lib") w) in
    let w1 = register_functions mono (mono.set_main_thread begun.1) in
    let domain = mono.create_appdomain w1 in
    let w2 = mono.set_domain domain.0 domain.1 in
    let i = core.image w2 in
    let a = core.assembly i.0 i.1 in
    let w3 = mono.close_image i.0 a.1 in
    let j = app.image w3 in
    let b = app.assembly j.0 j.1 in
    let image = mono.image_of a.0 in
    let s' : Scripting = record {
      mono_root_domain = some begun.0;
      mono_app_domain = domain.0;
      core_assembly = some a.0;
      core_assembly_image = some image;
      app_assembly = some b.0;
      app_assembly_image = some (mono.image_of b.0);
      core_assembly_filename = core_file;
      app_assembly_filename = app_file current_path;
    } in
    (
      s',
      register_components mono type_name image,
      mono.close_image j.0 b.1,
      image,
      rw
          (
            starts (mono.set_assemblies_path (codes "lib") w),
            rune_assert-true debug,
            load_mono_assembly-Loads mono files core_file w2 core,
            load_mono_assembly-Loads mono files (app_file current_path) w3 app,
          )
          refl,
      refl,
      refl,
      refl,
      refl,
      refl,
    )
