-- ===== src/Scripting.antt =====
-- Rune/src/scripting/system_scripting.cpp and script_glue.cpp: `SystemScripting` and the functions that
-- scripts call. Mono is a parameter over the rest of the program `W`, and so is the entity registry.
-- The functions that only print or log are left out.
pub mod ClassNames
pub mod Startup
pub mod Glue
mod Tests
use rune_old.Base.{
  ℕ, zero, suc, ◌+◌, ◌-◌, Bool, true, false, Option, none, some, is_some, List, [], ◌∷◌, ◌++◌, ◌==◌,
  if◌then◌else◌, length, take, drop, Bytes, codes, Outcome, ok, fault, ◌>>=◌, ◌>>◌, or_fault,
  rune_assert, null_access, exception_thrown, missing_key,
}
use rune_old.Binary.{read_binary}
use rune_old.Ini.{substr, expected, unexpected}
use rune_old.Maps.{find, assign, nat_eq}
use rune_old.Paths.{join}

-- `find_last_of` a byte; `none` is `npos`.
unfoldable pub find_last_of : ℕ → Bytes → Option ℕ
find_last_of c [] = none
find_last_of c (x ∷ xs) = elim (find_last_of c xs) [
  | some i ↦ some (suc i)
  | none ↦ if x == c then some 0 else none
]

-- The index behind; `npos + 1` is 0.
abbrev pub behind : Option ℕ → ℕ
behind none = 0
behind (some i) = suc i

-- The name of the namespace and of the class. Up to `npos` is the whole text.
unfoldable pub split_class : Bytes → Bytes × Bytes
split_class class_name =
    let last_dot = find_last_of b'.' class_name in
    let namespace_name : Bytes = elim last_dot [
      | none ↦ class_name
      | some i ↦ substr 0 i class_name
    ] in
    let from = behind last_dot in
    (namespace_name, substr from (length class_name - from) class_name)

-- A null pointer that Mono returns is `none`, and so is an image with a status that is not ok.
pub record Mono (W : Type 0) : Type 0 where
  pub set_assemblies_path : Bytes → W → W
  pub jit_init : Bytes → W → Option ℕ × W
  pub set_main_thread : W → W
  pub create_appdomain : W → Option ℕ × W
  pub set_domain : Option ℕ → W → W
  pub root_domain : W → Option ℕ
  pub unload_domain : Option ℕ → W → W
  pub jit_cleanup : Option ℕ → W → W
  pub open_image : Bytes → W → Option ℕ × W
  pub load_assembly : ℕ → Bytes → W → Option ℕ × W
  pub close_image : ℕ → W → W
  pub image_of : ℕ → ℕ
  pub class_from_name : Option ℕ → Bytes → Bytes → Option ℕ
  pub method_from_name : ℕ → Bytes → Option ℕ
  pub invoke : ℕ → W → W
  pub add_internal_call : Bytes → W → W
  pub type_from_name : Bytes → ℕ → Option ℕ

pub record Scripting : Type 0 where
  pub mono_root_domain : Option ℕ
  pub mono_app_domain : Option ℕ
  pub core_assembly : Option ℕ
  pub core_assembly_image : Option ℕ
  pub app_assembly : Option ℕ
  pub app_assembly_image : Option ℕ
  pub core_assembly_filename : Bytes
  pub app_assembly_filename : Bytes

-- The components, in the order of `AllComponents`.
pub data Component : Type 0 where
  transform static_renderer camera script_behaviour : Component

abbrev pub all_components : List Component
all_components = transform ∷ static_renderer ∷ camera ∷ script_behaviour ∷ []

-- `s_entityHasComponentFuncs`: the component that a managed type stands for.
abbrev pub ComponentTypes : Type 0
ComponentTypes = List (ℕ × Component)

module _ {W : Type 0} (mono : Mono W) where
  -- The data of a file that cannot be read is that of an `std::expected` without a value.
  unfoldable pub load_image : Bytes → Bytes → W → Option ℕ × W
  load_image filename bytes w =
      let (image, w1) = mono.open_image bytes w in
      elim image [
        | none ↦ (none, w1)
        | some i ↦
            let (assembly, w2) = mono.load_assembly i filename w1 in
            (assembly, mono.close_image i w2)
      ]

  unfoldable pub load_mono_assembly : (Bytes → Option Bytes) → Bytes → W → Outcome (Option ℕ × W)
  load_mono_assembly files filename w = do
    result ← read_binary 1 files filename
    elim result [
      | unexpected e ↦ fault null_access
      | expected bytes ↦ ok (load_image filename bytes w)
    ]

  unfoldable pub init_mono : Bool → Scripting → W → Outcome (Scripting × W)
  init_mono debug s w = do
    let (root, w1) =
        mono.jit_init (codes "RuneJitRuntime") (mono.set_assemblies_path (codes "lib") w)
    rune_assert debug (is_some root)
    ok (record s { mono_root_domain = root }, mono.set_main_thread w1)

  unfoldable pub shutdown_mono : Scripting → W → Scripting × W
  shutdown_mono s w =
      let w1 = mono.set_domain (mono.root_domain w) w in
      let w2 = mono.unload_domain s.mono_app_domain w1 in
      let w3 = mono.jit_cleanup s.mono_root_domain w2 in
      (record s { mono_app_domain = none; mono_root_domain = none }, w3)

  module _ (files : Bytes → Option Bytes) where
    unfoldable pub load_core_assembly : Bytes → Scripting → W → Outcome (Bool × Scripting × W)
    load_core_assembly filename s w = do
      let (domain, w1) = mono.create_appdomain w
      loaded ← load_mono_assembly files filename (mono.set_domain domain w1)
      let s' = record s {
        mono_app_domain = domain;
        core_assembly_filename = filename;
        core_assembly = loaded.0;
      }
      ok (elim (loaded.0) [
        | none ↦ (false, s', loaded.1)
        | some a ↦ (true, record s' { core_assembly_image = some (mono.image_of a) }, loaded.1)
      ])

    unfoldable pub load_app_assembly : Bytes → Scripting → W → Outcome (Bool × Scripting × W)
    load_app_assembly filename s w = do
      loaded ← load_mono_assembly files filename w
      let s' = record s { app_assembly_filename = filename; app_assembly = loaded.0 }
      ok (elim (loaded.0) [
        | none ↦ (false, s', loaded.1)
        | some a ↦ (true, record s' { app_assembly_image = some (mono.image_of a) }, loaded.1)
      ])

  -- `RegisterComponent`: `type_name` is the name of the class in the program.
  unfoldable pub register_component :
      (Component → Bytes) → ℕ → Component → ComponentTypes → ComponentTypes
  register_component type_name image c types =
      let name = type_name c in
      let struct_name = drop (behind (find_last_of b':' name)) name in
      elim (mono.type_from_name (codes "Rune." ++ struct_name) image) [
        | none ↦ types
        | some managed_type ↦ assign managed_type c types
      ]

  unfoldable pub register_all :
      (Component → Bytes) → ℕ → List Component → ComponentTypes → ComponentTypes
  register_all type_name image [] types = types
  register_all type_name image (c ∷ cs) types =
      register_all type_name image cs (register_component type_name image c types)

  abbrev pub register_components : (Component → Bytes) → ℕ → ComponentTypes
  register_components type_name image = register_all type_name image all_components []

  -- The functions that scripts call, by their names.
  abbrev pub internal_calls : List Bytes
  internal_calls =
      codes "Time_GetDelta"
      ∷ codes "Time_GetSinceStartup"
      ∷ codes "Entity_Create"
      ∷ codes "Entity_Destroy"
      ∷ codes "Entity_HasComponent"
      ∷ codes "Transform_GetPosition"
      ∷ codes "Transform_SetPosition"
      ∷ []

  abbrev pub add_internal_calls : List Bytes → W → W
  add_internal_calls [] w = w
  add_internal_calls (f ∷ fs) w =
      add_internal_calls fs (mono.add_internal_call (codes "Rune.InternalCalls::" ++ f) w)

  abbrev pub register_functions : W → W
  register_functions = add_internal_calls internal_calls

  unfoldable pub initialise :
      Bool
      → (Bytes → Option Bytes)
      → Bytes
      → (Component → Bytes)
      → Scripting
      → W
      → Outcome (Scripting × ComponentTypes × W)
  initialise debug files current_path type_name s w = do
    started ← init_mono debug s w
    core ←
        load_core_assembly files (codes "../../data/Rune-ScriptCore.dll") started.0
          (register_functions started.1)
    if core.0
        then (do
          app ←
              load_app_assembly files
                (join current_path (codes "../../data/Sandbox-ScriptAssembly.dll")) core.1 core.2
          if app.0
              then (do
                image ← or_fault (app.1).core_assembly_image null_access
                ok (app.1, register_components type_name image, app.2))
              else fault exception_thrown)
        else fault exception_thrown

  -- Mono is not given a class or a method that is null.
  unfoldable pub invoke_method : Bytes → Bytes → Scripting → W → Outcome W
  invoke_method class_name method_name s w = do
    let names = split_class class_name
    mono_class ← or_fault (mono.class_from_name s.app_assembly_image names.0 names.1) null_access
    mono_method ← or_fault (mono.method_from_name mono_class method_name) null_access
    ok (mono.invoke mono_method w)
