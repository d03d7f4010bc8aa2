-- ===== src/Lib.antt =====
-- Rune, a small game engine in C++: a verification library of its core.
--
-- An `Engine` owns seven systems (logging, events, platform, renderer, scripting, resources, scene),
-- starts them in the order of their priorities, runs them once a frame, and shuts them down. The
-- event system hands what was posted to registered receivers; the resource system keeps a table of
-- metadata, filled from a registry file, and loads a resource behind its dependencies through a
-- factory for its type. The configuration is read from an INI file. The scene walks its entities once
-- a frame and submits what it finds to the renderer, which draws it in `flush`; the platform posts
-- the resizes of windows to the events. An asset tool turns raw meshes into the files that the
-- factories read.
--
-- Files, and what they model:
--   Base, Base/*        shared types, tests on numbers, lists, byte strings, outcomes, members
--   Strings             Rune/src/utility/strings.cpp: left_trim, right_trim, trim
--   Maps                std::unordered_map, as association lists; the order in which a map is
--                       walked is a parameter wherever the code walks one
--   Numbers             std::format, std::to_string and std::stoi, on integers
--   Ini                 Rune/src/utility/ini_reader.cpp (INIReader) and io/io.cpp (read_string);
--                       Ini/Render is the grammar of the files, Ini/Lines, Ini/RoundTrip and
--                       Ini/Errors carry the proofs
--   Config              Rune/src/core/config.cpp: load_config, get_string, get_int, get_bool,
--                       get_float
--   Events              Rune/src/events/system_events.cpp and its header: SystemEvents
--   Paths               what the sources use of std::filesystem::path
--   Resources           Rune/src/resources/system_manager.cpp and its headers: SystemResources in
--                       Resources, metadata in Resources/Types, ResourceHandle in
--                       Resources/Handles; Resources/Growth, Resources/Invariant and
--                       Resources/Load carry the proofs about load, Resources/Start those about
--                       the start, Resources/Typed those about the classes of resources
--   Engine              Rune/src/core/engine.cpp and its header: Engine; Engine/Priority and
--                       Engine/Startup carry the proofs about the order of the systems, Engine/Loop
--                       and Engine/Run those about the frame loop and a whole run, Engine/Table those
--                       about priorities that are set again
--   Renderer            Rune/src/rendering/system_renderer.cpp and its header: SystemRenderer;
--                       Renderer/Startup is its start, Renderer/Submit is about a frame's draw
--                       calls, Renderer/Flush about flush, Renderer/FirstFrame about the first frame
--   MeshFile            AssetLib/src/mesh/static_mesh.cpp: the binary mesh files
--   RawMesh             AssetLib/src/mesh/static_mesh.cpp: the import of raw meshes; RawMesh/Process
--                       is about one mesh, RawMesh/Import about a scene
--   AssetTool           AssetLib/src/main.cpp: wildcards, the selection of files, the export,
--                       main; AssetTool/Wildcards, AssetTool/Export and AssetTool/Whole carry the
--                       proofs
--   Meshes              Rune/src/rendering/static_mesh.cpp and its header: StaticMesh
--   Primitives          Rune/src/utility/primitives.cpp: generate_plane, generate_cube
--   Scenes              Rune/src/scenes/system_scene.cpp and its header: entities, load_scene;
--                       Scenes/Frame and Scenes/Update are the frame update,
--                       Scenes/Stored is what is relied on of the entity registry;
--                       Scenes/Gets, Scenes/Specs, Scenes/Load and Scenes/Drawn carry the
--                       proofs
--   Audio               Rune/src/audio/audio.cpp and its header; Audio/Stream is the streaming,
--                       Audio/Device the opening and closing of the device, Audio/Errors is
--                       Rune/src/audio/al_common.hpp; Audio/Cyclic, Audio/Play, Audio/Shutdown and
--                       Audio/History carry the proofs
--   Platform            Rune/src/platform/system_platform_glfw.cpp: SystemPlatformGLFW; Platform/Keys is
--                       Rune/include/rune/platform/input_enums.hpp; Platform/Codes, Platform/Input,
--                       Platform/Resize and Platform/Restart carry the proofs
--   Textures            Rune/src/rendering/texture.cpp and its header: Texture
--   Materials           Rune/src/rendering/material.cpp and its header: Material
--   Factories           Rune/src/resources/factory_funcs.cpp: the factories of the resources
--   Scripting           Rune/src/scripting/system_scripting.cpp and script_glue.cpp; Scripting/Glue is
--                       what scripts call, Scripting/ClassNames and Scripting/Startup carry the proofs
--   Binary              Rune/include/rune/io/io.hpp: read_binary
--   World               Rune/src/core/engine.cpp over the systems above: World is
--                       a frame, World/Life the start and the end; World/Scene, World/Cameras and
--                       World/Round carry the proofs about a frame, World/Run those about the
--                       loop, World/Untouched, World/Systems, World/Started and World/Whole those
--                       about a whole run
--   Logging             Rune/src/core/system_logging.cpp and its header, and the macros of
--                       Rune/src/common_internal.hpp; Logging/Said and Logging/Whole carry the proof
--   EntryPoint          Rune/src/entry_point.cpp and Sandbox/src/main.cpp: main
--   Flags               Rune/include/rune/utility/enum_class_flags.hpp
--   YamlConversions     Rune/src/utility/yaml-conversions.hpp
--
-- A state is a record, an operation a function to the new state, and code that may throw, fail an
-- assertion or run out of fuel returns an Outcome. A text is the list of its bytes. Identifiers,
-- sizes and priorities are natural numbers; where a width matters, the wrap-around is written out.
--
-- Fuel: SystemResources::load goes one level of dependencies down with each unit, so the rank of
-- the resource is enough; SystemEvents::update takes one unit for each event that it delivers, so
-- the weight of the waiting events is enough; the frame loop of Engine::run takes one for a frame.
-- The shutdown of the audio takes one for each entry of its tables.
-- The digits of a number are printed with its successor as fuel.
--
-- Parameters: the file system, the YAML library, the entity registry, the hash of names, the
-- factories, the receivers of events, the sort of the standard library, what the systems do when the
-- engine calls them (in Engine; World and World/Life have it), floats, the graphics library, OpenAL,
-- the reading of audio files, Assimp, regular expressions, GLFW, Mono, the image library, and the
-- mathematics of vectors and matrices.
--
-- Not modelled: the formatting of lines that are logged, the functions that print what an
-- assembly holds, the test functions for scripts that only log, the native handles of windows,
-- macros for profiling, headers that only declare, the order in which the entity registry goes on
-- behind a script that destroys another entity with a script, and the parsing of the asset tool's
-- command line, which is that of a library.
pub mod AssetTool
pub mod Audio
pub mod Base
pub mod Binary
pub mod Config
pub mod Engine
pub mod EntryPoint
pub mod Events
pub mod Factories
pub mod Flags
pub mod Ini
pub mod Logging
pub mod Maps
pub mod Materials
pub mod MeshFile
pub mod Meshes
pub mod Numbers
pub mod Paths
pub mod Platform
pub mod Primitives
pub mod RawMesh
pub mod Renderer
pub mod Resources
pub mod Scenes
pub mod Scripting
pub mod Strings
pub mod Textures
pub mod World
pub mod YamlConversions
