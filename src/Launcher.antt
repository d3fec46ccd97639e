-- ===== src/Launcher.antt =====
-- Launcher/main.cpp: the game module behind three function pointers, hot reload, and the main loop.
-- What the file system, the dynamic loader, the trigger socket, the engine and the game do is a
-- parameter. Function pointers and library handles are addresses, 0 is null.
pub mod Load
pub mod Main
pub mod Loop
pub mod Kept
pub mod Wired
pub mod Hosted
pub mod Plays
pub mod Paired
use project_delta.Prelude.{ℕ, Bool, true, false, ◌==◌, ◌||◌, if◌then◌else◌, Option, none, some}

-- The files: the module that the launcher is started with, and MODULE_SHADOW_COPY.
pub data File : Type 0 where
  game_module shadow_copy : File

-- "Game_OnInit", "Game_OnUpdate", "Game_OnShutdown".
pub data Symbol : Type 0 where
  game_on_init game_on_update game_on_shutdown : Symbol

pub record Host : Type 1 where
  pub World : Type 0
  -- `fs::exists`; `none` is a filesystem_error.
  pub exists : World → File → Option Bool
  -- `fs::copy` with overwrite_existing; false is a filesystem_error.
  pub copy : World → File → File → Bool × World
  -- LOAD_LIB, LOAD_SYMB, UNLOAD_LIB
  pub load_lib : World → File → ℕ × World
  pub load_symb : World → Symbol → ℕ → ℕ
  pub unload_lib : World → ℕ → World
  -- `trigger::StartServer(6767)`, false for INVALID_SIGNAL_SOCKET; `trigger::CheckForSignal`.
  pub start_server : World → Bool × World
  pub check_for_signal : World → Bool × World
  -- `delta::Engine::Initialize`, `Update` and `Shutdown`.
  pub engine_initialize : World → World
  pub engine_update : World → World
  pub engine_shutdown : World → World
  -- A call through a function pointer that is not null, with `g_context.isRunning` before and after.
  pub call : World → ℕ → Bool → Bool × World

pub record Game : Type 0 where
  pub module_path : File
  pub dll : ℕ
  pub init_fn : ℕ
  pub update_fn : ℕ
  pub shutdown_fn : ℕ

-- The constructor of Game.
unfoldable pub game : File → Game
game path = record { module_path = path; dll = 0; init_fn = 0; update_fn = 0; shutdown_fn = 0 }

module _ (host : Host) where
  open host use {World, exists, copy, load_lib, load_symb, unload_lib}

  abbrev pub copy_existing : Game → World → Option Bool → Bool × World
  copy_existing g w none = (false, w)
  copy_existing g w (some false) = (false, w)
  copy_existing g w (some true) = copy w g.module_path shadow_copy

  -- The `try` block of Game::load: false is a return of false.
  unfoldable pub make_shadow_copy : Game → World → Bool × World
  make_shadow_copy g w = copy_existing g w (exists w g.module_path)

  -- The library and the symbols.
  unfoldable pub load_symbols : Game → ℕ × World → Bool × Game × World
  load_symbols g (lib, w) =
      if lib == 0
      then (false, record g { dll = lib }, w)
      else let i = load_symb w game_on_init lib in
        let u = load_symb w game_on_update lib in
        let d = load_symb w game_on_shutdown lib in
        let g' = record g { dll = lib; init_fn = i; update_fn = u; shutdown_fn = d } in
        (if i == 0 || u == 0 || d == 0 then false else true, g', w)

  -- Game::load. The library is loaded from `modulePath`, not from the shadow copy.
  unfoldable pub load : Game → World → Bool × Game × World
  unfolding load_symbols make_shadow_copy
  load g w =
      let (copied, w') = make_shadow_copy g w in
      if copied then load_symbols g (load_lib w' g.module_path) else (false, g, w')

  -- Game::unload
  unfoldable pub unload : Game → World → Game × World
  unload g w =
      (record g { dll = 0; init_fn = 0; update_fn = 0; shutdown_fn = 0 }, unload_lib w g.dll)

  -- Game::reload
  unfoldable pub reload : Game → World → Bool × Game × World
  unfolding unload load
  reload g w = let (g', w') = unload g w in load g' w'
