-- ===== src/HelloWorldGame.antt =====
-- Examples/HelloWorldGame/game.cpp: the three functions that the example module exports. What Game_OnInit
-- sends to `std::cout` is the list of its lines.
pub mod Endless
use project_delta.Prelude.{ℕ, Bool, Option, List, [], ◌∷◌}
use project_delta.Win32.Cpu.{Architecture, Brand, OsInfo}
use project_delta.Launcher.{Symbol, game_on_init, game_on_update, game_on_shutdown}

-- A line's text, and the value that stands in it. A Bool is printed as "true" or "false".
pub data Line : Type 0 where
  initializing_game system_info : Line
  page_size physical_cores logical_cores : ℕ → Line
  architecture : Option Architecture → Line
  manufacturer : List ℕ → Line
  cpu_model : Brand → Line
  has_smt avx2 avx512_foundation avx512_conflict_detection : Bool → Line
  avx512_exponential_and_reciprocal avx512_prefetch : Bool → Line

-- Each function is given `isRunning` and leaves it, with the lines that it prints.
unfoldable pub on_init : OsInfo → Bool → Bool × List Line
on_init info running = (
  running,
  initializing_game
      ∷ system_info
      ∷ page_size info.os_page_size
      ∷ architecture info.cpu_architecture
      ∷ manufacturer info.cpu_manufacturer_id
      ∷ cpu_model info.cpu_brand_string
      ∷ physical_cores info.cpu_physical_core_count
      ∷ logical_cores info.cpu_logical_processor_count
      ∷ has_smt info.cpu_has_smt
      ∷ avx2 info.cpu_has_avx2
      ∷ avx512_foundation info.cpu_has_avx512f
      ∷ avx512_conflict_detection info.cpu_has_avx512cd
      ∷ avx512_exponential_and_reciprocal info.cpu_has_avx512er
      ∷ avx512_prefetch info.cpu_has_avx512pf
      ∷ [],
)

unfoldable pub on_update : Bool → Bool × List Line
on_update running = (running, [])

unfoldable pub on_shutdown : Bool → Bool × List Line
on_shutdown running = (running, [])

-- The function that the module exports under a symbol.
unfoldable pub exported : OsInfo → Symbol → Bool → Bool × List Line
exported info game_on_init running = on_init info running
exported info game_on_update running = on_update running
exported info game_on_shutdown running = on_shutdown running
