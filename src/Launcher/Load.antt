-- ===== src/Launcher/Load.antt =====
-- Game::load and Game::reload (Launcher/main.cpp): what a call leaves in the function pointers.
use project_delta.Prelude.{
  ℕ, ◌≡◌, ◌≢◌, ◌⊎◌, inl, inr, refl, arith, ◌==◌, ◌||◌, if◌then◌else◌, Bool, true, false,
}
use project_delta.Launcher.{File, Host, Game, make_shadow_copy, load_symbols, load, unload, reload}

-- A game whose three functions can be called.
pub record IsPlayable (g : Game) : Type 0 where
  pub init : g.init_fn ≢ 0
  pub update : g.update_fn ≢ 0
  pub shutdown : g.shutdown_fn ≢ 0

abbrev pub IsMissing : Game → Type 0
IsMissing g = (g.init_fn ≡ 0) ⊎ (g.update_fn ≡ 0) ⊎ (g.shutdown_fn ≡ 0)

pub null_cases : (n : ℕ) → ((n ≡ 0) × ((n == 0) ≡ true)) ⊎ ((n ≢ 0) × ((n == 0) ≡ false))
null_cases n = ground arith

module _ (host : Host) where
  open host use {World, exists, copy, load_lib, load_symb, unload_lib}

  -- What load comes to: it returns true with a playable game, false with the pointers as they were,
  -- or false with a library that has not all of the symbols.
  pub data Loads (g : Game) : Bool × Game × World → Type 0 where
    complete : (g' : Game) (w : World) → IsPlayable g' → Loads g (true, g', w)
    absent : (lib : ℕ) (w : World) → Loads g (false, record g { dll = lib }, w)
    partial : (g' : Game) (w : World) → IsMissing g' → Loads g (false, g', w)

  abbrev found : File → ℕ → ℕ → ℕ → ℕ → Game
  found path dll i u d = record {
    module_path = path;
    dll = dll;
    init_fn = i;
    update_fn = u;
    shutdown_fn = d;
  }

  symbols_cases :
      (g : Game) (path : File) (dll i u d : ℕ) (w : World)
      → Loads g (if i == 0 || u == 0 || d == 0 then false else true, found path dll i u d, w)
  symbols_cases g path dll i u d w = elim (null_cases i) [
    | inl (z, e) ↦ rw e (partial _ w (inl z))
    | inr (ni, e) ↦ rw e (elim (null_cases u) [
      | inl (z, e') ↦ rw e' (partial _ w (inr (inl z)))
      | inr (nu, e') ↦ rw e' (elim (null_cases d) [
        | inl (z, f) ↦ rw f (partial _ w (inr (inr z)))
        | inr (nd, f) ↦ rw f (complete _ w record { init = ni; update = nu; shutdown = nd })
      ])
    ])
  ]

  load_symbols_cases : (g : Game) (p : ℕ × World) → Loads g (load_symbols host g p)
  unfolding load_symbols
  load_symbols_cases g (lib, w) = elim (null_cases lib) [
    | inl (z, e) ↦ rw e (absent lib w)
    | inr (n, e) ↦ rw e (symbols_cases g g.module_path lib _ _ _ w)
  ]

  after_copy :
      (g : Game) (p : Bool × World)
      → Loads g (if p.0 then load_symbols host g (load_lib p.1 g.module_path) else (false, g, p.1))
  after_copy g (true, w) = load_symbols_cases g (load_lib w g.module_path)
  after_copy g (false, w) = absent g.dll w

  reloads :
      {g : Game} (r : Bool × Game × World)
      → Loads g r
      → g.init_fn ≡ 0
      → ((r.0 ≡ true) × IsPlayable r.1) ⊎ ((r.0 ≡ false) × IsMissing r.1)
  reloads r (complete g' w h) z = inl (refl, h)
  reloads r (absent lib w) z = inr (refl, inl z)
  reloads r (partial g' w h) z = inr (refl, h)

  -- A call of Game::load has one of three results. It returns true, and then all three functions
  -- can be called; it returns false and leaves the three pointers as they were; or it returns false
  -- and at least one of them is null.
  pub load_cases : (g : Game) (w : World) → Loads g (load host g w)
  unfolding load
  load_cases g w = after_copy g (make_shadow_copy host g w)

  -- Game::reload gives up the old functions first: where it returns true all three can be called,
  -- and where it returns false at least one of the three pointers is null.
  pub reload_cases :
      (g : Game) (w : World)
      → (((reload host g w).0 ≡ true) × IsPlayable (reload host g w).1)
        ⊎ (((reload host g w).0 ≡ false) × IsMissing (reload host g w).1)
  unfolding reload unload
  reload_cases g w = reloads _ (load_cases _ _) refl
