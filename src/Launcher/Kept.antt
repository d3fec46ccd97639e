-- ===== src/Launcher/Kept.antt =====
-- What a reload (Launcher/main.cpp) leaves of the world, where its calls of the system leave it.
use project_delta.Prelude.{
  ℕ, inl, inr, ◌≡◌, ◌∙◌, refl, sym, ap, if◌then◌else◌, Bool, true, false, Option, none, some,
}
use project_delta.Launcher.{
  File, Host, Game, copy_existing, load_symbols, make_shadow_copy, load, unload, reload,
}
use project_delta.Launcher.Load.{null_cases}
use project_delta.Launcher.Main.{State, Next, continues, breaks, crashes, reloaded}

-- A part of the world that copying, loading and unloading a library leave as it is.
pub record IsApart (host : Host) (A : Type 0) (part : host.World → A) : Type 0 where
  pub copy : (w : host.World) (f g : File) → part (host.copy w f g).1 ≡ part w
  pub load_lib : (w : host.World) (f : File) → part (host.load_lib w f).1 ≡ part w
  pub unload_lib : (w : host.World) (lib : ℕ) → part (host.unload_lib w lib) ≡ part w

module _ (host : Host) (A : Type 0) (part : host.World → A) (h : IsApart host A part) where
  load_symbols-part : (g : Game) (p : ℕ × host.World) → part (load_symbols host g p).2 ≡ part p.1
  unfolding load_symbols
  load_symbols-part g (lib, w) = elim (null_cases lib) [
    | inl (_, e) ↦ rw e refl
    | inr (_, e) ↦ rw e refl
  ]

  load_with-part :
      (g : Game) (r : Bool × host.World)
      → part
          (if r.0 then load_symbols host g (host.load_lib r.1 g.module_path) else (false, g, r.1)).2
        ≡ part r.1
  load_with-part g (true, w) =
      load_symbols-part g (host.load_lib w g.module_path) ∙ h.load_lib w g.module_path
  load_with-part g (false, w) = refl

  copy-part :
      (g : Game) (w : host.World) (found : Option Bool)
      → part (copy_existing host g w found).1 ≡ part w
  copy-part g w none = refl
  copy-part g w (some false) = refl
  copy-part g w (some true) = h.copy w _ _

  pub load-part : (g : Game) (w : host.World) → part (load host g w).2 ≡ part w
  unfolding load make_shadow_copy
  load-part g w =
      load_with-part g (make_shadow_copy host g w) ∙ copy-part g w (host.exists w g.module_path)

  pub reload-part : (g : Game) (w : host.World) → part (reload host g w).2 ≡ part w
  unfolding reload unload
  reload-part g w = load-part (unload host g w).0 (unload host g w).1 ∙ h.unload_lib w g.dll

  state_of : State host → Next host → State host
  state_of s (continues s') = s'
  state_of s (breaks s') = s'
  state_of s (crashes s') = s'

  pub reloaded-part :
      (s s' : State host) (r : Bool × Game × host.World)
      → reloaded host s r ≡ continues s'
      → (part s'.world ≡ part r.2) × (s'.calls ≡ s.calls)
  unfolding reloaded state_of
  reloaded-part s s' (true, g, w) e =
      let same = ap (state_of s) e in
      (ap (λ t. part t.world) (sym same), ap (λ t. t.calls) (sym same))
  reloaded-part s s' (false, g, w) e = cc
