-- ===== src/Win32/Affinity.antt =====
-- Thread_AssignPhysicalCore of Engine/src/delta/platform/os_win32.cpp: which cores it can name.
use native.Mathlib.Omega.{pow_step}
use project_delta.Prelude.{
  ℕ, zero, suc, ◌*◌, ◌^◌, ◌≤◌, ◌<◌, ◌≡◌, ◌∙◌, refl, ap, arith, ltb, true, false, none, some,
}
use project_delta.Word.{u32}
use project_delta.Win32.{Win32}
use project_delta.Win32.Threads.{Process, affinity_mask, set_affinity, thread_assign_physical_core}

two_pow_twice : (c : ℕ) → 2 ^ (c * 2) ≡ 4 ^ c
two_pow_twice zero = refl
two_pow_twice (suc c) =
    let same : suc c * 2 ≡ suc (suc (c * 2)) = omega arith in
    let step : 2 ^ (suc c * 2) ≡ 2 * (2 * 2 ^ (c * 2)) =
      ap (λ n. 2 ^ n) same ∙ pow_step 2 (suc (c * 2)) ∙ ap (λ n. 2 * n) (pow_step 2 (c * 2)) in
    omega (arith, step, two_pow_twice c, pow_step 4 c)

module _ (sys : Win32) where
  open sys use {set_thread_affinity_mask}

  -- Of the cores up to 2 ^ 31, Thread_AssignPhysicalCore gives a thread the mask 4 ^ c for each core c up to
  -- 32, and for the cores from 32 on its shift is undefined.
  pub assign_physical_core :
      (thread c : ℕ) (p : Process sys)
      → c < 2 ^ 31
      → (c < 32
          → thread_assign_physical_core sys thread c p
            ≡ some (record p { world = set_thread_affinity_mask p.world (p.word thread) (4 ^ c) }))
        × (32 ≤ c → thread_assign_physical_core sys thread c p ≡ none)
  unfolding thread_assign_physical_core set_affinity affinity_mask
  assign_physical_core thread c p small =
      let logical : u32 (c * 2) ≡ c * 2 = omega (arith, small) in
      (
        λ lt.
            let fits : ltb (c * 2) 64 ≡ true = ground arith in
            rw (logical, fits, two_pow_twice c) refl,
        λ le. let wide : ltb (c * 2) 64 ≡ false = ground arith in rw (logical, wide) refl,
      )
