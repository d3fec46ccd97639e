-- ===== src/Win32/Privileges.antt =====
-- SetProcessPrivileges of Engine/src/delta/platform/os_win32.cpp.
use project_delta.Prelude.{
  ℕ, ◌+◌, ◌≡◌, ◌∙◌, arith, ◌==◌, if◌then◌else◌, Bool, true, false, not, ◌||◌, ◌&&◌, ◌<◌,
}
use project_delta.Win32.{Win32}

abbrev pub error_not_all_assigned : ℕ
error_not_all_assigned = 1300

module _ (sys : Win32) where
  open sys use {
    World, open_process_token, lookup_privilege_value, adjust_token_privileges, get_last_error,
    close_handle,
  }

  unfoldable pub adjust_with : ℕ → ℕ → World → Bool × World
  adjust_with token luid w =
      let (result, w') = adjust_token_privileges w token luid in
      let error = get_last_error w' in
      (not (not result || error == error_not_all_assigned), close_handle w' token)

  unfoldable pub set_privileges_with : ℕ → World → Bool × World
  set_privileges_with token w =
      let (found, luid, w') = lookup_privilege_value w in
      if found then adjust_with token luid w' else (false, close_handle w' token)

  unfoldable pub set_process_privileges : World → Bool × World
  set_process_privileges w =
      let (opened, token, w') = open_process_token w in
      if opened then set_privileges_with token w' else (false, w')

  -- `held w i` is how often the handle `i` is open in `w`: what the calls document of it.
  pub record IsCounted (held : World → ℕ → ℕ) : Type 0 where
    pub opening :
        (w : World) (i : ℕ)
        → held (open_process_token w).2 i
          ≡ held w i + (if (open_process_token w).0 && i == (open_process_token w).1 then 1 else 0)
    pub looking_up : (w : World) (i : ℕ) → held (lookup_privilege_value w).2 i ≡ held w i
    pub adjusting :
        (w : World) (token luid i : ℕ) → held (adjust_token_privileges w token luid).1 i ≡ held w i
    pub closing :
        (w : World) (handle i : ℕ)
        → 0 < held w handle
        → held (close_handle w handle) i + (if i == handle then 1 else 0) ≡ held w i

  adjust_with-closes :
      (held : World → ℕ → ℕ) (token luid : ℕ) (w : World) (i : ℕ)
      → IsCounted held
      → 0 < held w token
      → held (adjust_with token luid w).1 i + (if i == token then 1 else 0) ≡ held w i
  unfolding adjust_with
  adjust_with-closes held token luid w i h was =
      let w' : World = (adjust_token_privileges w token luid).1 in
      h.closing w' token i (omega (arith, was, h.adjusting w token luid token))
      ∙ h.adjusting w token luid i

  set_privileges_with-closes :
      (held : World → ℕ → ℕ) (token : ℕ) (w : World) (i : ℕ)
      → IsCounted held
      → 0 < held w token
      → held (set_privileges_with token w).1 i + (if i == token then 1 else 0) ≡ held w i
  unfolding set_privileges_with
  set_privileges_with-closes held token w i h was =
      let w' : World = (lookup_privilege_value w).2 in
      let luid : ℕ = (lookup_privilege_value w).1 in
      let is : 0 < held w' token = omega (arith, was, h.looking_up w token) in
      elim (lookup_privilege_value w).0
        as (λ b.
          held (if b then adjust_with token luid w' else (false, close_handle w' token)).1 i
            + (if i == token then 1 else 0)
          ≡ held w i) [
            | true ↦ adjust_with-closes held token luid w' i h is ∙ h.looking_up w i
            | false ↦ h.closing w' token i is ∙ h.looking_up w i
          ]

  -- If a successful OpenProcessToken opens the handle that it stores once more, CloseHandle closes an
  -- open handle once, and the other two calls open and close nothing, SetProcessPrivileges leaves each
  -- handle open as often as it was, on every path.
  pub set_process_privileges-held :
      (held : World → ℕ → ℕ) (w : World) (i : ℕ)
      → IsCounted held
      → held (set_process_privileges w).1 i ≡ held w i
  unfolding set_process_privileges
  set_process_privileges-held held w i h =
      let token : ℕ = (open_process_token w).1 in
      let w' : World = (open_process_token w).2 in
      elim (open_process_token w).0
          as (λ b.
            ((i : ℕ) → held w' i ≡ held w i + (if b && i == token then 1 else 0))
            → held (if b then set_privileges_with token w' else (false, w')).1 i ≡ held w i) [
              | true ↦ λ opens.
                  let own = opens token in
                  let is : 0 < held w' token = ground arith in
                  omega (arith, set_privileges_with-closes held token w' i h is, opens i)
              | false ↦ λ opens. omega (arith, opens i)
            ]
        (h.opening w)
