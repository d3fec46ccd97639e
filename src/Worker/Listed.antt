-- ===== src/Worker/Listed.antt =====
-- The array `s_Threads` while Worker_Init (Engine/src/delta/core/Worker.cpp) fills it.
use project_delta.Prelude.{
  ℕ, ◌+◌, ◌*◌, ◌≤◌, ◌<◌, ◌≡◌, ◌≢◌, ◌∙◌, ap, arith, sym, ◌==◌, false, ℕ_discrete,
}
use project_delta.ThreadContext.{context_address, thread_context_get_for_index}
use project_delta.Win32.{Win32}
use project_delta.Worker.Init.{Workers}
use project_delta.Worker.Room.{next_of, scratch_of}
use project_delta.Worker.Placed.{Begins, Places}

-- Of `n` places `i` are filled, each with the address of a word of the persistent storage, one behind the
-- other behind the array; in that word is what CreateThread gave. The records for the new threads are
-- the first words of the transient arena, in front of the array, each with WorkerProc and the worker's context.
pub record IsListed (sys : Win32) (worker_proc n i cs : ℕ) (s : Workers sys) : Type 0 where
  pub next : next_of s.globals ≡ s.s_threads + 8 * n + 8 * i
  pub first : (scratch_of s.globals).backing_memory ≡ cs
  pub made : (s.s_threads == 0) ≡ false
  pub apart : cs + 16 * n ≤ s.s_threads
  pub listed : (j : ℕ) → j < i → s.process.word (s.s_threads + 8 * j) ≡ s.s_threads + 8 * n + 8 * j
  pub handle_at : (j : ℕ) → j < i → s.process.word (s.s_threads + 8 * n + 8 * j) ≢ 0
  pub handle_of :
      (j : ℕ)
      → j < i
      → (s.globals.contexts.worker_context (j + 1)).generic.thread_handle
        ≡ s.s_threads + 8 * n + 8 * j
  pub proc_at : (j : ℕ) → j < i → s.process.word (cs + 16 * j) ≡ worker_proc
  pub args_at :
      (j : ℕ)
      → j < i
      → s.process.word (cs + 16 * j + 8) ≡ thread_context_get_for_index s.globals (j + 1)

module _ (sys : Win32) (worker_proc n i cs address : ℕ) (s s1 s2 : Workers sys)
    (l : IsListed sys worker_proc n i cs s) (few : i < n) (same : s1.s_threads ≡ s.s_threads)
    (b : Begins sys worker_proc i (cs + 16 * i) address s s1) (p : Places sys i address s1 s2)
    (kept : s2.s_threads ≡ s1.s_threads)
    (one : s1.globals.thread_contexts ≡ s.globals.thread_contexts)
    (workers : s1.globals.contexts.worker_context ≡ s.globals.contexts.worker_context)
    (two : s2.globals.thread_contexts ≡ s1.globals.thread_contexts) where
  threads : s2.s_threads ≡ s.s_threads
  threads = kept ∙ same

  -- A word that neither the thread nor its record nor its place takes.
  unchanged :
      (a : ℕ)
      → a ≢ address
      → a ≢ cs + 16 * i
      → a ≢ cs + 16 * i + 8
      → a ≢ s.s_threads + 8 * i
      → s2.process.word a ≡ s.process.word a
  unchanged a ne ne1 ne2 ne3 =
      p.others a (λ e. ne3 (omega (arith, e, same))) ∙ b.others a ne ne1 ne2

  listed : (j : ℕ) → j < i + 1 → s2.process.word (s.s_threads + 8 * j) ≡ s.s_threads + 8 * n + 8 * j
  listed j lt = elim (ℕ_discrete j i) [
    | yes e ↦
        let place : s.s_threads + 8 * j ≡ s1.s_threads + 8 * i = omega (arith, e, same) in
        ap s2.process.word place ∙ p.listed ∙ omega (arith, b.at, l.next, e)
    | no ne ↦
        unchanged (s.s_threads + 8 * j) (omega (arith, b.at, l.next, lt, few))
          (omega (arith, l.apart, lt, few)) (omega (arith, l.apart, lt, few)) (omega (arith, ne))
        ∙ l.listed j (omega (arith, lt, ne))
  ]

  handle_at : (j : ℕ) → j < i + 1 → s2.process.word (s.s_threads + 8 * n + 8 * j) ≢ 0
  handle_at j lt = elim (ℕ_discrete j i) [
    | yes e ↦ λ null.
        let place : s.s_threads + 8 * n + 8 * j ≡ address = omega (arith, b.at, l.next, e) in
        b.handle_at (
          sym (p.others address (omega (arith, b.at, l.next, few, same)))
          ∙ ap s2.process.word (sym place)
          ∙ null)
    | no ne ↦ λ null. l.handle_at j (omega (arith, lt, ne)) (
        sym (
          unchanged (s.s_threads + 8 * n + 8 * j) (omega (arith, b.at, l.next, ne))
            (omega (arith, l.apart, few)) (omega (arith, l.apart, few)) (omega (arith, few)))
        ∙ null)
  ]

  handle_of :
      (j : ℕ)
      → j < i + 1
      → (s2.globals.contexts.worker_context (j + 1)).generic.thread_handle
        ≡ s2.s_threads + 8 * n + 8 * j
  handle_of j lt = elim (ℕ_discrete j i) [
    | yes e ↦
        let index : j + 1 ≡ i + 1 = omega (arith, e) in
        ap (λ k. (s2.globals.contexts.worker_context k).generic.thread_handle) index
        ∙ p.handle_of
        ∙ omega (arith, b.at, l.next, e, threads)
    | no ne ↦
        ap (λ c. c.generic.thread_handle) (p.other_contexts (j + 1) (omega (arith, ne)))
        ∙ ap (λ w. (w (j + 1)).generic.thread_handle) workers
        ∙ l.handle_of j (omega (arith, lt, ne))
        ∙ omega (arith, threads)
  ]

  proc_at : (j : ℕ) → j < i + 1 → s2.process.word (cs + 16 * j) ≡ worker_proc
  proc_at j lt = elim (ℕ_discrete j i) [
    | yes e ↦
        let place : cs + 16 * j ≡ cs + 16 * i = omega (arith, e) in
        ap s2.process.word place
        ∙ p.others (cs + 16 * i) (omega (arith, l.apart, few, same))
        ∙ b.proc_at (omega (arith, b.at, l.next, l.apart, few))
    | no ne ↦
        unchanged (cs + 16 * j) (omega (arith, b.at, l.next, l.apart, lt, few)) (omega (arith, ne))
          (omega arith) (omega (arith, l.apart, lt, few))
        ∙ l.proc_at j (omega (arith, lt, ne))
  ]

  args_at :
      (j : ℕ)
      → j < i + 1
      → s2.process.word (cs + 16 * j + 8) ≡ thread_context_get_for_index s2.globals (j + 1)
  unfolding thread_context_get_for_index
  args_at j lt = elim (ℕ_discrete j i) [
    | yes e ↦
        let place : cs + 16 * j + 8 ≡ cs + 16 * i + 8 = omega (arith, e) in
        let index : i + 1 ≡ j + 1 = omega (arith, e) in
        ap s2.process.word place
        ∙ p.others (cs + 16 * i + 8) (omega (arith, l.apart, few, same))
        ∙ b.args_at (omega (arith, b.at, l.next, l.apart, few))
        ∙ ap (context_address s.globals.thread_contexts) index
        ∙ ap (λ x. context_address x (j + 1)) (sym (two ∙ one))
    | no ne ↦
        unchanged (cs + 16 * j + 8) (omega (arith, b.at, l.next, l.apart, lt, few)) (omega arith)
          (omega (arith, ne)) (omega (arith, l.apart, lt, few))
        ∙ l.args_at j (omega (arith, lt, ne))
        ∙ ap (λ x. context_address x (j + 1)) (sym (two ∙ one))
  ]

  pub IsListed-next : IsListed sys worker_proc n (i + 1) cs s2
  IsListed-next = record {
    next = omega (arith, p.next, b.next, l.next, threads);
    first = ap (λ a. a.backing_memory) p.scratch ∙ ap (λ a. a.backing_memory) b.scratch ∙ l.first;
    made = ap (λ t. t == 0) threads ∙ l.made;
    apart = omega (arith, l.apart, threads);
    listed =
        λ j lt. omega (arith, ap (λ t. s2.process.word (t + 8 * j)) threads, listed j lt, threads);
    handle_at = λ j lt null.
        handle_at j lt (ap (λ t. s2.process.word (t + 8 * n + 8 * j)) (sym threads) ∙ null);
    handle_of = handle_of;
    proc_at = proc_at;
    args_at = args_at;
  }
