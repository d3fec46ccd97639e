-- ===== src/Worker/Many.antt =====
-- How many workers Worker_Init (Engine/src/delta/core/Worker.cpp) can start.
use mathlib.Core.Path.{subst}
use project_delta.Prelude.{
  ℕ, zero, suc, ◌+◌, ◌*◌, ◌≤◌, ◌<◌, ◌≡◌, ◌≢◌, ◌∙◌, refl, sym, ap, arith, ◌==◌, false, dec_lt,
}
use project_delta.Build.{Build}
use project_delta.Build.Ran.{ran, undefined}
use project_delta.EngineTypes.{WorkerExecutionContext}
use project_delta.Arena.{thread_arena_reset}
use project_delta.ThreadContext.{Globals}
use project_delta.Win32.{Win32}
use project_delta.Win32.Layer.{IsServing}
use project_delta.Worker.Init.{Workers, place_worker, start_workers, worker_init}
use project_delta.Worker.Room.{HasArenas, scratch_of, IsSame, new-persistent, new-transient}
use project_delta.Worker.Listed.{IsListed, IsListed-next}
use project_delta.Worker.Placed.{
  with_handle, IsManned, IsKept, IsKept-trans, place_last, place_some, begun,
}

module _ (sys : Win32) (build : Build) (h : IsServing sys)
    (creates : (w : sys.World) (info : ℕ) → ((sys.create_thread w info).0 == 0) ≡ false)
    (worker_proc : ℕ) where
  module _ (P : ℕ → WorkerExecutionContext → Type 0) (n : ℕ)
      (stays : (j x : ℕ) (c : WorkerExecutionContext) → P j c → P j (with_handle c x)) where
    same-IsManned :
        (i : ℕ) (s s' : Workers sys)
        → IsSame sys build h s s'
        → IsManned P n i s.globals
        → IsManned P n i s'.globals
    same-IsManned i s s' same m = record {
      holds = λ j lo hi. subst (λ w. P j (w j)) (sym same.workers) (m.holds j lo hi);
      handles = λ j lo hi.
          subst (λ w. (w j).generic.thread_handle ≢ 0) (sym same.workers) (m.handles j lo hi);
    }

    same-IsKept : (s s' : Workers sys) → IsSame sys build h s s' → IsKept sys s s'
    same-IsKept s s' same = record {
      globals = same.globals;
      count = same.count;
      threads = same.threads;
    }

    start_workers-some :
        (k words scratch cs i : ℕ) (s : Workers sys)
        → HasArenas (k + words) scratch s.globals
        → IsManned P n i s.globals
        → k + i ≤ 31
        → k + i ≤ n
        → IsListed sys worker_proc n i cs s
        → (s' : Workers sys) × (start_workers sys build h worker_proc k cs i s ≡ ran s')
          × HasArenas words scratch s'.globals
          × IsManned P n (i + k) s'.globals
          × IsKept sys s s'
          × IsListed sys worker_proc n (i + k) cs s'
    unfolding start_workers
    start_workers-some zero words scratch cs i s a m few all l =
        let zero_words : 0 + words ≡ words = omega arith in
        let here : i ≡ i + 0 = omega arith in
        (
          s,
          refl,
          subst (λ w. HasArenas w scratch s.globals) zero_words a,
          subst (λ i. IsManned P n i s.globals) here m,
          record { globals = refl; count = refl; threads = refl },
          subst (λ i. IsListed sys worker_proc n i cs s) here l,
        )
    start_workers-some (suc k) words scratch cs i s a m few all l =
        let split : suc k + words ≡ 1 + (k + words) = omega arith in
        let (handle, s1, begins, given, a1, same, stored) =
          begun sys build h creates worker_proc (k + words) scratch cs i s
            (subst (λ w. HasArenas w scratch s.globals) split a) in
        let (s2, placed, a2, m2, kept, places) =
          place_some sys build h creates worker_proc P n (k + words) scratch i handle s1 stays
            (omega (arith, few)) given a1 (same-IsManned i s s1 same m) in
        let l2 =
          IsListed-next sys worker_proc n i cs handle s s1 s2 l (omega (arith, all)) same.threads
            stored places kept.threads (ap (λ g. g.thread_contexts) same.globals) same.workers
            (ap (λ g. g.thread_contexts) kept.globals) in
        let (s3, rest, a3, m3, kept', l3) =
          start_workers-some k words scratch cs (i + 1) s2 a2 m2 (omega (arith, few))
            (omega (arith, all)) l2 in
        let end : i + 1 + k ≡ i + suc k = omega arith in
        (
          s3,
          rw (begins, placed) rest,
          a3,
          subst (λ i. IsManned P n i s3.globals) end m3,
          IsKept-trans sys s s1 s3 (same-IsKept s s1 same) (IsKept-trans sys s1 s2 s3 kept kept'),
          subst (λ i. IsListed sys worker_proc n i cs s3) end l3,
        )

    start_workers-undefined :
        (k words scratch cs i : ℕ) (s : Workers sys)
        → HasArenas (k + words) scratch s.globals
        → IsManned P n i s.globals
        → i ≤ 31
        → 32 ≤ k + i
        → start_workers sys build h worker_proc k cs i s ≡ undefined
    unfolding start_workers
    start_workers-undefined zero words scratch cs i s a m le many = absurd (omega (arith, le, many))
    start_workers-undefined (suc k) words scratch cs i s a m le many =
        let split : suc k + words ≡ 1 + (k + words) = omega arith in
        let (handle, s1, begins, given, a1, same, _) =
          begun sys build h creates worker_proc (k + words) scratch cs i s
            (subst (λ w. HasArenas w scratch s.globals) split a) in
        elim (dec_lt i 31) [
          | yes lt ↦
              let (s2, placed, a2, m2, kept, _) =
                place_some sys build h creates worker_proc P n (k + words) scratch i handle s1 stays
                  lt given a1 (same-IsManned i s s1 same m) in
              rw (begins, placed)
                (start_workers-undefined k words scratch cs (i + 1) s2 a2 m2 (omega (arith, lt))
                  (omega (arith, many)))
          | no ge ↦
              let last : i ≡ 31 = omega (arith, ge, le) in
              let ends : place_worker sys build h worker_proc i handle s1 ≡ undefined =
                subst (λ i. place_worker sys build h worker_proc i handle s1 ≡ undefined) (sym last)
                  (place_last sys build h creates worker_proc handle s1) in
              rw (begins, ends) refl
        ]

    -- Worker_Init begins with the two arrays.
    arrays :
        (count words scratch : ℕ) (s : Workers sys)
        → HasArenas (count + (count + words)) (2 * count + scratch) s.globals
        → IsManned P n 0 s.globals
        → (scratch_of s.globals).offset ≡ 0
        → (cs : ℕ) × (s' : Workers sys) × (worker_init sys build h worker_proc count s
            ≡ start_workers sys build h worker_proc count cs 0 s')
          × HasArenas (count + words) scratch s'.globals
          × IsManned P n 0 s'.globals
          × (s'.s_worker_count ≡ count)
          × (s'.globals ≡ record s.globals { contexts = s'.globals.contexts })
          × IsListed sys worker_proc count 0 cs s'
    unfolding worker_init thread_arena_reset
    arrays count words scratch s a m unused =
        let counted : Workers sys = record s { s_worker_count = count } in
        let (threads, s1, e1, given1, a1, at1, next1, scratch1, _, same1) =
          new-persistent sys build h count (count + words) (2 * count + scratch) counted a in
        let stored : Workers sys = record s1 { s_threads = threads } in
        let (cs, s2, e2, given2, a2, at2, reset2, next2, _, same2) =
          new-transient sys build h (2 * count) scratch (count + words) stored a1 in
        let size1 : 8 * count ≡ count * 8 = omega arith in
        let size2 : 16 * count ≡ 2 * count * 8 = omega arith in
        (
          cs,
          s2,
          rw (size1, e1, size2, e2, given1, given2) refl,
          a2,
          same-IsManned 0 stored s2 same2 (record {
            holds = (same-IsManned 0 counted s1 same1 m).holds;
            handles = (same-IsManned 0 counted s1 same1 m).handles;
          }),
          same2.count ∙ same1.count,
          same2.globals
              ∙ ap {A = Globals} (λ g. record g { contexts = s2.globals.contexts }) same1.globals,
          record {
            next = omega (arith, next2, next1, at1, same2.threads);
            first = omega (
              arith,
              at2,
              ap (λ x. x.backing_memory) reset2,
              ap (λ x. x.offset) scratch1,
              unused,
            );
            made = ap (λ t. t == 0) same2.threads ∙ given1;
            apart = omega (
              arith,
              at2,
              a1.scratch_room.room,
              a1.scratch_room.zone,
              a.apart,
              ap (λ x. x.backing_memory + x.max_capacity) scratch1,
              at1,
              same2.threads,
            );
            listed = λ j lt. absurd (omega (arith, lt));
            handle_at = λ j lt. absurd (omega (arith, lt));
            handle_of = λ j lt. absurd (omega (arith, lt));
            proc_at = λ j lt. absurd (omega (arith, lt));
            args_at = λ j lt. absurd (omega (arith, lt));
          },
        )

    -- If the main thread's arenas have room for two arrays of `count` places and a word for each thread, the
    -- transient one is empty, and the system creates the threads, Worker_Init starts up to 31 workers, each with a thread in its
    -- context, which is otherwise as it was; for 32 workers and more it comes to an undefined shift.
    pub worker_init_cases :
        (words scratch : ℕ) (s : Workers sys)
        → HasArenas (n + (n + words)) (2 * n + scratch) s.globals
        → ((j : ℕ) → 0 < j → j ≤ n → P j (s.globals.contexts.worker_context j))
        → (scratch_of s.globals).offset ≡ 0
        → (n < 32
            → (s' : Workers sys) × (worker_init sys build h worker_proc n s ≡ ran s')
              × (s'.s_worker_count ≡ n)
              × (s'.globals ≡ record s.globals { contexts = s'.globals.contexts })
              × HasArenas words scratch s'.globals
              × IsManned P n n s'.globals
              × (cs : ℕ) × IsListed sys worker_proc n n cs s')
          × (32 ≤ n → worker_init sys build h worker_proc n s ≡ undefined)
    worker_init_cases words scratch s a holds unused =
        let (cs, s1, begins, a1, m1, count, globals, l1) =
          arrays n words scratch s a
            (record { holds = holds; handles = λ j lo hi. absurd (omega (arith, lo, hi)) })
            unused in
        (
          λ few.
              let (s2, rest, a2, m2, kept, l2) =
                start_workers-some n words scratch cs 0 s1 a1 m1 (omega (arith, few)) (omega arith)
                  l1 in
              let all : 0 + n ≡ n = omega arith in
              (
                s2,
                begins ∙ rest,
                kept.count ∙ count,
                kept.globals
                    ∙ ap {A = Globals} (λ g. record g { contexts = s2.globals.contexts }) globals,
                a2,
                subst (λ i. IsManned P n i s2.globals) all m2,
                cs,
                subst (λ i. IsListed sys worker_proc n i cs s2) all l2,
              ),
          λ many.
              begins
              ∙ start_workers-undefined n words scratch cs 0 s1 a1 m1 (omega arith)
                  (omega (arith, many)),
        )
