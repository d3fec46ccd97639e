-- ===== src/Worker/Placed.antt =====
-- The body of the loop of Worker_Init (Engine/src/delta/core/Worker.cpp).
use mathlib.Core.Path.{subst}
use project_delta.Prelude.{
  ℕ, ◌+◌, ◌*◌, ◌^◌, ◌≤◌, ◌<◌, ◌≡◌, ◌≢◌, ◌∙◌, refl, sym, ap, arith, ◌==◌, if◌then◌else◌, Bool, true,
  false, Option, none, some, ℕ_discrete,
}
use project_delta.Word.{u32}
use project_delta.Build.{Build}
use project_delta.Build.Ran.{Ran, ran, undefined, ◌>>=◌, or_undefined}
use project_delta.EngineTypes.{WorkerExecutionContext}
use project_delta.Arena.Fast.{HasRoom}
use project_delta.ThreadContext.{thread_context_get_for_index, Globals, generic, set_generic}
use project_delta.ThreadContext.Slots.{
  generic-worker_context, worker_context-set_generic, worker_context-set_generic_ne,
  main_context-set_generic,
}
use project_delta.Win32.{Win32}
use project_delta.Win32.Layer.{IsServing, fill_handle}
use project_delta.Win32.Threads.{
  Process, store, thread_create, delta_thread_proc, thread_assign_physical_core,
}
use project_delta.Win32.Naming.{thread_set_name}
use project_delta.Win32.Affinity.{assign_physical_core}
use project_delta.Worker.Init.{worker_name, Workers, write_info, place_worker, start_worker}
use project_delta.Worker.Room.{HasArenas, scratch_of, next_of, IsSame, new-persistent}

abbrev pub with_handle : WorkerExecutionContext → ℕ → WorkerExecutionContext
with_handle c handle = record c { generic = record c.generic { thread_handle = handle } }

unplaced :
    {A B : Type 0} (b : Bool) (x : Option A) (f : A → Ran B)
    → x ≡ none
    → ((if b then undefined else or_undefined x) >>= f) ≡ undefined
unplaced true x f e = refl
unplaced false x f e = rw e refl

-- What is asked of the contexts of `n` workers holds, and the first `i` of them have a thread.
pub record IsManned (P : ℕ → WorkerExecutionContext → Type 0) (n i : ℕ) (g : Globals) : Type 0 where
  pub holds : (j : ℕ) → 0 < j → j ≤ n → P j (g.contexts.worker_context j)
  pub handles : (j : ℕ) → 0 < j → j ≤ i → (g.contexts.worker_context j).generic.thread_handle ≢ 0

-- One more worker gets its thread.
IsManned-next :
    (P : ℕ → WorkerExecutionContext → Type 0) (n i handle : ℕ) (g g' : Globals)
    → ((j x : ℕ) (c : WorkerExecutionContext) → P j c → P j (with_handle c x))
    → (handle == 0) ≡ false
    → g'.contexts.worker_context (i + 1) ≡ with_handle (g.contexts.worker_context (i + 1)) handle
    → ((j : ℕ) → j ≢ i + 1 → g'.contexts.worker_context j ≡ g.contexts.worker_context j)
    → IsManned P n i g
    → IsManned P n (i + 1) g'
IsManned-next P n i handle g g' stays given is others m = record {
  holds = λ j lo hi. elim (ℕ_discrete j (i + 1)) [
    | yes e ↦
        subst (λ c. P j c) (sym (ap g'.contexts.worker_context e ∙ is))
          (stays j handle (g.contexts.worker_context (i + 1))
            (subst (λ k. P j (g.contexts.worker_context k)) e (m.holds j lo hi)))
    | no ne ↦ subst (P j) (sym (others j ne)) (m.holds j lo hi)
  ];
  handles = λ j lo hi. elim (ℕ_discrete j (i + 1)) [
    | yes e ↦ λ null. absurd (
        ground (
          arith,
          given,
          sym (ap (λ c. c.generic.thread_handle) (ap g'.contexts.worker_context e ∙ is)) ∙ null,
        ))
    | no ne ↦
        subst (λ c. c.generic.thread_handle ≢ 0) (sym (others j ne))
          (m.handles j lo (omega (arith, hi, ne)))
  ];
}

-- The main thread's context is the same.
same-HasArenas :
    (words scratch : ℕ) (g g' : Globals)
    → g'.current ≡ g.current
    → g'.contexts.main_context ≡ g.contexts.main_context
    → HasArenas words scratch g
    → HasArenas words scratch g'
same-HasArenas words scratch g g' on is a = record {
  on = on ∙ a.on;
  type_is = ap (λ c. c.generic.type) is ∙ a.type_is;
  index_is = ap (λ c. c.generic.thread_ix) is ∙ a.index_is;
  storage = subst (λ c. HasRoom c.persistent_storage words) (sym is) a.storage;
  scratch_room = subst (λ c. HasRoom c.generic.transient_arena scratch) (sym is) a.scratch_room;
  apart =
      subst
        (λ c.
          c.generic.transient_arena.backing_memory + c.generic.transient_arena.max_capacity
          ≤ c.persistent_storage.backing_memory)
        (sym is) a.apart;
}

-- The rest of the globals, and what Worker_Init stores first.
pub record IsKept (sys : Win32) (s s' : Workers sys) : Type 0 where
  pub globals : s'.globals ≡ record s.globals { contexts = s'.globals.contexts }
  pub count : s'.s_worker_count ≡ s.s_worker_count
  pub threads : s'.s_threads ≡ s.s_threads

pub IsKept-trans :
    (sys : Win32) (s s' s'' : Workers sys) → IsKept sys s s' → IsKept sys s' s'' → IsKept sys s s''
IsKept-trans sys s s' s'' k k' = record {
  globals =
      k'.globals ∙ ap {A = Globals} (λ g. record g { contexts = s''.globals.contexts }) k.globals;
  count = k'.count ∙ k.count;
  threads = k'.threads ∙ k.threads;
}

-- One turn of the loop up to CreateThread: the handle is stored in the next word of the persistent storage,
-- and of the other words only those of the record `info` are changed, which is for WorkerProc and the
-- worker's context.
pub record Begins (sys : Win32) (worker_proc i info address : ℕ) (s s' : Workers sys) : Type 0 where
  pub at : address ≡ next_of s.globals
  pub next : next_of s'.globals ≡ next_of s.globals + 8
  pub scratch : scratch_of s'.globals ≡ scratch_of s.globals
  pub handle_at : s'.process.word address ≢ 0
  pub proc_at : address ≢ info → s'.process.word info ≡ worker_proc
  pub args_at :
      address ≢ info + 8
      → s'.process.word (info + 8) ≡ thread_context_get_for_index s.globals (i + 1)
  pub others :
      (a : ℕ) → a ≢ address → a ≢ info → a ≢ info + 8 → s'.process.word a ≡ s.process.word a

-- The rest of the turn: the handle's address is stored in the array and in the worker's context, and no
-- other word and no other worker's context is changed.
pub record Places (sys : Win32) (i handle : ℕ) (s s' : Workers sys) : Type 0 where
  pub next : next_of s'.globals ≡ next_of s.globals
  pub scratch : scratch_of s'.globals ≡ scratch_of s.globals
  pub listed : s'.process.word (s.s_threads + 8 * i) ≡ handle
  pub handle_of : (s'.globals.contexts.worker_context (i + 1)).generic.thread_handle ≡ handle
  pub other_contexts :
      (j : ℕ)
      → j ≢ i + 1
      → s'.globals.contexts.worker_context j ≡ s.globals.contexts.worker_context j
  pub others : (a : ℕ) → a ≢ s.s_threads + 8 * i → s'.process.word a ≡ s.process.word a

module _ (sys : Win32) (build : Build) (h : IsServing sys)
    (creates : (w : sys.World) (info : ℕ) → ((sys.create_thread w info).0 == 0) ≡ false)
    (worker_proc : ℕ) where
  open sys use {create_thread, set_thread_affinity_mask}

  pub created :
      (info address : ℕ) (p : Process sys)
      → (address == 0) ≡ false
      → (p' : Process sys) × (thread_create sys info (address, p) ≡ some (address, p'))
        × (p'.word address ≢ 0)
        × ((a : ℕ) → a ≢ address → p'.word a ≡ p.word a)
  unfolding thread_create
  created info address p given =
      fill_handle sys (λ w. create_thread w info) address p given (creates p.world info)

  -- The thread that is made for the record calls WorkerProc with the worker's context.
  pub delta_thread_proc-write_info :
      (info i : ℕ) (s : Workers sys)
      → delta_thread_proc sys info (write_info sys build h worker_proc info i s).process
        ≡ (worker_proc, thread_context_get_for_index s.globals (i + 1))
  unfolding delta_thread_proc write_info
  delta_thread_proc-write_info info i s =
      let first : (info == info + 8) ≡ false = ground arith in
      let same : (info == info) ≡ true = ground arith in
      let second : (info + 8 == info + 8) ≡ true = ground arith in rw (first, same, second) refl

  -- The 32nd worker has no core.
  pub place_last :
      (handle : ℕ) (s : Workers sys) → place_worker sys build h worker_proc 31 handle s ≡ undefined
  unfolding place_worker thread_set_name
  place_last handle s =
      let stored : Process sys = store sys s.process (s.s_threads + 8 * 31) handle in
      unplaced (handle == 0) (thread_assign_physical_core sys handle 32 stored) _
        ((assign_physical_core sys handle 32 stored (omega arith)).1 (omega arith))

  pub place_some :
      (P : ℕ → WorkerExecutionContext → Type 0) (n words scratch i handle : ℕ) (s : Workers sys)
      → ((j x : ℕ) (c : WorkerExecutionContext) → P j c → P j (with_handle c x))
      → i < 31
      → (handle == 0) ≡ false
      → HasArenas words scratch s.globals
      → IsManned P n i s.globals
      → (s' : Workers sys) × (place_worker sys build h worker_proc i handle s ≡ ran s')
        × HasArenas words scratch s'.globals
        × IsManned P n (i + 1) s'.globals
        × IsKept sys s s'
        × Places sys i handle s s'
  unfolding place_worker thread_set_name
  place_some P n words scratch i handle s stays small given room m =
      let stored : Process sys = store sys s.process (s.s_threads + 8 * i) handle in
      let core : u32 (i + 1) ≡ i + 1 = omega (arith, small) in
      let assigned =
        (assign_physical_core sys handle (i + 1) stored (omega (arith, small))).0
          (omega (arith, small)) in
      let cs = s.globals.contexts in
      let own = record (generic cs (i + 1)) { thread_handle = handle } in
      let a : ℕ = s.s_threads + 8 * i in
      let main_is = main_context-set_generic cs (i + 1) own (omega arith) in
      let is : (set_generic cs (i + 1) own).worker_context (i + 1)
          ≡ with_handle (cs.worker_context (i + 1)) handle =
        worker_context-set_generic cs (i + 1) own (omega arith)
        ∙ ap
            (λ g. record (cs.worker_context (i + 1)) {
              generic = record g { thread_handle = handle };
            })
            (generic-worker_context cs (i + 1) (omega arith)) in
      let others = λ (j : ℕ) (ne : j ≢ i + 1).
        worker_context-set_generic_ne cs (i + 1) own j (omega arith) ne in
      (
        record s {
          process = thread_set_name sys handle worker_name (record stored {
            world = set_thread_affinity_mask stored.world (stored.word handle) (4 ^ (i + 1));
          });
          globals = record s.globals { contexts = set_generic cs (i + 1) own };
        },
        rw (given, core, assigned) refl,
        same-HasArenas words scratch s.globals
            (record s.globals { contexts = set_generic cs (i + 1) own }) refl main_is room,
        IsManned-next P n i handle s.globals
            (record s.globals { contexts = set_generic cs (i + 1) own }) stays given is others m,
        record { globals = refl; count = refl; threads = refl },
        record {
          next =
              ap (λ c. c.persistent_storage.backing_memory + c.persistent_storage.offset) main_is;
          scratch = ap (λ c. c.generic.transient_arena) main_is;
          handle_of = ap (λ c. c.generic.thread_handle) is;
          other_contexts = others;
          listed = let at : (a == a) ≡ true = ground arith in rw at refl;
          others = λ b ne. let other : (b == a) ≡ false = ground (arith, ne) in rw other refl;
        },
      )

  -- `new`, CreateThread and the rest of the loop's body.
  pub begun :
      (words scratch cs i : ℕ) (s : Workers sys)
      → HasArenas (1 + words) scratch s.globals
      → (handle : ℕ) × (s' : Workers sys) × (start_worker sys build h worker_proc cs i s
          ≡ place_worker sys build h worker_proc i handle s')
        × ((handle == 0) ≡ false)
        × HasArenas words scratch s'.globals
        × IsSame sys build h s s'
        × Begins sys worker_proc i (cs + 16 * i) handle s s'
  unfolding start_worker write_info
  begun words scratch cs i s a =
      let info : ℕ = cs + 16 * i in
      let (address, s1, made, given, a1, at, next, scratch_same, words_same, same) =
        new-persistent sys build h 1 words scratch (write_info sys build h worker_proc info i s)
          a in
      let (p, e, stored, others) = created info address s1.process given in
      (
        address,
        record s1 { process = p },
        rw (made, e) refl,
        given,
        a1,
        record {
          globals = same.globals;
          workers = same.workers;
          count = same.count;
          threads = same.threads;
        },
        record {
          at = at;
          next = next;
          scratch = scratch_same;
          handle_at = stored;
          proc_at = λ ne.
              let first : (info == info + 8) ≡ false = ground arith in
              let here : (info == info) ≡ true = ground arith in
              others info (λ e. ne (sym e))
              ∙ ap (λ q. q.word info) words_same
              ∙ rw (first, here) refl;
          args_at = λ ne.
              let here : (info + 8 == info + 8) ≡ true = ground arith in
              others (info + 8) (λ e. ne (sym e))
              ∙ ap (λ q. q.word (info + 8)) words_same
              ∙ rw here refl;
          others = λ b ne ne1 ne2.
              let first : (b == info) ≡ false = ground (arith, ne1) in
              let second : (b == info + 8) ≡ false = ground (arith, ne2) in
              others b ne ∙ ap (λ q. q.word b) words_same ∙ rw (first, second) refl;
        },
      )
