-- ===== src/ThreadContext/Slots.antt =====
-- A worker's context in the array of Engine/src/delta/core/ThreadContext.cpp, seen as a generic one.
use project_delta.Prelude.{ℕ, zero, suc, ◌<◌, ◌≡◌, ◌≢◌, refl, arith, ◌==◌, true, false}
use project_delta.EngineTypes.{GenericExecutionContext}
use project_delta.ThreadContext.{Contexts, generic, set_worker, set_generic}

pub generic-worker_context :
    (cs : Contexts) (k : ℕ) → 0 < k → generic cs k ≡ (cs.worker_context k).generic
unfolding generic
generic-worker_context cs zero h = absurd (omega (arith, h))
generic-worker_context cs (suc i) h = refl

pub worker_context-set_generic :
    (cs : Contexts) (k : ℕ) (g : GenericExecutionContext)
    → 0 < k
    → (set_generic cs k g).worker_context k ≡ record (cs.worker_context k) { generic = g }
unfolding set_generic set_worker
worker_context-set_generic cs zero g h = absurd (omega (arith, h))
worker_context-set_generic cs (suc i) g h =
    let same : (suc i == suc i) ≡ true = ground arith in rw same refl

pub worker_context-set_generic_ne :
    (cs : Contexts) (k : ℕ) (g : GenericExecutionContext) (j : ℕ)
    → 0 < k
    → j ≢ k
    → (set_generic cs k g).worker_context j ≡ cs.worker_context j
unfolding set_generic set_worker
worker_context-set_generic_ne cs zero g j h ne = absurd (omega (arith, h))
worker_context-set_generic_ne cs (suc i) g j h ne =
    let other : (j == suc i) ≡ false = ground (arith, ne) in rw other refl

pub main_context-set_generic :
    (cs : Contexts) (k : ℕ) (g : GenericExecutionContext)
    → 0 < k
    → (set_generic cs k g).main_context ≡ cs.main_context
unfolding set_generic set_worker
main_context-set_generic cs zero g h = absurd (omega (arith, h))
main_context-set_generic cs (suc i) g h = refl
