-- ===== src/ThreadContext/Current.antt =====
-- The inline helpers of Engine/src/delta/core/ThreadContext.h that ask what kind of thread is at work. A
-- pointer to a context is its index, or none for nullptr.
use project_delta.Prelude.{
  ℕ, ◌≡◌, ◌∙◌, refl, sym, ap, Bool, true, false, if◌then◌else◌, Option, none, some,
}
use project_delta.Build.{Build, debug, Outcome, returns, aborted, assert, ◌>>◌}
use project_delta.EngineTypes.{ThreadType, main, worker}
use project_delta.ThreadContext.{Globals, generic, is_main_thread}

abbrev pub same_type : ThreadType → ThreadType → Bool
same_type main main = true
same_type main worker = false
same_type worker main = false
same_type worker worker = true

-- IsWorkerThread
unfoldable pub is_worker_thread : Globals → Bool
is_worker_thread g = elim g.current [
  | none ↦ false
  | some i ↦ same_type (generic g.contexts i).type worker
]

-- ThreadContextCast to the context of a kind of thread.
unfoldable pub thread_context_cast : Build → ThreadType → Globals → Option ℕ → Outcome (Option ℕ)
thread_context_cast build target g none = returns none
thread_context_cast build target g (some i) =
    if same_type (generic g.contexts i).type target
    then returns (some i)
    else (do assert build false; returns none)

-- The references are such casts of the current context; none stands for undefined behaviour, where nullptr
-- is read through or DLT_UNREACHABLE is reached.
-- GetMainContext
unfoldable pub get_main_context : Build → Globals → Outcome (Option ℕ)
get_main_context build g = thread_context_cast build main g g.current

-- GetWorkerContext
unfoldable pub get_worker_context : Build → Globals → Outcome (Option ℕ)
get_worker_context build g = thread_context_cast build worker g g.current

main_type : (t : ThreadType) → (elim t [ main ↦ true | worker ↦ false ]) ≡ same_type t main
main_type main = refl
main_type worker = refl

pub main_at :
    (g : Globals) (i : ℕ)
    → g.current ≡ some i
    → is_main_thread g ≡ same_type (generic g.contexts i).type main
unfolding is_main_thread
main_at g i e =
    ap
      (λ o. elim o as (λ _. Bool) [
        | none ↦ false
        | some i ↦ elim (generic g.contexts i).type [ main ↦ true | worker ↦ false ]
      ])
      e
    ∙ main_type (generic g.contexts i).type

worker_at :
    (g : Globals) (i : ℕ)
    → g.current ≡ some i
    → is_worker_thread g ≡ same_type (generic g.contexts i).type worker
unfolding is_worker_thread
worker_at g i e =
    ap
      (λ o. elim o as (λ _. Bool) [
        | none ↦ false
        | some i ↦ same_type (generic g.contexts i).type worker
      ])
      e

-- In a thread with a context GetMainContext and GetWorkerContext give that context, the first in the main
-- thread and the second in a worker, and each stops a debug build in the other.
pub contexts_by_thread :
    (g : Globals) (i : ℕ)
    → g.current ≡ some i
    → (get_main_context debug g ≡ (if is_main_thread g then returns (some i) else aborted))
      × (get_worker_context debug g ≡ (if is_worker_thread g then returns (some i) else aborted))
unfolding get_main_context get_worker_context thread_context_cast
contexts_by_thread g i e =
    let choose : Bool → Outcome (Option ℕ) = λ b. if b then returns (some i) else aborted in
    (
      ap (thread_context_cast debug main g) e ∙ ap choose (sym (main_at g i e)),
      ap (thread_context_cast debug worker g) e ∙ ap choose (sym (worker_at g i e)),
    )
