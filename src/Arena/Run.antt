-- ===== src/Arena/Run.antt =====
-- A run of requests to one arena between two resets (ThreadArena_Allocate, ThreadArena_Reset).
use project_delta.Prelude.{
  ℕ, ◌+◌, ◌^◌, ◌%◌, ◌≤◌, ◌<◌, ◌==◌, if◌then◌else◌, ◌≡◌, ◌≢◌, ◌∙◌, ap, Bool-cases, inl, inr, refl,
  arith, List, [], ◌∷◌,
}
use project_delta.Build.{Build, Outcome, debug, returns, ◌>>=◌, >>=-eq-returns, returns-injective}
use project_delta.Pal.{Pal}
use project_delta.EngineTypes.{ThreadArena}
use project_delta.Arena.{Allocated, thread_arena_allocate}
use project_delta.Arena.Block.{Fits}
use project_delta.Arena.Linear.{Serves, thread_arena_allocate-Serves}

-- A request for `size` bytes at an alignment of `2 ^ shift`.
pub record Request : Type 0 where
  pub size : ℕ
  pub shift : ℕ

pub record Block : Type 0 where
  pub start : ℕ
  pub request : Request

module _ (pal : Pal) where
  pub record Served : Type 0 where
    pub blocks : List Block
    pub arena : ThreadArena
    pub world : pal.World

  abbrev keep_block : ℕ → Request → Served → Served
  keep_block p q s = record s {
    blocks = if p == 0 then s.blocks else record { start = p; request = q } ∷ s.blocks;
  }

  -- The requests one after the other; a request that gets null has no block.
  unfoldable pub allocate_all : Build → ℕ → ThreadArena → List Request → pal.World → Outcome Served
  allocate_all build page_size a [] w = returns (record { blocks = []; arena = a; world = w })
  allocate_all build page_size a (q ∷ qs) w = do
    r ← thread_arena_allocate pal build page_size a q.size (2 ^ q.shift) w
    s ← allocate_all build page_size r.arena qs r.world
    returns (keep_block r.ptr q s)

-- Every request fits the zone of the arena.
abbrev pub AllFit : ℕ → ℕ → List Request → Type 0
AllFit base limit [] = Unit {0}
AllFit base limit (q ∷ qs) =
    (q.shift < 64) × (base + limit + 2 ^ q.shift + q.size ≤ 2 ^ 64) × AllFit base limit qs

-- The blocks lie one behind the other from `low` up to `high`, each aligned as asked.
abbrev pub IsLaidOut : ℕ → ℕ → List Block → Type 0
IsLaidOut low high [] = low ≤ high
IsLaidOut low high (b ∷ bs) =
    (low ≤ b.start)
    × (b.start % 2 ^ b.request.shift ≡ 0)
    × IsLaidOut (b.start + b.request.size) high bs

IsLaidOut-mono :
    (low low' high : ℕ) (bs : List Block)
    → low ≤ low'
    → IsLaidOut low' high bs
    → IsLaidOut low high bs
IsLaidOut-mono low low' high [] h l = omega arith
IsLaidOut-mono low low' high (b ∷ bs) h l = (omega arith, l.1, l.2)

-- What a served request leaves for the next one.
record IsServed {pal : Pal} (base limit : ℕ) (a : ThreadArena) (q : Request) (r : Allocated pal)
    : Type 0 where
  same_base : r.arena.backing_memory ≡ base
  same_limit : r.arena.max_capacity ≡ limit
  forward : a.offset ≤ r.arena.offset
  within : r.arena.offset ≤ limit
  block :
      r.ptr ≢ 0
      → (base + a.offset ≤ r.ptr)
        × (r.ptr % 2 ^ q.shift ≡ 0)
        × (r.ptr + q.size ≡ base + r.arena.offset)

module _ {pal : Pal} (base limit : ℕ) (a : ThreadArena) (q : Request) (r : Allocated pal) where
  Serves-IsServed :
      a.backing_memory ≡ base
      → a.max_capacity ≡ limit
      → a.offset ≤ limit
      → Serves a q.size q.shift r
      → IsServed base limit a q r
  Serves-IsServed eb el cursor (inl (z, same)) = record {
    same_base = ap (λ x. x.backing_memory) same ∙ eb;
    same_limit = ap (λ x. x.max_capacity) same ∙ el;
    forward = rw same (omega arith);
    within = rw same cursor;
    block = λ ne. absurd (ne z);
  }
  Serves-IsServed eb el cursor (inr b) = record {
    same_base = b.same_zone.0 ∙ eb;
    same_limit = b.same_zone.1 ∙ el;
    forward = omega arith;
    within = omega arith;
    block = λ ne. (omega arith, b.aligned, omega arith);
  }

  IsLaidOut-keep_block :
      (s : Served pal)
      → IsServed base limit a q r
      → IsLaidOut (base + r.arena.offset) (base + s.arena.offset) s.blocks
      → IsLaidOut (base + a.offset) (base + s.arena.offset) (keep_block pal r.ptr q s).blocks
  IsLaidOut-keep_block s v l = elim (Bool-cases (r.ptr == 0)) [
    | inl null ↦ rw null (IsLaidOut-mono _ _ _ s.blocks (omega arith) l)
    | inr block ↦
        let (low, aligned, end) = v.block (ground arith) in rw (block, end) (low, aligned, l)
  ]

run-IsLaidOut :
    (pal : Pal) (page_size base limit : ℕ) (a : ThreadArena) (qs : List Request) (w : pal.World)
    (s : Served pal)
    → a.backing_memory ≡ base
    → a.max_capacity ≡ limit
    → a.offset ≤ limit
    → AllFit base limit qs
    → allocate_all pal debug page_size a qs w ≡ returns s
    → IsLaidOut (base + a.offset) (base + s.arena.offset) s.blocks × (s.arena.offset ≤ limit)
unfolding allocate_all
run-IsLaidOut pal page_size base limit a [] w s eb el cursor fits h =
    let same = returns-injective h in rw (← same) (omega arith, cursor)
run-IsLaidOut pal page_size base limit a (q ∷ qs) w s eb el cursor (shift, room, fits) h =
    let f : Fits a q.size q.shift = record {
      shift = shift;
      room = omega arith;
      cursor = omega arith;
    } in
    let (r, served, h') = >>=-eq-returns _ _ h in
    let (s', rest, h'') = >>=-eq-returns _ _ h' in
    let v =
      Serves-IsServed base limit a q r eb el cursor
        (thread_arena_allocate-Serves pal a q.size q.shift f page_size w served) in
    let (laid, within) =
      run-IsLaidOut pal page_size base limit r.arena qs r.world s' v.same_base v.same_limit v.within
        fits rest in
    rw (← returns-injective h'') (IsLaidOut-keep_block base limit a q r s' v laid, within)

-- In a debug build a run of requests that returns has handed out blocks that are aligned, lie inside
-- the zone of the arena, and one behind the other, so that no two of them share a byte; they all lie
-- below the cursor that it leaves.
pub allocate_all-IsLaidOut :
    (pal : Pal) (page_size : ℕ) (a : ThreadArena) (qs : List Request) (w : pal.World)
    (s : Served pal)
    → a.offset ≤ a.max_capacity
    → AllFit a.backing_memory a.max_capacity qs
    → allocate_all pal debug page_size a qs w ≡ returns s
    → IsLaidOut (a.backing_memory + a.offset) (a.backing_memory + s.arena.offset) s.blocks
      × (s.arena.offset ≤ a.max_capacity)
allocate_all-IsLaidOut pal page_size a qs w s cursor fits h =
    run-IsLaidOut pal page_size a.backing_memory a.max_capacity a qs w s refl refl cursor fits h
