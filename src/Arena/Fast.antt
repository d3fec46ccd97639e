-- ===== src/Arena/Fast.antt =====
-- ThreadArena_Allocate (Engine/src/delta/core/ThreadContext.cpp) in an arena whose committed memory is
-- enough, for sizes in whole words.
use project_delta.Prelude.{ℕ, ◌+◌, ◌*◌, ◌^◌, ◌%◌, ◌≤◌, ◌<◌, ◌≡◌, refl, arith, ltb, leb, true, false}
use project_delta.Word.{add64}
use project_delta.Build.{Build, returns, assert-true}
use project_delta.Pal.{Pal}
use project_delta.EngineTypes.{ThreadArena}
use project_delta.Arena.{
  aligned_address, total_space, bump, thread_arena_allocate, thread_arena_reset,
}
use project_delta.Arena.Block.{Fits, aligned-IsRoundedUp, total_space-end}

-- There are `words` committed words behind the cursor, which stands at a word, as the first address
-- does.
pub record HasRoom (a : ThreadArena) (words : ℕ) : Type 0 where
  pub somewhere : 0 < a.backing_memory
  pub base : a.backing_memory % 8 ≡ 0
  pub at_word : (a.backing_memory + a.offset) % 8 ≡ 0
  pub room : a.offset + words * 8 ≤ a.capacity
  pub zone : a.capacity ≤ a.max_capacity
  pub small : a.backing_memory + 2 * a.max_capacity + 8 ≤ 2 ^ 64

HasRoom-Fits : (a : ThreadArena) (words rest : ℕ) → HasRoom a (words + rest) → Fits a (words * 8) 3
HasRoom-Fits a words rest h = record {
  shift = omega arith;
  room = omega (arith, h);
  cursor = omega (arith, h);
}

-- Such a request gets its words at the cursor, which is moved behind them, and the rest of the room is
-- left.
pub thread_arena_allocate_fast :
    (pal : Pal) (build : Build) (page_size : ℕ) (a : ThreadArena) (words rest : ℕ) (w : pal.World)
    → HasRoom a (words + rest)
    → (p : ℕ) × (a' : ThreadArena) × (thread_arena_allocate pal build page_size a (words * 8) 8 w
        ≡ returns (record { ptr = p; arena = a'; world = w }))
      × (p ≡ a.backing_memory + a.offset)
      × HasRoom a' rest
      × (thread_arena_reset a' ≡ thread_arena_reset a)
      × (a'.backing_memory + a'.offset ≡ a.backing_memory + a.offset + words * 8)
unfolding thread_arena_allocate bump thread_arena_reset
thread_arena_allocate_fast pal build page_size a words rest w h =
    let f = HasRoom-Fits a words rest h in
    let rounded = aligned-IsRoundedUp a (words * 8) 3 f in
    let aligned = aligned_address a 8 in
    let total = total_space a (words * 8) 8 in
    let at : aligned ≡ a.backing_memory + a.offset =
      omega (arith, h, rounded.multiple, rounded.above, rounded.least) in
    let is : total ≡ words * 8 = omega (arith, total_space-end a (words * 8) 3 f, at) in
    let sum : add64 a.offset total ≡ a.offset + words * 8 = omega (arith, is, h) in
    let fits : leb (add64 a.offset total) a.max_capacity ≡ true = ground (arith, h, sum) in
    let fast : ltb a.capacity total ≡ false = ground (arith, h, is) in
    (
      aligned,
      record a { offset = add64 a.offset total },
      rw (assert-true build (leb (add64 a.offset total) a.max_capacity) fits) (rw fast refl),
      at,
      record {
        somewhere = h.somewhere;
        base = h.base;
        at_word = omega (arith, h, sum);
        room = omega (arith, h, sum);
        zone = h.zone;
        small = h.small;
      },
      refl,
      omega (arith, sum),
    )

-- An arena that is reset has the room that it had, and more.
pub thread_arena_reset-HasRoom :
    (a : ThreadArena) (words : ℕ) → HasRoom a words → HasRoom (thread_arena_reset a) words
unfolding thread_arena_reset
thread_arena_reset-HasRoom a words h = record {
  somewhere = h.somewhere;
  base = h.base;
  at_word = omega (arith, h.base);
  room = omega (arith, h.room);
  zone = h.zone;
  small = h.small;
}
