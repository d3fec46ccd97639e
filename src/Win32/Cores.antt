-- ===== src/Win32/Cores.antt =====
-- The loop of Initialize (Engine/src/delta/platform/os_win32.cpp) over the records that
-- GetLogicalProcessorInformationEx has left in a buffer.
use project_delta.Prelude.{
  ℕ, zero, suc, ◌+◌, ◌<◌, ◌≡◌, ◌∙◌, ap, refl, arith, ltb, ◌==◌, if◌then◌else◌, Bool, true, false,
  Option, none, some, List, [], ◌∷◌,
}
use project_delta.Word.{u32}
use project_delta.Win32.{CoreInfo}

abbrev pub relation_processor_core : ℕ
relation_processor_core = 0

pub record Counts : Type 0 where
  pub physical_cores : ℕ
  pub logical_processors : ℕ

module _ (popcnt64 : ℕ → ℕ) where
  unfoldable pub count_groups : List ℕ → ℕ → ℕ
  count_groups [] logical_processors = logical_processors
  count_groups (mask ∷ masks) logical_processors =
      count_groups masks (u32 (logical_processors + popcnt64 mask))

  unfoldable pub count_record : CoreInfo → Counts → Counts
  count_record current c =
      if current.relationship == relation_processor_core
      then record {
        physical_cores = u32 (c.physical_cores + 1);
        logical_processors = count_groups current.masks c.logical_processors;
      }
      else c

  -- `buffer` is the record that is read at each offset in the buffer.
  unfoldable pub count_loop : ℕ → (ℕ → CoreInfo) → ℕ → ℕ → Counts → Option Counts
  count_loop zero buffer buffer_size ptr c = none
  count_loop (suc fuel) buffer buffer_size ptr c =
      let current = buffer ptr in
      let rest = count_loop fuel buffer buffer_size (ptr + current.size) (count_record current c) in
      if ltb ptr buffer_size then rest else some c

-- Counts that have wrapped.
abbrev pub counted : ℕ → ℕ → Counts
counted p l = record { physical_cores = u32 p; logical_processors = u32 l }

-- Records that lie one behind another from an offset up to the end of the buffer, none of them empty.
pub data IsLaid (buffer : ℕ → CoreInfo) (buffer_size : ℕ) : ℕ → List CoreInfo → Type 0 where
  laid_end : IsLaid buffer buffer_size buffer_size []
  laid :
      {ptr : ℕ} {records : List CoreInfo}
      → ptr < buffer_size
      → 0 < (buffer ptr).size
      → IsLaid buffer buffer_size (ptr + (buffer ptr).size) records
      → IsLaid buffer buffer_size ptr (buffer ptr ∷ records)

-- How many records are of a core, and how many bits their masks have together.
unfoldable pub cores : List CoreInfo → ℕ
cores [] = 0
cores (r ∷ rs) = (if r.relationship == relation_processor_core then 1 else 0) + cores rs

module _ (popcnt64 : ℕ → ℕ) where
  unfoldable pub bits : List ℕ → ℕ
  bits [] = 0
  bits (mask ∷ masks) = popcnt64 mask + bits masks

  unfoldable pub processors : List CoreInfo → ℕ
  processors [] = 0
  processors (r ∷ rs) =
      (if r.relationship == relation_processor_core then bits r.masks else 0) + processors rs

  count_groups-bits :
      (masks : List ℕ) (l n : ℕ) → l ≡ u32 n → count_groups popcnt64 masks l ≡ u32 (n + bits masks)
  unfolding count_groups bits
  count_groups-bits [] l n h = omega (arith, h)
  count_groups-bits (mask ∷ masks) l n h =
      count_groups-bits masks (u32 (l + popcnt64 mask)) (n + popcnt64 mask) (omega (arith, h))
      ∙ ap u32 (omega arith)

  count_record_cases :
      (b : Bool) (masks : List ℕ) (p l : ℕ)
      → (if b
          then record {
            physical_cores = u32 (u32 p + 1);
            logical_processors = count_groups popcnt64 masks (u32 l);
          }
          else counted p l)
        ≡ counted (p + (if b then 1 else 0)) (l + (if b then bits masks else 0))
  count_record_cases true masks p l =
      let cores : u32 (u32 p + 1) ≡ u32 (p + 1) = omega arith in
      λ i. record {
        physical_cores = cores i;
        logical_processors = count_groups-bits masks (u32 l) l refl i;
      }
  count_record_cases false masks p l =
      let same : (n : ℕ) → n ≡ n + 0 = λ n. omega arith in λ i. counted (same p i) (same l i)

  count_record-counts :
      (r : CoreInfo) (p l : ℕ)
      → count_record popcnt64 r (counted p l)
        ≡ counted
            (p + (if r.relationship == relation_processor_core then 1 else 0))
            (l + (if r.relationship == relation_processor_core then bits r.masks else 0))
  unfolding count_record
  count_record-counts r p l =
      count_record_cases (r.relationship == relation_processor_core) r.masks p l

  -- With the records one behind another from `ptr` up to the buffer's end, none of them of size 0, and
  -- more fuel than bytes, the loop ends with the number of records that are of a core, and the bits that
  -- the masks of these have set, added to what was counted before, modulo 2 ^ 32.
  pub count_loop-counts :
      (fuel : ℕ) (buffer : ℕ → CoreInfo) (buffer_size ptr p l : ℕ) (records : List CoreInfo)
      → IsLaid buffer buffer_size ptr records
      → buffer_size < ptr + fuel
      → count_loop popcnt64 fuel buffer buffer_size ptr (counted p l)
        ≡ some (counted (p + cores records) (l + processors records))
  unfolding count_loop cores processors
  count_loop-counts zero buffer buffer_size ptr p l _ laid_end h = absurd (omega (arith, h))
  count_loop-counts zero buffer buffer_size ptr p l _ (laid lt size lies) h =
      absurd (omega (arith, h, lt))
  count_loop-counts (suc fuel) buffer buffer_size ptr p l _ laid_end h =
      let same : (n : ℕ) → n ≡ n + 0 = λ n. omega arith in
      let ends : ltb buffer_size buffer_size ≡ false = ground arith in
      rw ends (λ i. some (counted (same p i) (same l i)))
  count_loop-counts (suc fuel) buffer buffer_size ptr p l _ (laid {records = rs} lt size lies) h =
      let turns : ltb ptr buffer_size ≡ true = ground arith in
      let r : CoreInfo = buffer ptr in
      let one : ℕ = if r.relationship == relation_processor_core then 1 else 0 in
      let own : ℕ = if r.relationship == relation_processor_core then bits r.masks else 0 in
      let rest =
        count_loop-counts fuel buffer buffer_size (ptr + (buffer ptr).size) (p + one) (l + own) rs
          lies (omega (arith, h, size)) in
      let sum : (a b c : ℕ) → a + b + c ≡ a + (b + c) = λ a b c. omega arith in
      rw (turns, count_record-counts (buffer ptr) p l, rest)
        (λ i. some (counted (sum p one (cores rs) i) (sum l own (processors rs) i)))
