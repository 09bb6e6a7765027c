-- ===== src/StackMap/Sites.antt =====
-- The abstract view of a stack map: its call sites, each a stack map record with the function that
-- it belongs to. The lookups of stmap.c are held to plain searches of this list.
pub mod Found
pub mod First
pub mod Last
pub mod Owners
pub mod Search
pub mod Twin
use llvm_guard_handler.Base.{
  ℕ, ◌+◌, ◌^◌, ◌≤◌, ◌<◌, ◌≡◌, Bool, Option, none, some, List, [], ◌∷◌, ◌++◌, if◌then◌else◌, length,
  replicate, All, ◌&&◌, ◌==◌, leb, ltb,
}
use llvm_guard_handler.StackMap.{StackMapRecord, StackSizeRecord, StackMap}
use llvm_guard_handler.StackMap.Query.{call_addr}
use llvm_guard_handler.StackMap.Format.{AllFrom}

pub record Site : Type 0 where
  pub owner : StackSizeRecord
  pub rec : StackMapRecord

-- The function of each stack map record, in the order of the records: a function that announces n
-- records owns the next n.
unfoldable pub owners : List StackSizeRecord → List StackSizeRecord
owners [] = []
owners (r ∷ rs) = replicate r.record_count r ++ owners rs

unfoldable pub sites_of : List StackSizeRecord → List StackMapRecord → List Site
sites_of [] rs = []
sites_of (o ∷ os) [] = []
sites_of (o ∷ os) (r ∷ rs) = record { owner = o; rec = r } ∷ sites_of os rs

unfoldable pub sites : StackMap → List Site
unfolding sites_of owners
sites sm = sites_of (owners sm.stk_size_records) sm.stk_map_records

-- The first site that passes a test.
unfoldable pub first_site : (Site → Bool) → List Site → Option StackMapRecord
first_site test [] = none
first_site test (s ∷ ss) = if test s then some s.rec else first_site test ss

abbrev pub site_addr : Site → ℕ
site_addr s = call_addr s.owner s.rec

-- A call site with ID `ppid` that stands at `addr` or above it, in a function which starts at `addr`
-- or below it and whose symbol ends above it.
abbrev pub in_symbol : (ℕ → ℕ) → ℕ → ℕ → Site → Bool
in_symbol sym_end ppid addr s =
    (s.rec.patchpoint_id == ppid)
    && (leb addr (site_addr s)
        && (leb s.owner.fun_addr addr && ltb addr (sym_end s.owner.fun_addr)))

-- What `create` and a compiler give: every record has a function, counts do not wrap, records carry
-- their positions, no call stands at address 0 or at the last address, and IDs are words.
pub record IsValid (sm : StackMap) : Type 0 where
  pub owned : length sm.stk_map_records ≤ length (owners sm.stk_size_records)
  pub counts : length (owners sm.stk_size_records) + 1 < 2 ^ 64
  pub size_index : AllFrom (λ i r. r.index ≡ i) 0 sm.stk_size_records
  pub map_index : AllFrom (λ i r. r.index ≡ i) 0 sm.stk_map_records
  pub addr_pos : All (λ s. 0 < site_addr s) (sites sm)
  pub addr_top : All (λ s. site_addr s + 1 < 2 ^ 64) (sites sm)
  pub ids : All (λ s. s.rec.patchpoint_id < 2 ^ 64) (sites sm)
