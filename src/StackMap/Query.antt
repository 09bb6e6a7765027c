-- ===== src/StackMap/Query.antt =====
-- The lookups of src/stackmap_checker/stmap.c. A pointer into an array is the record it points to
-- (records carry their index), NULL is `none`; a loop `for (i = 0; i < num; ++i)` over an array is a
-- recursion on the list, whose length is `num` (`create` makes it so), with the index `i` beside it.
use llvm_guard_handler.Base.{
  ℕ, ◌+◌, ◌%◌, ◌^◌, Bool, ◌&&◌, Option, none, some, List, [], ◌∷◌, ltb, leb, ◌==◌, if◌then◌else◌,
  add64, not64, Result, ok, ◌>>=◌, require, no_stack_map_after_call, null_pointer,
  unopt_map_record_not_found, unopt_size_record_not_found,
}
use llvm_guard_handler.StackMap.{StackMapRecord, StackSizeRecord, StackMap, StackMapPos}

-- `stmap_get_map_record`.
unfoldable pub find_map_record : ℕ → List StackMapRecord → Option StackMapRecord
find_map_record ppid [] = none
find_map_record ppid (rec ∷ recs) =
    if rec.patchpoint_id == ppid then some rec else find_map_record ppid recs

unfoldable pub get_map_record : StackMap → ℕ → Option StackMapRecord
unfolding find_map_record
get_map_record sm ppid = find_map_record ppid sm.stk_map_records

-- `stmap_get_size_record`: the loop carries `record_count`, a size_t.
unfoldable pub find_size_record : ℕ → ℕ → List StackSizeRecord → Option StackSizeRecord
find_size_record idx record_count [] = none
find_size_record idx record_count (rec ∷ recs) =
    if leb record_count (add64 idx 1) && ltb (add64 idx 1) (add64 record_count rec.record_count)
    then some rec
    else find_size_record idx (add64 record_count rec.record_count) recs

unfoldable pub get_size_record : StackMap → ℕ → Option StackSizeRecord
unfolding find_size_record
get_size_record sm idx = find_size_record idx 1 sm.stk_size_records

-- `stmap_get_size_record_in_func`.
unfoldable pub find_size_record_in_func : ℕ → List StackSizeRecord → Option StackSizeRecord
find_size_record_in_func addr [] = none
find_size_record_in_func addr (rec ∷ recs) =
    if rec.fun_addr == addr then some rec else find_size_record_in_func addr recs

unfoldable pub get_size_record_in_func : StackMap → ℕ → Option StackSizeRecord
unfolding find_size_record_in_func
get_size_record_in_func sm addr = find_size_record_in_func addr sm.stk_size_records

-- The address of a record's call: `size_rec->fun_addr + rec.instr_offset`.
abbrev pub call_addr : StackSizeRecord → StackMapRecord → ℕ
call_addr size_rec rec = add64 size_rec.fun_addr rec.instr_offset

-- `stmap_get_map_record_after_addr`; `sym_end` is `get_sym_end` of utils.c on this binary.
abbrev pub reaches : (ℕ → ℕ) → ℕ → StackSizeRecord → StackMapRecord → Bool
reaches sym_end addr size_rec rec =
    leb addr (call_addr size_rec rec)
    && leb size_rec.fun_addr addr
    && ltb addr (sym_end size_rec.fun_addr)

unfoldable pub find_after_addr :
    (ℕ → ℕ) → StackMap → ℕ → ℕ → ℕ → List StackMapRecord → Result (Option StackMapRecord)
find_after_addr sym_end sm ppid addr i [] = ok none
find_after_addr sym_end sm ppid addr i (rec ∷ recs) =
    let rest = find_after_addr sym_end sm ppid addr (i + 1) recs in
    if rec.patchpoint_id == ppid
    then (do
      size_rec ← require (get_size_record sm i) no_stack_map_after_call
      if reaches sym_end addr size_rec rec then ok (some rec) else rest)
    else rest

unfoldable pub get_map_record_after_addr :
    (ℕ → ℕ) → StackMap → ℕ → ℕ → Result (Option StackMapRecord)
unfolding find_after_addr
get_map_record_after_addr sym_end sm ppid addr =
    find_after_addr sym_end sm ppid addr 0 sm.stk_map_records

-- `stmap_get_map_record_in_func`.
unfoldable pub find_in_func :
    StackMap → ℕ → ℕ → ℕ → List StackMapRecord → Result (Option StackMapRecord)
find_in_func sm ppid fun_addr i [] = ok none
find_in_func sm ppid fun_addr i (rec ∷ recs) =
    let rest = find_in_func sm ppid fun_addr (i + 1) recs in
    if rec.patchpoint_id == ppid
    then (do
      size_rec ← require (get_size_record sm i) no_stack_map_after_call
      if size_rec.fun_addr == fun_addr then ok (some rec) else rest)
    else rest

unfoldable pub get_map_record_in_func : StackMap → ℕ → ℕ → Result (Option StackMapRecord)
unfolding find_in_func
get_map_record_in_func sm ppid fun_addr = find_in_func sm ppid fun_addr 0 sm.stk_map_records

-- `stmap_get_last_record`: the loop carries `max_addr` and `last_rec`.
unfoldable pub find_last :
    StackMap → ℕ → ℕ → List StackMapRecord → ℕ → Option StackMapRecord → Option StackMapRecord
find_last sm target i [] max_addr last_rec = last_rec
find_last sm target i (rec ∷ recs) max_addr last_rec = elim (get_size_record sm i) [
  | none ↦ none
  | some size_rec ↦
      let addr = call_addr size_rec rec in
      let better = size_rec.index == target && ltb max_addr addr in
      find_last sm target (i + 1) recs (if better then addr else max_addr)
        (if better then some rec else last_rec)
]

unfoldable pub get_last_record : StackMap → StackSizeRecord → Option StackMapRecord
unfolding find_last
get_last_record sm target_size_rec = find_last sm target_size_rec.index 0 sm.stk_map_records 0 none

-- `stmap_first_rec_after_addr`. The last record of a function is read through its pointer.
unfoldable pub find_first_after :
    StackMap → ℕ → ℕ → List StackMapRecord → Result (Option StackMapRecord)
find_first_after sm addr i [] = ok none
find_first_after sm addr i (rec ∷ recs) =
    let rest = find_first_after sm addr (i + 1) recs in
    do
      size_rec ← require (get_size_record sm i) no_stack_map_after_call
      last_rec ← require (get_last_record sm size_rec) null_pointer
      let here = leb addr (call_addr size_rec rec) && ltb size_rec.fun_addr addr
      if ltb (call_addr size_rec last_rec) addr
          then rest
          else (if here then ok (some rec) else rest)

unfoldable pub first_rec_after_addr : StackMap → ℕ → Result (Option StackMapRecord)
unfolding find_first_after
first_rec_after_addr sm addr = find_first_after sm addr 0 sm.stk_map_records

-- `stmap_get_unopt_return_addr`, after its first lookup. The indices of the position are uint32_t
-- and hold those of the records, which are below num_rec and num_func.
unfoldable pub unopt_position : StackMap → StackMapRecord → Result (Option StackMapPos)
unopt_position sm call_rec = do
  let id = not64 call_rec.patchpoint_id
  unopt_call_rec ← require (get_map_record sm id) (unopt_map_record_not_found id)
  stk_size_rec ← require (get_size_record sm unopt_call_rec.index) unopt_size_record_not_found
  ok (
      some (record {
        stk_size_record_index = stk_size_rec.index % 2 ^ 32;
        stk_map_record_index = unopt_call_rec.index % 2 ^ 32;
      }))

unfoldable pub get_unopt_return_addr : StackMap → ℕ → Result (Option StackMapPos)
unfolding unopt_position
get_unopt_return_addr sm return_addr = do
  found ← first_rec_after_addr sm return_addr
  elim found [ none ↦ ok none | some call_rec ↦ unopt_position sm call_rec ]
