-- ===== src/StackMap/RoundTrip.antt =====
-- `stmap_create` of stmap.c on the bytes of the section's format.
mod Arrays
mod Records
use llvm_guard_handler.Base.{ℕ, ◌+◌, ◌*◌, ◌≡◌, refl, ◌∙◌, ap, List, [], arith}
use llvm_guard_handler.Memory.{Memory, to_bytes, read}
use llvm_guard_handler.Memory.Laws.{Holds, Holds-word, Fits-1, Fits-2, Fits-4}
use llvm_guard_handler.StackMap.{StackMap}
use llvm_guard_handler.StackMap.Create.{create}
use llvm_guard_handler.StackMap.Format.{StackMapFits, put_stack_map}
use Arrays.{read_size_records_lem, read_constants_lem}
use Records.{read_map_records_lem}

-- Where memory holds, from `start` on, the bytes that the format gives to a stack map whose fields
-- are in range, `stmap_create` at `start` returns that stack map, whatever bytes follow.
pub create-put_stack_map :
    (m : Memory) (start : ℕ) (sm : StackMap) (rest : List ℕ)
    → StackMapFits sm
    → Holds m start (put_stack_map sm rest)
    → create m start ≡ sm
unfolding create put_stack_map
create-put_stack_map m start sm rest fits h =
    let (f0, h0) = Holds-word m start (start + 1) 1 sm.version _ refl (Fits-1 _ fits.version) h in
    let (f1, h1) =
      Holds-word m (start + 1) (start + 2) 1 sm.reserved _ (omega arith) (Fits-1 _ fits.reserved)
        h0 in
    let (f2, h2) =
      Holds-word m (start + 2) (start + 4) 2 sm.reserved2 _ (omega arith) (Fits-2 _ fits.reserved2)
        h1 in
    let (f3, h3) =
      Holds-word m (start + 4) (start + 8) 4 sm.num_func _ (omega arith) (Fits-4 _ fits.num_func)
        h2 in
    let (f4, h4) =
      Holds-word m (start + 8) (start + 12) 4 sm.num_const _ (omega arith) (Fits-4 _ fits.num_const)
        h3 in
    let (f5, h5) =
      Holds-word m (start + 12) (start + 16) 4 sm.num_rec _ (omega arith) (Fits-4 _ fits.num_rec)
        h4 in
    let c = start + 16 + sm.num_func * 24 in
    let (f6, h6) =
      read_size_records_lem m (start + 16) c 0 sm.num_func sm.stk_size_records _ fits.size_records
        fits.func_length refl h5 in
    let (f7, h7) =
      read_constants_lem m c (c + 8 * sm.num_const) sm.num_const sm.constants _ fits.constants
        fits.const_length (omega arith) h6 in
    let f8 =
      read_map_records_lem m (c + 8 * sm.num_const) 0 sm.num_rec sm.stk_map_records rest
        fits.map_records fits.rec_length h7 in
    rw (f3, f4, f5)
      (λ j. record {
        version = f0 j;
        reserved = f1 j;
        reserved2 = f2 j;
        num_func = sm.num_func;
        num_const = sm.num_const;
        num_rec = sm.num_rec;
        stk_size_records = f6 j;
        constants = f7 j;
        stk_map_records = f8 j;
      })
