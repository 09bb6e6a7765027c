-- ===== src/Examples/Queries.antt =====
-- The theorems on the stack map at the sample.
use llvm_guard_handler.Base.{◌+◌, ◌≡◌, refl, ◌&&◌, ◌==◌, some, [], arith, ok, get_or, get_elem?}
use llvm_guard_handler.Memory.{Memory}
use llvm_guard_handler.Memory.Laws.{Holds, Holds-get_or}
use llvm_guard_handler.StackMap.Create.{create}
use llvm_guard_handler.StackMap.Format.{StackMapFits, put_stack_map}
use llvm_guard_handler.StackMap.RoundTrip.{create-put_stack_map}
use llvm_guard_handler.StackMap.Query.{
  get_size_record, get_map_record_in_func, get_map_record_after_addr, get_last_record,
  first_rec_after_addr,
}
use llvm_guard_handler.StackMap.Sites.{owners, sites_of, sites, first_site, in_symbol, IsValid}
use llvm_guard_handler.StackMap.Sites.Owners.{get_size_record-owners}
use llvm_guard_handler.StackMap.Sites.Search.{
  get_map_record_in_func-first_site, get_map_record_after_addr-first_site,
}
use llvm_guard_handler.StackMap.Sites.Last.{IsLast, get_last_record-IsLast}
use llvm_guard_handler.StackMap.Sites.First.{after, first_rec_after_addr-first_site}
use llvm_guard_handler.Examples.Maps.{sample, opt_rec, unopt_fun}

sample-Fits : StackMapFits sample
sample-Fits = omega arith

abbrev image : Memory
image x = get_or (put_stack_map sample []) x 0

image-Holds : Holds image 0 (put_stack_map sample [])
image-Holds =
    Holds-get_or (put_stack_map sample []) 0 (put_stack_map sample [])
      (λ j. let e : 0 + j ≡ j = omega arith in rw e)

create-put_stack_map_example : create image 0 ≡ sample
create-put_stack_map_example = create-put_stack_map image 0 sample [] sample-Fits image-Holds

pub sample-IsValid : IsValid sample
unfolding sites owners sites_of
sample-IsValid = record {
  owned = omega arith;
  counts = omega arith;
  size_index = (refl, (refl, tt));
  map_index = (refl, (refl, tt));
  addr_pos = (omega arith, (omega arith, tt));
  addr_top = (omega arith, (omega arith, tt));
  ids = (omega arith, (omega arith, tt));
}

get_size_record-owners_example :
    get_size_record sample 1 ≡ get_elem? (owners sample.stk_size_records) 1
get_size_record-owners_example = get_size_record-owners sample 1 sample-IsValid.counts (omega arith)

get_map_record_in_func-first_site_example :
    get_map_record_in_func sample 1 4096
    ≡ ok (first_site (λ s. (s.rec.patchpoint_id == 1) && (s.owner.fun_addr == 4096)) (sites sample))
get_map_record_in_func-first_site_example =
    get_map_record_in_func-first_site sample 1 4096 sample-IsValid

get_map_record_after_addr-first_site_example :
    get_map_record_after_addr (λ a. a + 64) sample 1 4100
    ≡ ok (first_site (in_symbol (λ a. a + 64) 1 4100) (sites sample))
get_map_record_after_addr-first_site_example =
    get_map_record_after_addr-first_site (λ a. a + 64) sample 1 4100 sample-IsValid

get_last_record-IsLast_example : IsLast (sites sample) 1 (get_last_record sample unopt_fun)
get_last_record-IsLast_example = get_last_record-IsLast sample unopt_fun sample-IsValid

first_rec_after_addr-first_site_example :
    first_rec_after_addr sample 4100 ≡ ok (first_site (after 4100) (sites sample))
first_rec_after_addr-first_site_example = first_rec_after_addr-first_site sample sample-IsValid 4100

first_rec_after_addr_finds : first_rec_after_addr sample 4100 ≡ ok (some opt_rec)
unfolding first_rec_after_addr get_size_record get_last_record
first_rec_after_addr_finds = refl
