-- ===== src/StackMap/RoundTrip/Records.antt =====
-- The stack map records, whose size depends on their contents.
use llvm_guard_handler.Base.{
  ℕ, zero, suc, ◌+◌, ◌-◌, ◌*◌, ◌%◌, ◌≡◌, refl, ap₂, sym, List, [], ◌∷◌, ◌++◌, arith, length,
  length-replicate,
}
use llvm_guard_handler.Memory.{Memory}
use llvm_guard_handler.Memory.Laws.{Holds, Holds-append, Holds-word, Fits-2, Fits-4, Fits-8}
use llvm_guard_handler.StackMap.{StackMapRecord}
use llvm_guard_handler.StackMap.Create.{
  location_size, liveout_size, after_locations, after_liveouts, read_map_record, read_map_records,
}
use llvm_guard_handler.StackMap.Format.{padding, put_all, put_map_record, MapRecordFits, AllFrom}
use llvm_guard_handler.StackMap.RoundTrip.Arrays.{read_locations_lem, read_liveouts_lem}

module _ (m : Memory) where
  -- `addr` skips exactly the padding behind the locations and behind the live-outs.
  Holds-after_locations :
      (a n : ℕ) (rest : List ℕ)
      → Holds m (a + n * location_size) (padding (12 * n) ++ rest)
      → Holds m (after_locations a n) rest
  unfolding padding after_locations
  Holds-after_locations a n rest h =
      (Holds-append m (a + n * 12) (after_locations a n) (padding (12 * n)) rest
        (ground (arith, length-replicate {A = ℕ} ((8 - 12 * n % 8) % 8) 0)) h).1

  Holds-after_liveouts :
      (a n : ℕ) (rest : List ℕ)
      → Holds m (a + n * liveout_size) (padding (4 + 4 * n) ++ rest)
      → Holds m (after_liveouts a n) rest
  unfolding padding after_liveouts
  Holds-after_liveouts a n rest h =
      (Holds-append m (a + n * 4) (after_liveouts a n) (padding (4 + 4 * n)) rest
        (ground (arith, length-replicate {A = ℕ} ((8 - (4 + 4 * n) % 8) % 8) 0)) h).1

  read_map_record_lem :
      (a i : ℕ) (r : StackMapRecord) (rest : List ℕ)
      → MapRecordFits i r
      → Holds m a (put_map_record r rest)
      → ((read_map_record m a i).0 ≡ r) × Holds m (read_map_record m a i).1 rest
  unfolding put_map_record
  read_map_record_lem a i r rest fits h =
      let (f0, h0) =
        Holds-word m a (a + 8) 8 r.patchpoint_id _ refl (Fits-8 _ fits.patchpoint_id) h in
      let (f1, h1) =
        Holds-word m (a + 8) (a + 12) 4 r.instr_offset _ (omega arith) (Fits-4 _ fits.instr_offset)
          h0 in
      let (f2, h2) =
        Holds-word m (a + 12) (a + 14) 2 r.reserved _ (omega arith) (Fits-2 _ fits.reserved) h1 in
      let (f3, h3) =
        Holds-word m (a + 14) (a + 16) 2 r.num_locations _ (omega arith)
          (Fits-2 _ fits.num_locations) h2 in
      let (f4, h4) =
        read_locations_lem m (a + 16) (a + 16 + r.num_locations * location_size) r.num_locations
          r.locations _ fits.locations fits.locations_length refl h3 in
      let p = after_locations (a + 16) r.num_locations in
      let h5 = Holds-after_locations (a + 16) r.num_locations _ h4 in
      let (f6, h6) = Holds-word m p (p + 2) 2 0 _ refl (Fits-2 0 (omega arith)) h5 in
      let (f7, h7) =
        Holds-word m (p + 2) (p + 2 + 2) 2 r.num_liveouts _ refl (Fits-2 _ fits.num_liveouts) h6 in
      let (f8, h8) =
        read_liveouts_lem m (p + 2 + 2) (p + 2 + 2 + r.num_liveouts * liveout_size) r.num_liveouts
          r.liveouts _ fits.liveouts fits.liveouts_length refl h7 in
      let h9 = Holds-after_liveouts (p + 2 + 2) r.num_liveouts _ h8 in
      unfold read_map_record in
      rw (f3, f7)
        (
          λ j. record {
            patchpoint_id = f0 j;
            instr_offset = f1 j;
            reserved = f2 j;
            num_locations = r.num_locations;
            locations = f4 j;
            num_liveouts = r.num_liveouts;
            liveouts = f8 j;
            index = sym fits.index j;
          },
          h9,
        )

  pub read_map_records_lem :
      (a i n : ℕ) (xs : List StackMapRecord) (rest : List ℕ)
      → AllFrom MapRecordFits i xs
      → length xs ≡ n
      → Holds m a (put_all put_map_record xs rest)
      → read_map_records m a i n ≡ xs
  unfolding read_map_records put_all
  read_map_records_lem a i zero [] rest ps e h = refl
  read_map_records_lem a i (suc n) [] rest ps e h = absurd (omega arith)
  read_map_records_lem a i zero (x ∷ xs) rest ps e h = absurd (omega arith)
  read_map_records_lem a i (suc n) (x ∷ xs) rest (fits, ps) e h =
      let (first, behind) = read_map_record_lem a i x (put_all put_map_record xs rest) fits h in
      ap₂ ◌∷◌ first
        (read_map_records_lem (read_map_record m a i).1 (i + 1) n xs rest ps (omega arith) behind)
