-- ===== src/Transaction/Regions.antt =====
-- `copyTo` and `copyFrom` on the regions that `beginWrite` and `beginRead` hand out: one, or two
-- when the messages go round the end of the ring.
use android_system_libfmq.Base.{ℕ, ◌-◌, ◌*◌, ◌<◌, ◌≡◌, arith, true, none, some, if◌then◌else◌, ◌==◌}
use android_system_libfmq.Memory.{word64, Memory, memcpy}
use android_system_libfmq.Transaction.{
  region, no_region, MemTransaction, get_mem_region_info, copy_out, copy_in, copy_to, copy_from,
}

abbrev pub one_region : ℕ → ℕ → MemTransaction
one_region off n = record { first = region off n; second = no_region }

abbrev pub two_regions : ℕ → ℕ → ℕ → MemTransaction
two_regions off c n = record { first = region off c; second = region 0 (n - c) }

module _ (q off n : ℕ) (pos : 0 < q) (fits : n * q < word64) (d ring : Memory) where
  one-info :
      get_mem_region_info q (one_region off n) 0 n
      ≡ some (record {
        first_count = n;
        second_count = 0;
        first_base_address = if n == 0 then none else some off;
        second_base_address = none;
      })
  unfolding get_mem_region_info
  one-info = ground arith

  pub copy_to-one :
      copy_to q (one_region off n) (some d) 0 n ring
      ≡ some (true, if n == 0 then ring else memcpy ring off d 0 (n * q))
  unfolding copy_to copy_out
  copy_to-one = ground (arith, one-info)

  pub copy_from-one :
      copy_from q (one_region off n) (some d) 0 n ring
      ≡ some (true, some (if n == 0 then d else memcpy d 0 ring off (n * q)))
  unfolding copy_from copy_in
  copy_from-one = ground (arith, one-info)

module _ (q off c n : ℕ) (pos : 0 < q) (cpos : 0 < c) (le : c < n) (fits : n * q < word64)
    (d ring : Memory) where
  two-info :
      get_mem_region_info q (two_regions off c n) 0 n
      ≡ some (record {
        first_count = c;
        second_count = n - c;
        first_base_address = some off;
        second_base_address = some 0;
      })
  unfolding get_mem_region_info
  two-info = ground arith

  small : (c * q < word64) × ((n - c) * q < word64)
  small = (grind arith, grind arith)

  pub copy_to-two :
      copy_to q (two_regions off c n) (some d) 0 n ring
      ≡ some (true, memcpy (memcpy ring off d 0 (c * q)) 0 d (c * q) ((n - c) * q))
  unfolding copy_to copy_out
  copy_to-two = ground (arith, two-info, small)

  pub copy_from-two :
      copy_from q (two_regions off c n) (some d) 0 n ring
      ≡ some (true, some (memcpy (memcpy d 0 ring off (c * q)) (c * q) ring 0 ((n - c) * q)))
  unfolding copy_from copy_in
  copy_from-two = ground (arith, two-info, small)
