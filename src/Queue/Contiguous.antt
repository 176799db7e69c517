-- ===== src/Queue/Contiguous.antt =====
-- `contiguousMessages` of `beginWrite` and `beginRead`: how many messages fit between a byte of the
-- ring and its end.
use android_system_libfmq.Base.{
  ℕ, ◌+◌, ◌-◌, ◌*◌, ◌/◌, ◌%◌, ◌<◌, ◌≤◌, ◌≡◌, arith, div-mul_of_mod, sub-mod-eq-zero,
  mul-le_of_le-div, mul-split,
}

abbrev pub contiguous : ℕ → ℕ → ℕ → ℕ
contiguous size q off = (size - off) / q

-- The bytes on both sides of the end of the ring, for `n` messages from `off`.
pub record Split (size q off n : ℕ) : Type 0 where
  pub to_end : contiguous size q off * q ≡ size - off
  pub some_room : 0 < contiguous size q off
  pub short : n ≤ contiguous size q off → n * q ≤ size - off
  pub rest :
      contiguous size q off ≤ n
      → contiguous size q off * q + (n - contiguous size q off) * q ≡ n * q

pub split :
    (size q off n : ℕ) → 0 < q → size % q ≡ 0 → off % q ≡ 0 → off < size → Split size q off n
split size q off n pos whole aligned inside = record {
  to_end = e;
  some_room = grind (arith, e);
  short = λ h. mul-le_of_le-div n (size - off) q h;
  rest = λ h. mul-split (contiguous size q off) n q h;
}
  where
    e : (size - off) / q * q ≡ size - off
    e = div-mul_of_mod (size - off) q (sub-mod-eq-zero size off q whole aligned)
