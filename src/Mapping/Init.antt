-- ===== src/Mapping/Init.antt =====
-- What `initMemory` makes of a descriptor.
use android_system_libfmq.Base.{
  ℕ, ◌<◌, ◌≤◌, ◌≡◌, ◌≢◌, ◌⊎◌, inl, inr, refl, ◌∙◌, arith, Bool, Bool-cases, true, false, ◌&&◌,
  Option, none, some, ltb, ◌==◌, if◌then◌else◌, ◌>>=◌,
}
use android_system_libfmq.Flavor.{MqFlavor, synchronized_read_write, unsynchronized_write}
use android_system_libfmq.Descriptor.{
  write_ptr_pos, data_ptr_pos, ev_flag_word_pos, min_grantor_count,
}
use android_system_libfmq.Shim.{Shim, get_quantum, is_handle_valid, count_grantors}
use android_system_libfmq.EventFlag.Lifetime.{Flag, create_event_flag, flag_of}
use android_system_libfmq.Mapping.{
  Pointer, Counter, shared, own, MessageQueue, is_valid, World, store, store_counter, Host,
  map_grantor_descr, map_read_counter, reset_counters, map_memory, all_aligned, init_memory,
  unmapped_queue, from_descriptor,
}

abbrev pub counter_value : World → Counter → ℕ
counter_value w (shared p) = w.words p.file p.position
counter_value w own = w.own_counter

store_there : (words : ℕ → ℕ → ℕ) (p : Pointer) (v : ℕ) → store words p v p.file p.position ≡ v
store_there words p v = ground arith

store_zero :
    (w : World) (r : Counter) (p : Pointer)
    → counter_value (record w { words = store w.words p 0 }) r ≡ 0
      ⊎ counter_value (record w { words = store w.words p 0 }) r ≡ counter_value w r
store_zero w (shared r) p = elim (Bool-cases ((r.file == p.file) && (r.position == p.position))) [
  | inl e ↦ inl (rw e refl)
  | inr e ↦ inr (rw e refl)
]
store_zero w own p = inr refl

counter_stored : (w : World) (r : Counter) (v : ℕ) → counter_value (store_counter w r v) r ≡ v
counter_stored w (shared p) v = store_there w.words p v
counter_stored w own v = refl

-- With a reset, both counters are 0 afterwards, even if they are the same word.
pub reset_both :
    (flavor : MqFlavor) (r : Counter) (p : Pointer) (w : World)
    → let w' = reset_counters true flavor r p w in
      (counter_value w' r ≡ 0) × (w'.words p.file p.position ≡ 0)
unfolding reset_counters
reset_both flavor r p w = (
  elim (store_zero (store_counter w r 0) r p) [ inl e ↦ e | inr e ↦ e ∙ counter_stored w r 0 ],
  store_there (store_counter w r 0).words p 0,
)

-- The counters that a queue starts with: all 0 after a reset; otherwise those of the shared memory,
-- but the own counter of an unsynchronized reader is 0.
abbrev pub Started : Bool → MqFlavor → Counter → Pointer → World → World → Type 0
Started true flavor r p w w' = (counter_value w' r ≡ 0) × (w'.words p.file p.position ≡ 0)
Started false synchronized_read_write r p w w' = w' ≡ w
Started false unsynchronized_write r p w w' = (w'.own_counter ≡ 0) × (w'.words ≡ w.words)

started :
    (host : Host) (d : Shim) (reset : Bool) (flavor : MqFlavor) (r : Counter) (p : Pointer)
    (w : World)
    → map_read_counter host flavor d ≡ some r
    → Started reset flavor r p w (reset_counters reset flavor r p w)
unfolding reset_counters map_read_counter
started host d true flavor r p w h = reset_both flavor r p w
started host d false synchronized_read_write r p w h = refl
started host d false unsynchronized_write own p w h = (refl, refl)
started host d false unsynchronized_write (shared q) p w h = absurd (owned host.counter_memory h)
  where
    owned : (b : Bool) → (if b then some own else none) ≡ some (shared q) → ⊥
    owned true e = cc
    owned false e = cc

-- The system maps what the descriptor names.
pub record Maps (host : Host) (d : Shim) (flavor : MqFlavor) : Type 0 where
  pub read_ptr : Counter
  pub write_ptr : Pointer
  pub ring : Pointer
  pub read_mapped : map_read_counter host flavor d ≡ some read_ptr
  pub write_mapped : map_grantor_descr host.mmap d write_ptr_pos ≡ some (some write_ptr)
  pub ring_mapped : map_grantor_descr host.mmap d data_ptr_pos ≡ some (some ring)
  pub flag_mapped :
      ltb ev_flag_word_pos (count_grantors d) ≡ true
      → (p : Pointer) × (map_grantor_descr host.mmap d ev_flag_word_pos ≡ some (some p))

-- The descriptor of a queue of messages of `quantum` bytes: a handle, three grantors or more.
pub record Acceptable (d : Shim) (quantum : ℕ) : Type 0 where
  pub handle_valid : is_handle_valid d ≡ true
  pub enough : min_grantor_count ≤ count_grantors d
  pub same_quantum : get_quantum d ≡ quantum

-- The event flag word, where the descriptor has one.
abbrev pub flag_pointer : Host → Shim → Option Pointer
flag_pointer host d =
    if ltb ev_flag_word_pos (count_grantors d)
    then (map_grantor_descr host.mmap d ev_flag_word_pos >>= λ p. p)
    else none

-- The event flag for that word, where there is memory for it; it does not unmap the word.
abbrev pub flag_made : Host → Option Pointer → Option Flag
flag_made host none = none
flag_made host (some word) =
    if host.flag_memory
    then some (record { word_ptr = some word.address; needs_unmapping = false })
    else none

module _ (host : Host) (flavor : MqFlavor) (quantum : ℕ) (d : Shim) (reset : Bool) (w : World) where
  -- The queue and its memory, as they come out of the mappings.
  abbrev pub Ready : Maps host d flavor → Option (MessageQueue × World) → Type 0
  Ready m result =
      (q : MessageQueue) × (w' : World) × (result ≡ some (q, w'))
      × (is_valid q ≡ true)
      × (q.read_ptr ≡ some m.read_ptr)
      × (q.write_ptr ≡ some m.write_ptr)
      × (q.ring ≡ some m.ring)
      × (q.desc ≡ some d)
      × (q.flavor ≡ flavor)
      × (q.quantum ≡ quantum)
      × (q.ev_flag_word ≡ flag_pointer host d)
      × (q.event_flag ≡ flag_made host (flag_pointer host d))
      × Started reset flavor m.read_ptr m.write_ptr w w'

  memory-Ready :
      (m : Maps host d flavor)
      → Ready m (map_memory host reset d (unmapped_queue flavor quantum (some d)) w)
  unfolding map_memory is_valid create_event_flag flag_of
  memory-Ready m =
      let counters = started host d reset flavor m.read_ptr m.write_ptr w m.read_mapped in
      elim (Bool-cases (ltb ev_flag_word_pos (count_grantors d))) [
        | inl p ↦
            let (word, e) = m.flag_mapped p in
            rw (m.read_mapped, m.write_mapped, m.ring_mapped, p, e)
              (_, _, refl, refl, refl, refl, refl, refl, refl, refl, refl, made word, counters)
        | inr p ↦
            rw (m.read_mapped, m.write_mapped, m.ring_mapped, p)
              (_, _, refl, refl, refl, refl, refl, refl, refl, refl, refl, refl, counters)
      ]
    where
      made :
          (word : Pointer)
          → ((create_event_flag host.flag_memory (some word.address) (some none)).1 >>= λ f. f)
            ≡ flag_made host (some word)
      made word = elim (Bool-cases host.flag_memory) [ inl e ↦ rw e refl | inr e ↦ rw e refl ]

  -- The constructor from a descriptor that has a handle, three grantors or more, at offsets that are
  -- all aligned, and the queue's message size, on a system that maps its memory: the queue is valid
  -- and keeps the descriptor; its counters, its ring and, if there is one, its event flag word are
  -- where the descriptor says, and an event flag for that word is made where there is memory; and the counters start at 0 if they are reset; otherwise they stay,
  -- except that an unsynchronized reader starts at 0.
  pub from_descriptor_maps :
      (m : Maps host d flavor)
      → Acceptable d quantum
      → all_aligned d.grantors ≡ true
      → Ready m (from_descriptor host flavor quantum (some d) reset w)
  unfolding from_descriptor init_memory
  from_descriptor_maps m a aligned =
      let e : from_descriptor host flavor quantum (some d) reset w
          ≡ map_memory host reset d (unmapped_queue flavor quantum (some d)) w =
        ground arith in
      rw e (memory-Ready m)

  -- A descriptor without a handle, with fewer than three grantors, or for messages of another size
  -- gives a queue that is not valid, and nothing is mapped.
  pub from_descriptor_refuses :
      (is_handle_valid d ≡ false)
        ⊎ (count_grantors d < min_grantor_count)
        ⊎ (get_quantum d ≢ quantum)
      → (from_descriptor host flavor quantum (some d) reset w
          ≡ some (unmapped_queue flavor quantum (some d), w))
        × (is_valid (unmapped_queue flavor quantum (some d)) ≡ false)
  unfolding from_descriptor init_memory is_valid
  from_descriptor_refuses bad = (ground arith, refl)

  pub built :
      Acceptable d quantum
      → all_aligned d.grantors ≡ true
      → from_descriptor host flavor quantum (some d) reset w
        ≡ map_memory host reset d (unmapped_queue flavor quantum (some d)) w
  unfolding from_descriptor init_memory
  built a aligned = ground arith

  -- A descriptor with an offset that is not aligned aborts, if it is not refused before.
  pub from_descriptor_aborts :
      Acceptable d quantum
      → all_aligned d.grantors ≡ false
      → from_descriptor host flavor quantum (some d) reset w ≡ none
  unfolding from_descriptor init_memory
  from_descriptor_aborts a odd = ground arith
