-- ===== src/Mapping/Release.antt =====
-- The destructor of a queue unmaps what its constructor mapped.
use android_system_libfmq.Base.{
  ℕ, ◌+◌, ◌<◌, ◌^◌, ◌≡◌, refl, sym, ap, ◌∙◌, Bool, true, false, Option, none, some, if◌then◌else◌,
  [], ◌∷◌, ltb, get_elem?,
}
use android_system_libfmq.Flavor.{synchronized_read_write}
use android_system_libfmq.Descriptor.{
  GrantorDescriptor, read_ptr_pos, write_ptr_pos, data_ptr_pos, ev_flag_word_pos,
}
use android_system_libfmq.Shim.{NativeHandle, Shim, count_grantors}
use android_system_libfmq.EventFlag
use android_system_libfmq.EventFlag.Lifetime.{delete_event_flag, unmap_event_flag_word}
use android_system_libfmq.Mapping.{
  page_size, Pointer, pointer, map_offset, map_length, shared, MessageQueue, World, Host,
  map_grantor_descr, map_read_counter, unmap_grantor_descr, all_aligned, from_descriptor, destroy,
}
use android_system_libfmq.Mapping.Grantor.{Small, map_grantor_descr-unmap_grantor_descr}
use android_system_libfmq.Mapping.Init.{Maps, Acceptable, flag_made, from_descriptor_maps}

-- Grantor `i` of a descriptor, where the system maps it.
pub record Placed (host : Host) (d : Shim) (i : ℕ) : Type 0 where
  pub handle : NativeHandle
  pub grantor : GrantorDescriptor
  pub file : ℕ
  pub address : ℕ
  pub has_handle : d.handle ≡ some handle
  pub has_grantor : get_elem? d.grantors i ≡ some grantor
  pub has_file : get_elem? handle.data_words grantor.fd_index ≡ some file
  pub maps_there : host.mmap file (map_offset grantor) (map_length grantor) ≡ some address
  pub small : Small grantor
  pub not_null : 0 < address
  pub low : address + page_size < 2 ^ 64

abbrev pub place : {host : Host} {d : Shim} {i : ℕ} → Placed host d i → Pointer
place p = pointer p.file p.grantor p.address

-- What `mmap` gave for it.
abbrev pub area : {host : Host} {d : Shim} {i : ℕ} → Placed host d i → ℕ × ℕ
area p = (p.address, map_length p.grantor)

-- `deleteEventFlag` leaves the word of a queue where it is, whether the flag could be made or not.
keeps_word :
    (munmap : Option ℕ → EventFlag.Returned) (memory : Bool) (address : ℕ)
    → (delete_event_flag munmap (
        some (
          if memory
          then some (record { word_ptr = some address; needs_unmapping = false })
          else none))).2
      ≡ []
unfolding delete_event_flag unmap_event_flag_word
keeps_word munmap true address = refl
keeps_word munmap false address = refl

module _ (host : Host) (d : Shim) where
  mapped_there :
      (i : ℕ) (p : Placed host d i) → map_grantor_descr host.mmap d i ≡ some (some (place p))
  mapped_there i p =
      (map_grantor_descr-unmap_grantor_descr host.mmap d p.handle i p.grantor p.file p.address
        p.has_handle p.has_grantor p.has_file p.maps_there p.small p.not_null p.low).0

  released :
      (i : ℕ) (p : Placed host d i) → unmap_grantor_descr (some (place p).address) d i ≡ area p ∷ []
  released i p =
      (map_grantor_descr-unmap_grantor_descr host.mmap d p.handle i p.grantor p.file p.address
        p.has_handle p.has_grantor p.has_file p.maps_there p.small p.not_null p.low).4

  module _ (read_ptr : Placed host d read_ptr_pos) (write_ptr : Placed host d write_ptr_pos)
      (ring : Placed host d data_ptr_pos) (word : Placed host d ev_flag_word_pos)
      (with_flag : ltb ev_flag_word_pos (count_grantors d) ≡ true) where
    maps : Maps host d synchronized_read_write
    unfolding map_read_counter
    maps = record {
      read_ptr = shared (place read_ptr);
      write_ptr = place write_ptr;
      ring = place ring;
      read_mapped = rw (mapped_there read_ptr_pos read_ptr) refl;
      write_mapped = mapped_there write_ptr_pos write_ptr;
      ring_mapped = mapped_there data_ptr_pos ring;
      flag_mapped = λ e. (place word, mapped_there ev_flag_word_pos word);
    }

    -- A synchronized queue from a descriptor with an event flag word that it accepts, with aligned
    -- offsets, where the system maps its four grantors, each ending before `2 ^ 31`, to addresses
    -- that are not 0 nor within a page of `2 ^ 64`: the constructor gives a queue whose destructor
    -- unmaps the four areas that were mapped, each once and with its whole length; `deleteEventFlag`
    -- unmaps nothing of them again, and no counter is deleted.
    pub from_descriptor-destroy :
        (quantum : ℕ) (reset : Bool) (w : World) (munmap : Option ℕ → EventFlag.Returned)
        → Acceptable d quantum
        → all_aligned d.grantors ≡ true
        → (q : MessageQueue) × (w' : World) × (from_descriptor host synchronized_read_write quantum
              (some d)
              reset
              w
            ≡ some (q, w'))
          × ((destroy munmap q).unmapped
              ≡ area read_ptr ∷ area write_ptr ∷ area ring ∷ area word ∷ [])
          × ((destroy munmap q).flag_unmapped ≡ [])
          × ((destroy munmap q).counter_deleted ≡ false)
    unfolding destroy maps
    from_descriptor-destroy quantum reset w munmap a aligned =
        let (q, w', made, _, r, p, b, desc, flavor, _, flag, ev, _) =
          from_descriptor_maps host synchronized_read_write quantum d reset w maps a aligned in
        let f : q.ev_flag_word ≡ some (place word) =
          flag ∙ rw (with_flag, mapped_there ev_flag_word_pos word) refl in
        (
          q,
          w',
          made,
          rw
              (
                flavor,
                r,
                p,
                b,
                f,
                desc,
                released read_ptr_pos read_ptr,
                released write_ptr_pos write_ptr,
                released data_ptr_pos ring,
                released ev_flag_word_pos word,
              )
              refl,
          rw (f, ev ∙ ap (flag_made host) (sym flag ∙ f))
              (keeps_word munmap host.flag_memory (place word).address),
          rw flavor refl,
        )
