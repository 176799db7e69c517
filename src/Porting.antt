-- ===== src/Porting.antt =====
-- system_porting.cpp, the memory and the descriptors of the build for Windows. The Win32 calls and
-- the constants of its headers are parameters; a handle and an address are numbers. The halves of
-- a 64-bit size or offset, which the Win32 calls take apart, are passed as one number.
pub mod Rights
pub mod Json
pub mod Parse
pub mod Exchange
pub mod JsonLaws
pub mod Elements
pub mod Statements
pub mod RoundTrip
mod Tests
use android_system_libfmq.Base.{
  ℕ, Bool, true, false, not, ◌&&◌, ◌||◌, Option, none, some, ◌==◌, if◌then◌else◌,
}
use Prim.Native.Nat.{bit_and, bit_or}

-- The Win32 API, as far as the port uses it. A handle and an address of 0 are null.
pub record Win32 : Type 0 where
  pub page_noaccess : ℕ
  pub page_readwrite : ℕ
  pub page_writecopy : ℕ
  pub page_execute : ℕ
  pub page_execute_read : ℕ
  pub page_execute_readwrite : ℕ
  pub file_map_read : ℕ
  pub file_map_write : ℕ
  pub file_map_copy : ℕ
  pub file_map_execute : ℕ
  pub section_query : ℕ
  pub invalid_handle : ℕ
  -- `CreateFileMappingA` without a file, with the protection and the size.
  pub create_file_mapping : ℕ → ℕ → ℕ
  -- What `DuplicateHandle` leaves in its result.
  pub duplicate_handle : ℕ → ℕ
  -- `MapViewOfFileEx` with the mapping, the access, the offset, the length and the address.
  pub map_view : ℕ → ℕ → ℕ → ℕ → ℕ → ℕ
  pub unmap_view : ℕ → Bool

abbrev pub map_private : ℕ
map_private = 2

abbrev pub map_fixed : ℕ
map_fixed = 4

abbrev pub map_anonymous : ℕ
map_anonymous = 16

abbrev pub prot_none : ℕ
prot_none = 0

abbrev pub prot_read : ℕ
prot_read = 1

abbrev pub prot_write : ℕ
prot_write = 2

abbrev pub prot_exec : ℕ
prot_exec = 4

-- `( flags & bits ) != 0`
abbrev pub has : ℕ → ℕ → Bool
has flags bits = not (bit_and flags bits == 0)

pub data Errno : Type 0 where
  enotsup : Errno
  eopnotsupp : Errno

-- `MAP_FAILED` comes with `errno` where the code sets it.
pub data MapResult : Type 0 where
  map_failed : Option Errno → MapResult
  mapped : ℕ → MapResult

-- `nt_flag_protect` and `nt_flags` of the protection; `none` for a protection that is refused.
unfoldable pub translate : Win32 → ℕ → Option (ℕ × ℕ)
translate w prot =
    if prot == prot_none
    then some (w.page_noaccess, 0)
    else if prot == prot_read
    then some (w.page_readwrite, w.file_map_read)
    else if has prot prot_read && has prot prot_write
    then some (w.page_readwrite, w.file_map_write)
    else if prot == prot_exec
    then some (w.page_execute, w.file_map_execute)
    else if has prot prot_exec && has prot prot_read
    then some (w.page_execute_read, bit_or w.file_map_execute w.file_map_read)
    else if (has prot prot_exec && has prot prot_read) && has prot prot_write
    then some (w.page_execute_readwrite, bit_or w.file_map_execute w.file_map_write)
    else none

-- The two after the flag for private changes.
abbrev pub private_copy : Win32 → ℕ → ℕ × ℕ → ℕ × ℕ
private_copy w flags (protect, access) =
    if has flags map_private
    then (bit_or protect w.page_writecopy, w.file_map_copy)
    else (protect, access)

-- The section that the view is of: a new one in the paging file, or a duplicate of the handle.
abbrev pub file_mapping : Win32 → ℕ → ℕ → ℕ → ℕ
file_mapping w handle protect len =
    if handle == w.invalid_handle
    then w.create_file_mapping protect len
    else w.duplicate_handle handle

abbrev pub map_section : Win32 → ℕ → ℕ → ℕ → ℕ → ℕ → MapResult
map_section w section access off len addr =
    if section == 0
    then map_failed none
    else let address = w.map_view section access off len addr in
      if address == 0 then map_failed none else mapped address

-- What follows the translation.
abbrev pub map_rights : Win32 → Option (ℕ × ℕ) → ℕ → ℕ → ℕ → ℕ → ℕ → MapResult
map_rights w none addr len flags handle off = map_failed (some eopnotsupp)
map_rights w (some rights) addr len flags handle off =
    let (protect, access) = private_copy w flags rights in
    map_section w (file_mapping w handle protect len) access off len addr

unfoldable pub system_porting_mmap : Win32 → ℕ → ℕ → ℕ → ℕ → ℕ → ℕ → MapResult
unfolding translate
system_porting_mmap w addr len prot flags handle off =
    let addr' = if has flags map_fixed then 0 else addr in
    if has flags map_fixed && addr' == 0
    then map_failed (some enotsup)
    else if (has flags map_anonymous && not (handle == w.invalid_handle)) || handle == 0
    then map_failed (some enotsup)
    else map_rights w (translate w prot) addr' len flags handle off

-- The result of `system_porting_munmap`, of which the code looks at no length: whether it is 0.
unfoldable pub system_porting_munmap : Win32 → ℕ → ℕ → Bool
system_porting_munmap w addr len = w.unmap_view addr

-- The access that `system_porting_open_shmem` asks `OpenFileMapping` for.
unfoldable pub open_shmem_access : Win32 → Bool → ℕ
open_shmem_access w read_only =
    let access = bit_or w.file_map_read w.section_query in
    if read_only then access else bit_or access w.file_map_write
