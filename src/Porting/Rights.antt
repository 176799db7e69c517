-- ===== src/Porting/Rights.antt =====
-- What a view that `system_porting_mmap` gives allows.
use android_system_libfmq.Base.{
  ℕ, ◌≡◌, ◌≢◌, ◌⊎◌, inl, inr, refl, Bool, true, false, Option, none, some, ◌==◌, Bool-cases,
  eq_of_==, neq_of_==, sym, ◌∙◌, ◌||◌, ◌&&◌, not,
}
use android_system_libfmq.Porting.{
  Win32, mapped, map_rights, translate, has, prot_none, prot_read, prot_write, prot_exec,
  map_private, map_fixed, map_anonymous, private_copy, map_section, system_porting_mmap,
}
use Prim.Native.Nat.{bit_or}
use mathlib.Core.Path.{subst}

-- The access that a protection stands for.
pub data Grants (w : Win32) (prot : ℕ) : ℕ → Type 0 where
  nothing : prot ≡ prot_none → Grants w prot 0
  reads : prot ≡ prot_read → Grants w prot w.file_map_read
  writes : has prot prot_read ≡ true → has prot prot_write ≡ true → Grants w prot w.file_map_write
  executes : prot ≡ prot_exec → Grants w prot w.file_map_execute
  executes_and_reads :
      has prot prot_exec ≡ true
      → has prot prot_read ≡ true
      → has prot prot_write ≡ false
      → Grants w prot (bit_or w.file_map_execute w.file_map_read)

granted :
    (w : Win32) (prot : ℕ) {p q protect access : ℕ}
    → ◌≡◌ {A = Option (ℕ × ℕ)} (some (p, q)) (some (protect, access))
    → Grants w prot q
    → Grants w prot access
granted w prot {q = q} {access = access} e g =
    let same : q ≡ access = cc e in subst (Grants w prot) same g

both_set : (a b : Bool) → (a && b) ≡ true → (a ≡ true) × (b ≡ true)
both_set true true e = (refl, refl)
both_set true false e = cc
both_set false b e = cc

second_clear : (a b : Bool) → (a || b) ≡ false → b ≡ false
second_clear true b e = cc
second_clear false b e = e

other_clear : (a b : Bool) → (a && b) ≡ false → a ≡ true → b ≡ false
other_clear true b e h = e
other_clear false b e h = cc

translate-Grants :
    (w : Win32) (prot protect access : ℕ)
    → translate w prot ≡ some (protect, access)
    → Grants w prot access
unfolding translate
translate-Grants w prot protect access e = elim (Bool-cases (prot == prot_none)) [
  | inl p ↦ granted w prot (rw p at e) (nothing (eq_of_== p))
  | inr p ↦ elim (Bool-cases (prot == prot_read)) [
    | inl q ↦ granted w prot (rw (p, q) at e) (reads (eq_of_== q))
    | inr q ↦ elim (Bool-cases (has prot prot_read && has prot prot_write)) [
      | inl r ↦
          let (can_read, can_write) = both_set _ _ r in
          granted w prot (rw (p, q, r) at e) (writes can_read can_write)
      | inr r ↦ elim (Bool-cases (prot == prot_exec)) [
        | inl x ↦ granted w prot (rw (p, q, r, x) at e) (executes (eq_of_== x))
        | inr x ↦ elim (Bool-cases (has prot prot_exec && has prot prot_read)) [
          | inl y ↦
              let (can_execute, can_read) = both_set _ _ y in
              granted w prot (rw (p, q, r, x, y) at e)
                (executes_and_reads can_execute can_read (other_clear _ _ r can_read))
          | inr y ↦ cc (rw (p, q, r, x, y) at e)
        ]
      ]
    ]
  ]
]

-- The view that a mapping makes.
abbrev pub IsView : Win32 → ℕ → ℕ → ℕ → ℕ → ℕ → ℕ → Type 0
IsView w addr len off section access address =
    (section ≢ 0) × (address ≢ 0) × (address ≡ w.map_view section access off len addr)

map_section-IsView :
    (w : Win32) (section access off len addr address : ℕ)
    → map_section w section access off len addr ≡ mapped address
    → IsView w addr len off section access address
map_section-IsView w section access off len addr address e = elim (Bool-cases (section == 0)) [
  | inl p ↦ cc (rw p at e)
  | inr p ↦ elim (Bool-cases (w.map_view section access off len addr == 0)) [
    | inl q ↦ cc (rw (p, q) at e)
    | inr q ↦
        let same : w.map_view section access off len addr ≡ address = cc (rw (p, q) at e) in
        (neq_of_== p, λ z. neq_of_== q (same ∙ z), sym same)
  ]
]

-- What a view may be used for: a copy of its own, or what the protection stands for.
abbrev pub Allows : Win32 → ℕ → ℕ → ℕ → Type 0
Allows w prot flags access =
    ((has flags map_private ≡ true) × (access ≡ w.file_map_copy))
    ⊎ ((has flags map_private ≡ false) × Grants w prot access)

private_copy-Allows :
    (w : Win32) (prot flags protect access : ℕ)
    → Grants w prot access
    → Allows w prot flags (private_copy w flags (protect, access)).1
private_copy-Allows w prot flags protect access g = elim (Bool-cases (has flags map_private)) [
  | inl p ↦ rw p (inl (refl, refl))
  | inr p ↦ rw p (inr (refl, g))
]

-- If `system_porting_mmap` gives an address: `MAP_FIXED` was not asked for and the handle was not
-- null; the address is that of a view, at the offset and of the length that were asked for; and
-- the view allows a private copy if that was asked for, and otherwise no more than the protection
-- says, where reading, writing and executing together only get the access for writing.
pub system_porting_mmap-Allows :
    (w : Win32) (addr len prot flags handle off address : ℕ)
    → system_porting_mmap w addr len prot flags handle off ≡ mapped address
    → (section : ℕ) × (access : ℕ) × (has flags map_fixed ≡ false)
      × (handle ≢ 0)
      × IsView w addr len off section access address
      × Allows w prot flags access
unfolding system_porting_mmap
system_porting_mmap-Allows w addr len prot flags handle off address e =
    elim (Bool-cases (has flags map_fixed)) [
      | inl p ↦ cc (rw p at e)
      | inr p ↦
          elim (Bool-cases
            ((has flags map_anonymous && not (handle == w.invalid_handle)) || handle == 0)) [
              | inl q ↦ cc (rw (p, q) at e)
              | inr q ↦
                  go (translate w prot) refl p (neq_of_== (second_clear _ _ q)) (rw (p, q) at e)
            ]
    ]
  where
    go :
        (t : Option (ℕ × ℕ))
        → translate w prot ≡ t
        → has flags map_fixed ≡ false
        → handle ≢ 0
        → map_rights w t addr len flags handle off ≡ mapped address
        → (section : ℕ) × (access : ℕ) × (has flags map_fixed ≡ false)
          × (handle ≢ 0)
          × IsView w addr len off section access address
          × Allows w prot flags access
    go none h p null r = cc r
    go (some (protect, access)) h p null r = (
      _,
      _,
      p,
      null,
      map_section-IsView w _ _ off len addr address r,
      private_copy-Allows w prot flags protect access (translate-Grants w prot protect access h),
    )
