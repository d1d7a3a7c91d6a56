-- ===== src/Vm/Section.antt =====
-- `mmu_map_section`: what it maps, what it leaves alone, and when it stops the machine.
use simple_pi_os.Prelude.{
  Bool, Bool-cases, arith, asserted, demanded, false, if◌then◌else◌, inl, inr, ltb, not, ok, panic,
  refl, some, true, update, ℕ, ◌%◌, ◌&&◌, ◌+◌, ◌/◌, ◌<◌, ◌==◌, ◌>>>◌, ◌^◌, ◌||◌, ◌∙◌, ◌≡◌, ◌⊎◌,
}
use simple_pi_os.Descriptor.{is_aligned}
use simple_pi_os.Descriptor.Aligned.{is_aligned_section}
use simple_pi_os.Vm.{
  map_flag_sync, Vm, PageTable, n_phys_pages, has_flag, claim_page, section_fld, write_pte,
  sync_pte, mmu_map_section,
}
use simple_pi_os.Vm.Translate.{translate}

-- The request takes a page of RAM for one process.
abbrev pub IsPrivate : (pa flags : ℕ) → Type 0
IsPrivate pa flags = (has_flag flags 3 ≡ false) × (pa / 2 ^ 20 < n_phys_pages)

-- A page may be taken: it is not private RAM, or nobody owns it.
abbrev pub is_claimable : (pa flags : ℕ) → Vm → Bool
is_claimable pa flags vm =
    has_flag flags 3 || not (ltb (pa >>> 20) n_phys_pages) || vm.paddr_to_asid_map (pa >>> 20) == 0

-- The state after a call that succeeds.
pub mapped : PageTable → (va pa flags : ℕ) → Vm → Vm
mapped pt va pa flags vm = sync_pte pt va flags (
    write_pte pt (va >>> 20) (section_fld pa flags) (
      if not (has_flag flags 3) && ltb (pa >>> 20) n_phys_pages
      then record vm { paddr_to_asid_map = update vm.paddr_to_asid_map (pa >>> 20) pt.asid }
      else vm))

-- The call succeeds exactly when its tests pass, and then its result is `mapped`.
pub mmu_map_section_eq :
    (pt : PageTable) (va pa flags : ℕ) (vm : Vm)
    → mmu_map_section pt va pa flags vm ≡ (
        if not (is_aligned va 20 && is_aligned pa 20)
        then panic asserted
        else if is_claimable pa flags vm
        then ok (mapped pt va pa flags vm)
        else panic demanded)
unfolding mmu_map_section claim_page mapped
mmu_map_section_eq pt va pa flags vm = ground arith

-- `va` lies in the section of `x`.
abbrev pub same_section : ℕ → ℕ → Bool
same_section va x = (x >>> 20) == (va >>> 20)

pub mapped-tables :
    (pt : PageTable) (va pa flags : ℕ) (vm : Vm) (t i : ℕ)
    → (mapped pt va pa flags vm).tables t i
      ≡ (if t == pt.vaddr_map && i == (va >>> 20) then section_fld pa flags else vm.tables t i)
unfolding mapped sync_pte write_pte
mapped-tables pt va pa flags vm t i = ground arith

pub mapped-owner :
    (pt : PageTable) (va pa flags k : ℕ) (vm : Vm)
    → (mapped pt va pa flags vm).paddr_to_asid_map k ≡ (
        if not (has_flag flags 3) && ltb (pa >>> 20) n_phys_pages && k == (pa >>> 20)
        then pt.asid
        else vm.paddr_to_asid_map k)
unfolding mapped sync_pte write_pte
mapped-owner pt va pa flags k vm = ground arith

-- After the call every address of the section goes to the physical section, at the same offset,
-- and every other address of every table is translated as before.
pub mapped-translate :
    (pt : PageTable) (va pa flags : ℕ) (vm : Vm) (t x : ℕ)
    → pa < 2 ^ 32
    → pa % 2 ^ 20 ≡ 0
    → translate ((mapped pt va pa flags vm).tables t) x ≡ (
        if t == pt.vaddr_map && same_section va x
        then some (pa + x % 2 ^ 20)
        else translate (vm.tables t) x)
unfolding section_fld
mapped-translate pt va pa flags vm t x small aligned =
    ground (arith, mapped-tables pt va pa flags vm t (x >>> 20))

-- The two ends of a call.
abbrev pub MapOutcome : PageTable → (va pa flags : ℕ) → Vm → Type 0
MapOutcome pt va pa flags vm =
    ((is_claimable pa flags vm ≡ false) × (mmu_map_section pt va pa flags vm ≡ panic demanded))
    ⊎ ((is_claimable pa flags vm ≡ true)
        × (vm' : Vm) × (mmu_map_section pt va pa flags vm ≡ ok vm')
        × ((t x : ℕ)
            → translate (vm'.tables t) x ≡ (
                if t == pt.vaddr_map && same_section va x
                then some (pa + x % 2 ^ 20)
                else translate (vm.tables t) x))
        × ((k : ℕ)
            → vm'.paddr_to_asid_map k ≡ (
                if not (has_flag flags 3) && ltb (pa >>> 20) n_phys_pages && k == (pa >>> 20)
                then pt.asid
                else vm.paddr_to_asid_map k)))

-- The call on section addresses, on both branches. A page of RAM that is asked for privately and
-- has an owner stops the machine. Otherwise the call succeeds: every address of the section of
-- `va` then leads to the section of `pa` at the same offset, and every other address, of this and
-- of every other table, is translated as before; and the page gets the process for its owner if
-- the request is private, and no owner is changed if it is not.
pub mmu_map_section_maps :
    (pt : PageTable) (va pa flags : ℕ) (vm : Vm)
    → pa < 2 ^ 32
    → va % 2 ^ 20 ≡ 0
    → pa % 2 ^ 20 ≡ 0
    → MapOutcome pt va pa flags vm
mmu_map_section_maps pt va pa flags vm small va_aligned pa_aligned =
    elim (Bool-cases (is_claimable pa flags vm)) [
      | inl free ↦ inr (
        free,
        mapped pt va pa flags vm,
        run ∙ rw free refl,
        λ t x. mapped-translate pt va pa flags vm t x small pa_aligned,
        λ k. mapped-owner pt va pa flags k vm,
      )
      | inr taken ↦ inl (taken, run ∙ rw taken refl)
    ]
  where
    run :
        mmu_map_section pt va pa flags vm
        ≡ (if is_claimable pa flags vm then ok (mapped pt va pa flags vm) else panic demanded)
    run =
        rw
          (
            mmu_map_section_eq pt va pa flags vm,
            is_aligned_section va (omega arith),
            is_aligned_section pa (omega arith),
          )
          refl

-- A mapping touches neither the control registers nor memory.
pub mapped-cpu :
    (pt : PageTable) (va pa flags : ℕ) (vm : Vm)
    → ((mapped pt va pa flags vm).cpu ≡ vm.cpu) × ((mapped pt va pa flags vm).ram ≡ vm.ram)
unfolding mapped sync_pte write_pte
mapped-cpu pt va pa flags vm = elim (Bool-cases (has_flag flags map_flag_sync)) [
  | inl e ↦ elim (Bool-cases (not (has_flag flags 3) && ltb (pa >>> 20) n_phys_pages)) [
    | inl c ↦ rw (e, c) (refl, refl)
    | inr c ↦ rw (e, c) (refl, refl)
  ]
  | inr e ↦ elim (Bool-cases (not (has_flag flags 3) && ltb (pa >>> 20) n_phys_pages)) [
    | inl c ↦ rw (e, c) (refl, refl)
    | inr c ↦ rw (e, c) (refl, refl)
  ]
]
