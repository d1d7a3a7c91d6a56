-- ===== src/Vm/Ownership.antt =====
-- Who owns a physical page: the map `paddr_to_asid_map` against the tables, and the isolation of
-- processes that it gives.
use native.Mathlib.Decide.{ℕ_discrete}
use simple_pi_os.Prelude.{
  Bool, ap, arith, if◌then◌else◌, ok, sym, update, ℕ, ◌&&◌, ◌*◌, ◌+◌, ◌<◌, ◌==◌, ◌^◌, ◌∙◌, ◌≡◌, ◌≢◌,
}
use simple_pi_os.Descriptor.{Fld}
use simple_pi_os.Vm.{Vm, PageTable, n_phys_pages, section_fld, mmu_map_to_mem, start_page}
use simple_pi_os.Vm.Section.{mapped, mapped-tables}
use simple_pi_os.Vm.MapPages.{map_flags, mapped-owner_private, map_pages_keeps}
use simple_pi_os.Vm.MapToMem.{pages_needed}

-- A mapping of one process alone: the descriptor is valid and not global.
abbrev pub IsPrivatePte : Fld → Type 0
IsPrivatePte e = (e.tag ≢ 0) × (e.n_g ≢ 0)

-- The process owns each page of RAM that its table maps privately, and maps none of them twice.
pub record IsOwner (pt : PageTable) (vm : Vm) : Type 0 where
  pub live : pt.asid ≢ 0
  pub ram :
      (i : ℕ)
      → IsPrivatePte (vm.tables pt.vaddr_map i)
      → ((vm.tables pt.vaddr_map i).sec_base_addr < n_phys_pages)
        × (vm.paddr_to_asid_map (vm.tables pt.vaddr_map i).sec_base_addr ≡ pt.asid)
  pub once :
      (i j : ℕ)
      → IsPrivatePte (vm.tables pt.vaddr_map i)
      → IsPrivatePte (vm.tables pt.vaddr_map j)
      → (vm.tables pt.vaddr_map i).sec_base_addr ≡ (vm.tables pt.vaddr_map j).sec_base_addr
      → i ≡ j

-- Two owners with different ASIDs share no page.
pub IsOwner-disjoint :
    {p q : PageTable} {vm : Vm}
    → IsOwner p vm
    → IsOwner q vm
    → p.asid ≢ q.asid
    → (i j : ℕ) → IsPrivatePte (vm.tables p.vaddr_map i)
    → IsPrivatePte (vm.tables q.vaddr_map j)
    → (vm.tables p.vaddr_map i).sec_base_addr ≢ (vm.tables q.vaddr_map j).sec_base_addr
IsOwner-disjoint {p} {q} {vm} a b ne i j h g e =
    ne (sym (a.ram i h).1 ∙ ap vm.paddr_to_asid_map e ∙ (b.ram j g).1)

module _ (pt : PageTable) (sync : Bool) (page k : ℕ) (vm : Vm) (small : k < n_phys_pages)
    (free : vm.paddr_to_asid_map k ≡ 0) where
  taken : Vm
  taken = mapped pt (page * 2 ^ 20) (k * 2 ^ 20) (map_flags sync) vm

  taken-tables :
      (t i : ℕ)
      → taken.tables t i ≡ (
          if t == pt.vaddr_map && i == page
          then section_fld (k * 2 ^ 20) (map_flags sync)
          else vm.tables t i)
  unfolding taken
  taken-tables t i =
      ground (arith, mapped-tables pt (page * 2 ^ 20) (k * 2 ^ 20) (map_flags sync) vm t i)

  taken-owner : (j : ℕ) → taken.paddr_to_asid_map j ≡ update vm.paddr_to_asid_map k pt.asid j
  unfolding taken
  taken-owner j = mapped-owner_private pt (page * 2 ^ 20) k sync vm small j

  -- A free page given to one process takes nothing from another.
  IsOwner-taken_other :
      (q : PageTable) → q.vaddr_map ≢ pt.vaddr_map → IsOwner q vm → IsOwner q taken
  IsOwner-taken_other q ne v = record {
    live = v.live;
    ram = λ i. ground (
      arith,
      taken-tables q.vaddr_map i,
      v.ram i,
      v.live,
      taken-owner (vm.tables q.vaddr_map i).sec_base_addr,
    );
    once =
        λ i j. ground (arith, taken-tables q.vaddr_map i, taken-tables q.vaddr_map j, v.once i j);
  }

  -- The descriptor that was written.
  taken-section : (taken.tables pt.vaddr_map page).sec_base_addr ≡ k
  unfolding section_fld
  taken-section = ground (arith, taken-tables pt.vaddr_map page)

  taken-rest : (i : ℕ) → i ≢ page → taken.tables pt.vaddr_map i ≡ vm.tables pt.vaddr_map i
  taken-rest i ne = ground (arith, taken-tables pt.vaddr_map i)

  -- An old mapping of the owner does not lead to the page that was free.
  base_ne :
      IsOwner pt vm
      → (i : ℕ) → IsPrivatePte (vm.tables pt.vaddr_map i)
      → (vm.tables pt.vaddr_map i).sec_base_addr ≢ k
  base_ne v i h e = v.live (sym (v.ram i h).1 ∙ ap vm.paddr_to_asid_map e ∙ free)

  -- Nor does an old mapping lead to the page that was just written.
  taken-base_ne :
      IsOwner pt vm
      → (i : ℕ) → i ≢ page
      → IsPrivatePte (taken.tables pt.vaddr_map i)
      → (taken.tables pt.vaddr_map i).sec_base_addr ≢ (taken.tables pt.vaddr_map page).sec_base_addr
  taken-base_ne v i ne = rw (taken-rest i ne, taken-section) (base_ne v i)

  IsOwner-taken : IsOwner pt vm → IsOwner pt taken
  IsOwner-taken v = record {
    live = v.live;
    ram = λ i. elim (ℕ_discrete i page) [
      | yes e ↦ rw (e, taken-section) (λ h. (small, ground (arith, taken-owner k)))
      | no ne ↦ rw (taken-rest i ne) (λ h.
          ground
            (arith, v.ram i h, base_ne v i h, taken-owner (vm.tables pt.vaddr_map i).sec_base_addr))
    ];
    once = λ i j h g e. elim (ℕ_discrete i page) [
      | yes a ↦ elim (ℕ_discrete j page) [
        | yes b ↦ a ∙ sym b
        | no nb ↦ absurd (
            taken-base_ne v j nb g
              (sym e ∙ ap (λ n. (taken.tables pt.vaddr_map n).sec_base_addr) a))
      ]
      | no na ↦ elim (ℕ_discrete j page) [
        | yes b ↦
            absurd
              (taken-base_ne v i na h (e ∙ ap (λ n. (taken.tables pt.vaddr_map n).sec_base_addr) b))
        | no nb ↦
            v.once i j (rw (taken-rest i na) at h) (rw (taken-rest j nb) at g)
              (rw (taken-rest i na, taken-rest j nb) at e)
      ]
    ];
  }

-- If a process and another one with its own table each own what they map, and the first gets memory, then
-- both still own what they map: memory is never handed out twice.
pub mmu_map_to_mem-IsOwner :
    (pt q : PageTable) (addr size : ℕ) (sync : Bool) (vm vm' : Vm)
    → q.vaddr_map ≢ pt.vaddr_map
    → IsOwner pt vm
    → IsOwner q vm
    → mmu_map_to_mem pt addr size sync vm ≡ ok vm'
    → IsOwner pt vm' × IsOwner q vm'
unfolding mmu_map_to_mem taken
mmu_map_to_mem-IsOwner pt q addr size sync vm vm' ne v w run =
    map_pages_keeps pt sync (λ s. IsOwner pt s × IsOwner q s)
      (λ page k s small free (a, b). (
        IsOwner-taken pt sync page k s small free a,
        IsOwner-taken_other pt sync page k s small free q ne b,
      ))
      (pages_needed addr size) (start_page addr + 1) vm vm' v.live (omega arith) (v, w) run
