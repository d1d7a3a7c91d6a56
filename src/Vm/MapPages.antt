-- ===== src/Vm/MapPages.antt =====
-- The loop of `mmu_map_to_mem`: with enough free pages it ends well, and a rule for what it keeps.
use simple_pi_os.Prelude.{
  Bool, ap, arith, bit_or, false, if◌then◌else◌, inl, inr, ne→==, ok, ok-injective, ok≢panic,
  out_of_memory, panic, refl, subst, suc, sym, true, u32, update, zero, ℕ, ◌*◌, ◌+◌, ◌<<<◌, ◌<◌,
  ◌>>>◌, ◌^◌, ◌∙◌, ◌≡◌, ◌≢◌, ◌≤◌,
}
use simple_pi_os.Descriptor.Aligned.{is_aligned_section}
use native.Mathlib.Decide.{ℕ_discrete, dec_le}
use simple_pi_os.Vm.{
  Vm, PageTable, n_phys_pages, map_flag_none, map_flag_sync, find_available_page, map_pages,
  has_flag,
}
use simple_pi_os.Vm.Section.{mapped, mmu_map_section_eq, mapped-owner, is_claimable}
use simple_pi_os.Vm.FreePages.{free_pages, free_from-ext, free_from-update, free_from-zero}
use simple_pi_os.Vm.Alloc.{FirstFree, find_available_page-FirstFree}

-- The flags of the loop's calls.
abbrev pub map_flags : Bool → ℕ
map_flags sync = if sync then bit_or map_flag_none map_flag_sync else map_flag_none

section_index : (page : ℕ) → page < 4096 → u32 (page <<< 20) ≡ page * 2 ^ 20
section_index page h = omega arith

section_page : (k : ℕ) → (k * 2 ^ 20) >>> 20 ≡ k
section_page k = omega arith

map_flags-private : (sync : Bool) → has_flag (map_flags sync) 3 ≡ false
map_flags-private true = refl
map_flags-private false = refl

free-is_claimable :
    (k flags : ℕ) (vm : Vm) → vm.paddr_to_asid_map k ≡ 0 → is_claimable (k * 2 ^ 20) flags vm ≡ true
free-is_claimable k flags vm free = rw (section_page k, free) (ground arith)

-- Taking page `k` writes its owner and no other.
pub mapped-owner_private :
    (pt : PageTable) (va k : ℕ) (sync : Bool) (vm : Vm)
    → k < n_phys_pages
    → (j : ℕ)
    → (mapped pt va (k * 2 ^ 20) (map_flags sync) vm).paddr_to_asid_map j
      ≡ update vm.paddr_to_asid_map k pt.asid j
mapped-owner_private pt va k sync vm h j =
    rw
      (
        mapped-owner pt va (k * 2 ^ 20) (map_flags sync) j vm,
        section_page k,
        map_flags-private sync,
      )
      (ground arith)

-- One round: page `k` was free, so it is mapped at `page`.
map_pages-suc :
    (pt : PageTable) (rounds page k : ℕ) (sync : Bool) (vm : Vm)
    → page < 4096
    → 1 ≤ k
    → k < n_phys_pages
    → vm.paddr_to_asid_map k ≡ 0
    → find_available_page vm ≡ k * 2 ^ 20
    → map_pages pt (suc rounds) page sync vm
      ≡ map_pages pt rounds
          (page + 1)
          sync
          (mapped pt (page * 2 ^ 20) (k * 2 ^ 20) (map_flags sync) vm)
unfolding map_pages
map_pages-suc pt rounds page k sync vm h pos small free found =
    rw
      (
        found,
        section_index page h,
        mmu_map_section_eq pt (page * 2 ^ 20) (k * 2 ^ 20) (map_flags sync) vm,
        is_aligned_section (page * 2 ^ 20) (omega arith),
        is_aligned_section (k * 2 ^ 20) (omega arith),
        free-is_claimable k (map_flags sync) vm free,
        ne→== (k * 2 ^ 20) 0 (omega arith),
      )
      refl

free_pages-mapped :
    (pt : PageTable) (va k : ℕ) (sync : Bool) (vm : Vm)
    → pt.asid ≢ 0
    → 1 ≤ k
    → k < n_phys_pages
    → vm.paddr_to_asid_map k ≡ 0
    → suc (free_pages (mapped pt va (k * 2 ^ 20) (map_flags sync) vm)) ≡ free_pages vm
unfolding free_pages
free_pages-mapped pt va k sync vm pos h g free =
    ap suc (free_from-ext 511 1 _ _ (λ j p. mapped-owner_private pt va k sync vm g j))
    ∙ free_from-update 511 1 k pt.asid vm.paddr_to_asid_map h (omega arith) free pos

-- Where a page is free the search finds one.
free_page_found :
    (vm : Vm)
    → 0 < free_pages vm
    → (k : ℕ) × (find_available_page vm ≡ k * 2 ^ 20)
      × (1 ≤ k)
      × (k < n_phys_pages)
      × (vm.paddr_to_asid_map k ≡ 0)
unfolding free_pages
free_page_found vm some_free = pick (find_available_page-FirstFree vm)
  where
    pick :
        FirstFree vm.paddr_to_asid_map 1 n_phys_pages (find_available_page vm)
        → (k : ℕ) × (find_available_page vm ≡ k * 2 ^ 20)
          × (1 ≤ k)
          × (k < n_phys_pages)
          × (vm.paddr_to_asid_map k ≡ 0)
    pick (inl (z, all)) =
        absurd (
          omega (arith, free_from-zero 511 1 vm.paddr_to_asid_map (λ k h g. all k h (omega arith))))
    pick (inr (k, e, h, g, free, all)) = (k, e, h, g, free)

-- The rule of the loop: what each round keeps holds at the end, and with enough free pages the
-- end is reached. Each round uses up one free page.
module _ (pt : PageTable) (sync : Bool) (P : ℕ → Vm → Type 0)
    (step : (page k : ℕ) (vm : Vm)
      → page < 4096
      → 1 ≤ k
      → k < n_phys_pages
      → vm.paddr_to_asid_map k ≡ 0
      → P page vm
      → P (page + 1) (mapped pt (page * 2 ^ 20) (k * 2 ^ 20) (map_flags sync) vm)) where
  pub map_pages_rule :
      (rounds page end : ℕ) (vm : Vm)
      → pt.asid ≢ 0
      → page + rounds ≡ end
      → end ≤ 4096
      → rounds ≤ free_pages vm
      → P page vm
      → (vm' : Vm) × (map_pages pt rounds page sync vm ≡ ok vm')
        × P end vm'
        × (free_pages vm' + rounds ≡ free_pages vm)
  unfolding map_pages
  map_pages_rule zero page end vm pos e small enough p =
      (vm, refl, subst (λ n. P n vm) (omega arith) p, omega arith)
  map_pages_rule (suc rounds) page end vm pos e small enough p =
      let (k, found, h, g, free) = free_page_found vm (omega arith) in
      let next = mapped pt (page * 2 ^ 20) (k * 2 ^ 20) (map_flags sync) vm in
      let used = free_pages-mapped pt (page * 2 ^ 20) k sync vm pos h g free in
      let (vm', run, q, count) =
        map_pages_rule rounds (page + 1) end next pos (omega arith) small (omega arith)
          (step page k vm (omega arith) h g free p) in
      (
        vm',
        map_pages-suc pt rounds page k sync vm (omega arith) h g free found ∙ run,
        q,
        omega arith,
      )

no_page_found : (vm : Vm) → free_pages vm ≡ 0 → find_available_page vm ≡ 0
unfolding free_pages
no_page_found vm none_free = pick (find_available_page-FirstFree vm)
  where
    pick :
        FirstFree vm.paddr_to_asid_map 1 n_phys_pages (find_available_page vm)
        → find_available_page vm ≡ 0
    pick (inl (z, all)) = z
    pick (inr (k, e, h, g, free, all)) = absurd (
        omega (
          arith,
          free_from-update 511 1 k 1 vm.paddr_to_asid_map h (omega arith) free (omega arith),
        ))

-- Without enough free pages the machine stops.
pub map_pages-out_of_memory :
    (pt : PageTable) (rounds page end : ℕ) (sync : Bool) (vm : Vm)
    → pt.asid ≢ 0
    → page + rounds ≡ end
    → end ≤ 4096
    → free_pages vm < rounds
    → map_pages pt rounds page sync vm ≡ panic out_of_memory
unfolding map_pages
map_pages-out_of_memory pt zero page end sync vm pos e small short = absurd (omega arith)
map_pages-out_of_memory pt (suc rounds) page end sync vm pos e small short =
    elim (ℕ_discrete (free_pages vm) 0) [
      | yes z ↦ rw (no_page_found vm z) refl
      | no nz ↦
          let (k, found, h, g, free) = free_page_found vm (omega arith) in
          let next = mapped pt (page * 2 ^ 20) (k * 2 ^ 20) (map_flags sync) vm in
          let used = free_pages-mapped pt (page * 2 ^ 20) k sync vm pos h g free in
          map_pages-suc pt rounds page k sync vm (omega arith) h g free found
          ∙ map_pages-out_of_memory pt rounds (page + 1) end sync next pos (omega arith) small
              (omega arith)
    ]

-- So whatever each round keeps holds after any run that ends well.
module _ (pt : PageTable) (sync : Bool) (P : Vm → Type 0)
    (step : (page k : ℕ) (vm : Vm)
      → k < n_phys_pages
      → vm.paddr_to_asid_map k ≡ 0
      → P vm
      → P (mapped pt (page * 2 ^ 20) (k * 2 ^ 20) (map_flags sync) vm)) where
  pub map_pages_keeps :
      (rounds page : ℕ) (vm vm' : Vm)
      → pt.asid ≢ 0
      → page + rounds ≤ 4096
      → P vm
      → map_pages pt rounds page sync vm ≡ ok vm'
      → P vm'
  map_pages_keeps rounds page vm vm' pos small p run = elim (dec_le rounds (free_pages vm)) [
    | yes enough ↦
        let (v, run', q, _) =
          map_pages_rule pt sync (λ _. P) (λ page k v h pos small free. step page k v small free)
            rounds page (page + rounds) vm pos refl small enough p in
        subst P (ok-injective (sym run' ∙ run)) q
    | no short ↦
        let stop =
          map_pages-out_of_memory pt rounds page (page + rounds) sync vm pos refl small
            (omega arith) in
        absurd (ok≢panic (sym run ∙ stop))
  ]
