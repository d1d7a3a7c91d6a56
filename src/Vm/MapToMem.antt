-- ===== src/Vm/MapToMem.antt =====
-- `mmu_map_to_mem`: the pages of a range after the call.
use native.Mathlib.Decide.{ℕ_discrete}
use simple_pi_os.Prelude.{
  Bool, arith, if◌then◌else◌, inl, inr, ok, out_of_memory, panic, refl, some, update, ℕ, ◌%◌, ◌&&◌,
  ◌*◌, ◌+◌, ◌-◌, ◌<◌, ◌==◌, ◌>>>◌, ◌^◌, ◌≡◌, ◌≢◌, ◌≤◌, ◌⊎◌,
}
use simple_pi_os.Vm.{Vm, PageTable, n_phys_pages, section_fld, start_page, end_page, mmu_map_to_mem}
use simple_pi_os.Vm.Section.{mapped, mapped-tables}
use simple_pi_os.Vm.MapPages.{
  map_flags, mapped-owner_private, map_pages_rule, map_pages-out_of_memory,
}
use simple_pi_os.Vm.FreePages.{free_pages}
use simple_pi_os.Vm.Translate.{translate}

-- Descriptor `i` leads to a page of RAM that was free before and is `pt`'s now.
pub record Fresh (pt : PageTable) (sync : Bool) (old new : Vm) (i : ℕ) : Type 0 where
  pub page : ℕ
  pub pos : 1 ≤ page
  pub small : page < n_phys_pages
  pub was_free : old.paddr_to_asid_map page ≡ 0
  pub taken : new.paddr_to_asid_map page ≡ pt.asid
  pub pte : new.tables pt.vaddr_map i ≡ section_fld (page * 2 ^ 20) (map_flags sync)

-- What the loop has done when it stands at `end`.
pub record Progress (pt : PageTable) (sync : Bool) (old : Vm) (first end : ℕ) (new : Vm)
    : Type 0 where
  pub done : (i : ℕ) → first ≤ i → i < end → Fresh pt sync old new i
  pub other_tables : (t i : ℕ) → t ≢ pt.vaddr_map → new.tables t i ≡ old.tables t i
  pub other_entries :
      (i : ℕ) → (i < first) ⊎ (end ≤ i) → new.tables pt.vaddr_map i ≡ old.tables pt.vaddr_map i
  pub owned :
      (k : ℕ) → old.paddr_to_asid_map k ≢ 0 → new.paddr_to_asid_map k ≡ old.paddr_to_asid_map k

Progress-start :
    (pt : PageTable) (sync : Bool) (vm : Vm) (first : ℕ) → Progress pt sync vm first first vm
Progress-start pt sync vm first = record {
  done = λ i h g. absurd (omega arith);
  other_tables = λ t i h. refl;
  other_entries = λ i h. refl;
  owned = λ k h. refl;
}

module _ (pt : PageTable) (sync : Bool) (old : Vm) (first page k : ℕ) (vm : Vm)
    (above : first ≤ page) (pos : 1 ≤ k) (small : k < n_phys_pages)
    (free : vm.paddr_to_asid_map k ≡ 0) (p : Progress pt sync old first page vm) where
  next : Vm
  next = mapped pt (page * 2 ^ 20) (k * 2 ^ 20) (map_flags sync) vm

  -- A page with no owner had none at the start.
  was_free : old.paddr_to_asid_map k ≡ 0
  was_free = elim (ℕ_discrete (old.paddr_to_asid_map k) 0) [
    | yes z ↦ z
    | no nz ↦ absurd (nz (omega (arith, p.owned k nz)))
  ]

  next-tables :
      (t i : ℕ)
      → next.tables t i ≡ (
          if t == pt.vaddr_map && i == page
          then section_fld (k * 2 ^ 20) (map_flags sync)
          else vm.tables t i)
  unfolding next
  next-tables t i =
      ground (arith, mapped-tables pt (page * 2 ^ 20) (k * 2 ^ 20) (map_flags sync) vm t i)

  next-owner : (j : ℕ) → next.paddr_to_asid_map j ≡ update vm.paddr_to_asid_map k pt.asid j
  unfolding next
  next-owner j = mapped-owner_private pt (page * 2 ^ 20) k sync vm small j

  Fresh-next : (i : ℕ) → first ≤ i → i < page + 1 → Fresh pt sync old next i
  Fresh-next i h g = elim (ℕ_discrete i page) [
    | yes e ↦ record {
      page = k;
      pos = pos;
      small = small;
      was_free = was_free;
      taken = ground (arith, next-owner k);
      pte = ground (arith, next-tables pt.vaddr_map i);
    }
    | no ne ↦
        let f = p.done i h (omega arith) in
        record {
          page = f.page;
          pos = f.pos;
          small = f.small;
          was_free = f.was_free;
          taken = ground (arith, next-owner f.page, f.taken);
          pte = ground (arith, next-tables pt.vaddr_map i, f.pte);
        }
  ]

  Progress-next : Progress pt sync old first (page + 1) next
  Progress-next = record {
    done = Fresh-next;
    other_tables = λ t i h. ground (arith, next-tables t i, p.other_tables t i);
    other_entries =
        λ i h. ground (arith, next-tables pt.vaddr_map i, p.other_entries i (omega arith));
    owned = λ j h. ground (arith, next-owner j, p.owned j h, was_free);
  }

-- Pages that a request needs.
abbrev pub pages_needed : (addr size : ℕ) → ℕ
pages_needed addr size = end_page addr size - start_page addr

-- The whole request, entry by entry.
pub mmu_map_to_mem-Progress :
    (pt : PageTable) (addr size : ℕ) (sync : Bool) (vm : Vm)
    → pt.asid ≢ 0
    → start_page addr ≤ end_page addr size
    → pages_needed addr size ≤ free_pages vm
    → (vm' : Vm) × (mmu_map_to_mem pt addr size sync vm ≡ ok vm')
      × Progress pt sync vm (start_page addr + 1) (end_page addr size + 1) vm'
      × (free_pages vm' + pages_needed addr size ≡ free_pages vm)
unfolding mmu_map_to_mem next
mmu_map_to_mem-Progress pt addr size sync vm live h enough =
    let first : ℕ = start_page addr + 1 in
    let (vm', run, p, count) =
      map_pages_rule pt sync (λ page v. (first ≤ page) × Progress pt sync vm first page v)
        (λ page k v h1 pos small free q.
          (omega arith, Progress-next pt sync vm first page k v q.0 pos small free q.1))
        (pages_needed addr size) first (end_page addr size + 1) vm live (omega arith) (omega arith)
        enough (omega arith, Progress-start pt sync vm first) in
    (vm', run, p.1, count)

-- An address of the range, outside the page of `addr - 1`, is translated to fresh RAM.
abbrev pub MapsTo : PageTable → (old new : Vm) → ℕ → Type 0
MapsTo pt old new x =
    (k : ℕ) × (k < n_phys_pages)
    × (old.paddr_to_asid_map k ≡ 0)
    × (new.paddr_to_asid_map k ≡ pt.asid)
    × (translate (new.tables pt.vaddr_map) x ≡ some (k * 2 ^ 20 + x % 2 ^ 20))

Fresh-MapsTo :
    (pt : PageTable) (sync : Bool) (old new : Vm) (x : ℕ)
    → Fresh pt sync old new (x >>> 20)
    → MapsTo pt old new x
unfolding section_fld
Fresh-MapsTo pt sync old new x f =
    (f.page, f.small, f.was_free, f.taken, rw f.pte (ground (arith, f.small)))

Progress-translate :
    {pt : PageTable} {sync : Bool} {old new : Vm} {first end : ℕ}
    → Progress pt sync old first end new
    → (t x : ℕ) → (t ≢ pt.vaddr_map) ⊎ ((x >>> 20 < first) ⊎ (end ≤ x >>> 20))
    → translate (new.tables t) x ≡ translate (old.tables t) x
Progress-translate p t x (inl ne) = rw (p.other_tables t (x >>> 20) ne) refl
Progress-translate {pt} {old} {new} p t x (inr out) = elim (ℕ_discrete t pt.vaddr_map) [
  | yes e ↦ rw (e, p.other_entries (x >>> 20) out) refl
  | no ne ↦ rw (p.other_tables t (x >>> 20) ne) refl
]

module _ (pt : PageTable) (addr size : ℕ) (sync : Bool) (vm : Vm) (live : pt.asid ≢ 0) where
  -- For a process with an ASID other than 0, a range that does not wrap, and enough free pages, the call succeeds. Each address of
  -- the range above the page of `addr - 1` then leads, at its own offset, into a page of RAM that
  -- had no owner and that the process owns now. Every address of every other table, and every
  -- address of this one outside the mapped pages, is translated as before; a page that had an
  -- owner keeps it; and as many free pages are used up as the range needs.
  pub mmu_map_to_mem_maps :
      0 < addr
      → 0 < size
      → addr + size ≤ 2 ^ 32
      → pages_needed addr size ≤ free_pages vm
      → (vm' : Vm) × (mmu_map_to_mem pt addr size sync vm ≡ ok vm')
        × ((x : ℕ) → addr ≤ x → x < addr + size → start_page addr < x >>> 20 → MapsTo pt vm vm' x)
        × ((t x : ℕ)
            → (t ≢ pt.vaddr_map)
              ⊎ ((x >>> 20 < start_page addr + 1) ⊎ (end_page addr size + 1 ≤ x >>> 20))
            → translate (vm'.tables t) x ≡ translate (vm.tables t) x)
        × ((k : ℕ) → vm.paddr_to_asid_map k ≢ 0 → vm'.paddr_to_asid_map k ≡ vm.paddr_to_asid_map k)
        × (free_pages vm' + pages_needed addr size ≡ free_pages vm)
  mmu_map_to_mem_maps pos some_size fits enough =
      let (vm', run, p, count) =
        mmu_map_to_mem-Progress pt addr size sync vm live (omega arith) enough in
      (
        vm',
        run,
        (λ x h g above.
            Fresh-MapsTo pt sync vm vm' x (p.done (x >>> 20) (omega arith) (omega arith))),
        Progress-translate p,
        p.owned,
        count,
      )

  -- With fewer free pages than the range needs, a process with an ASID other than 0 gets none: the
  -- machine stops, out of memory.
  pub mmu_map_to_mem-out_of_memory :
      free_pages vm < pages_needed addr size
      → mmu_map_to_mem pt addr size sync vm ≡ panic out_of_memory
  unfolding mmu_map_to_mem
  mmu_map_to_mem-out_of_memory short =
      map_pages-out_of_memory pt (pages_needed addr size) (start_page addr + 1)
        (end_page addr size + 1) sync vm live (omega arith) (omega arith) short
