-- ===== src/Vm/Unmap.antt =====
-- `mmu_unmap`: which pages it gives back.
use native.Mathlib.Decide.{ℕ_discrete}
use simple_pi_os.Prelude.{
  Bool-cases, ap, arith, false, inl, inr, ok, ok-injective, refl, subst, suc, sym, update, zero, ℕ,
  ◌!=◌, ◌&&◌, ◌+◌, ◌<◌, ◌∙◌, ◌≡◌, ◌≢◌,
}
use simple_pi_os.Descriptor.{Fld}
use simple_pi_os.Vm.{Vm, PageTable, n_phys_pages, n_virt_pages, unmap_entry, unmap_from, mmu_unmap}
use simple_pi_os.Vm.Ownership.{IsPrivatePte, IsOwner}

-- No private descriptor of the table leads past the end of `paddr_to_asid_map`.
abbrev pub InRam : PageTable → Vm → Type 0
InRam pt vm =
    (i : ℕ)
    → IsPrivatePte (vm.tables pt.vaddr_map i)
    → (vm.tables pt.vaddr_map i).sec_base_addr < n_phys_pages

-- What the loop has done when it stands at descriptor `end`.
pub record Unmapped (pt : PageTable) (old : Vm) (end : ℕ) (new : Vm) : Type 0 where
  pub tables : new.tables ≡ old.tables
  pub freed :
      (i : ℕ)
      → i < end
      → IsPrivatePte (old.tables pt.vaddr_map i)
      → new.paddr_to_asid_map (old.tables pt.vaddr_map i).sec_base_addr ≡ 0
  pub kept :
      (k : ℕ)
      → ((i : ℕ)
          → IsPrivatePte (old.tables pt.vaddr_map i)
          → (old.tables pt.vaddr_map i).sec_base_addr ≢ k)
      → new.paddr_to_asid_map k ≡ old.paddr_to_asid_map k

module _ (pt : PageTable) (old : Vm) (bounded : InRam pt old) where
  unmap_entry-Unmapped :
      (i : ℕ) (vm : Vm)
      → Unmapped pt old i vm
      → (vm' : Vm) × (unmap_entry pt i vm ≡ ok vm') × Unmapped pt old (i + 1) vm'
  unfolding unmap_entry
  unmap_entry-Unmapped i vm u = elim (Bool-cases (e.tag != 0 && e.n_g != 0)) [
    | inl p ↦ (
      record vm { paddr_to_asid_map = update vm.paddr_to_asid_map e.sec_base_addr 0 },
      ground (arith, same, bounded i (ground arith)),
      record {
        tables = u.tables;
        freed = λ j h g. elim (ℕ_discrete j i) [
          | yes q ↦ rw q (ground arith)
          | no nq ↦ ground (arith, u.freed j (omega arith) g)
        ];
        kept = λ k h. ground (arith, h i (ground arith), u.kept k h);
      },
    )
    | inr p ↦ (
      vm,
      ground (arith, same),
      record {
        tables = u.tables;
        freed = λ j h g. elim (ℕ_discrete j i) [
          | yes q ↦
              absurd (not_private (subst (λ n. IsPrivatePte (old.tables pt.vaddr_map n)) q g) p)
          | no nq ↦ u.freed j (omega arith) g
        ];
        kept = u.kept;
      },
    )
  ]
    where
      e : Fld
      e = old.tables pt.vaddr_map i

      same : vm.tables pt.vaddr_map i ≡ e
      same = ap (λ (t : ℕ → ℕ → Fld). t pt.vaddr_map i) u.tables

      not_private : IsPrivatePte e → (e.tag != 0 && e.n_g != 0) ≢ false
      not_private h = ground arith

  unmap_from-Unmapped :
      (rounds i end : ℕ) (vm : Vm)
      → i + rounds ≡ end
      → Unmapped pt old i vm
      → (vm' : Vm) × (unmap_from pt rounds i vm ≡ ok vm') × Unmapped pt old end vm'
  unfolding unmap_from
  unmap_from-Unmapped zero i end vm e u =
      (vm, refl, subst (λ n. Unmapped pt old n vm) (omega arith) u)
  unmap_from-Unmapped (suc rounds) i end vm e u =
      let (v, one, w) = unmap_entry-Unmapped i vm u in
      let (vm', run, z) = unmap_from-Unmapped rounds (i + 1) end v (omega arith) w in
      (vm', rw one run, z)

  pub mmu_unmap-Unmapped :
      (vm' : Vm) × (mmu_unmap pt old ≡ ok vm') × Unmapped pt old n_virt_pages vm'
  unfolding mmu_unmap
  mmu_unmap-Unmapped =
      unmap_from-Unmapped n_virt_pages 0 n_virt_pages old refl
        (record { tables = refl; freed = λ i h. elim h [ ]; kept = λ k h. refl })

-- An owner stays one where its table and its pages stay.
IsOwner-kept :
    {q : PageTable} {vm vm' : Vm}
    → vm'.tables ≡ vm.tables
    → ((k : ℕ) → vm.paddr_to_asid_map k ≡ q.asid → vm'.paddr_to_asid_map k ≡ q.asid)
    → IsOwner q vm
    → IsOwner q vm'
IsOwner-kept {q} {vm} {vm'} same keep w = record {
  live = w.live;
  ram = λ i. rw (entry i) (λ h. ((w.ram i h).0, keep _ (w.ram i h).1));
  once = λ i j. rw (entry i, entry j) (w.once i j);
}
  where
    entry : (i : ℕ) → vm'.tables q.vaddr_map i ≡ vm.tables q.vaddr_map i
    entry i = ap (λ (t : ℕ → ℕ → Fld). t q.vaddr_map i) same

module _ (pt : PageTable) (vm : Vm) (v : IsOwner pt vm) where
  -- Giving up the table of a process that owns what it maps always ends well. Each page of RAM that the process mapped has no
  -- owner afterwards, each page of another owner keeps it, and no table is changed.
  pub mmu_unmap_frees :
      (vm' : Vm) × (mmu_unmap pt vm ≡ ok vm')
      × (vm'.tables ≡ vm.tables)
      × ((i : ℕ)
          → i < n_virt_pages
          → IsPrivatePte (vm.tables pt.vaddr_map i)
          → vm'.paddr_to_asid_map (vm.tables pt.vaddr_map i).sec_base_addr ≡ 0)
      × ((k : ℕ)
          → vm.paddr_to_asid_map k ≢ pt.asid
          → vm'.paddr_to_asid_map k ≡ vm.paddr_to_asid_map k)
  mmu_unmap_frees =
      let (vm', run, u) = mmu_unmap-Unmapped pt vm (λ i h. (v.ram i h).0) in
      (
        vm',
        run,
        u.tables,
        u.freed,
        λ k ne. u.kept k (λ i h e. ne (sym (ap vm.paddr_to_asid_map e) ∙ (v.ram i h).1)),
      )

  -- A process with another ASID that owned all that it maps still does when the table of a process that
  -- maps only RAM, and owns it, is given up.
  pub mmu_unmap-IsOwner :
      (q : PageTable) (vm' : Vm)
      → q.asid ≢ pt.asid
      → IsOwner q vm
      → mmu_unmap pt vm ≡ ok vm'
      → IsOwner q vm'
  mmu_unmap-IsOwner q vm' ne w run =
      let (done, run', same, freed, kept) = mmu_unmap_frees in
      subst (IsOwner q) (ok-injective (sym run' ∙ run))
        (IsOwner-kept same (λ k e. kept k (λ p. ne (sym e ∙ p)) ∙ e) w)

-- A mapping that `exec_file` made with MAP_FLAG_SHARED is not told from a private one: when the
-- child's table leads to a page of RAM that another process owns and maps too, `mmu_unmap` of the
-- child takes the page from that process, whose table still leads to it.
pub mmu_unmap_shared :
    (pt q : PageTable) (vm : Vm) (i j : ℕ)
    → InRam pt vm
    → i < n_virt_pages
    → IsPrivatePte (vm.tables pt.vaddr_map i)
    → IsPrivatePte (vm.tables q.vaddr_map j)
    → (vm.tables pt.vaddr_map i).sec_base_addr ≡ (vm.tables q.vaddr_map j).sec_base_addr
    → (vm' : Vm) × (mmu_unmap pt vm ≡ ok vm')
      × (vm'.tables ≡ vm.tables)
      × (vm'.paddr_to_asid_map (vm.tables q.vaddr_map j).sec_base_addr ≡ 0)
      × (¬ IsOwner q vm')
mmu_unmap_shared pt q vm i j bounded small h g e =
    let (vm', run, u) = mmu_unmap-Unmapped pt vm bounded in
    let freed : vm'.paddr_to_asid_map (vm.tables q.vaddr_map j).sec_base_addr ≡ 0 =
      ap vm'.paddr_to_asid_map (sym e) ∙ u.freed i small h in
    (vm', run, u.tables, freed, λ w. w.live (sym (owned vm' u.tables w) ∙ freed))
  where
    owned :
        (vm' : Vm)
        → vm'.tables ≡ vm.tables
        → IsOwner q vm'
        → vm'.paddr_to_asid_map (vm.tables q.vaddr_map j).sec_base_addr ≡ q.asid
    owned vm' same w =
        let entry = ap (λ (t : ℕ → ℕ → Fld). t q.vaddr_map j) same in ((rw entry at (w.ram j)) g).1
