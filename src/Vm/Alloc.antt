-- ===== src/Vm/Alloc.antt =====
-- `find_available_page`: first fit over the physical pages 1 to 511.
use simple_pi_os.Prelude.{
  ==→eq, Bool-cases, arith, inl, inr, refl, suc, zero, ℕ, ◌*◌, ◌+◌, ◌<◌, ◌==◌, ◌^◌, ◌≡◌, ◌≢◌, ◌≤◌,
  ◌⊎◌,
}
use native.Mathlib.Decide.{ℕ_discrete}
use simple_pi_os.Vm.{Vm, n_phys_pages, find_page_from, find_available_page}

-- `pa` is the first page of `i` to `end - 1` without an owner, or 0 if all have one.
abbrev pub FirstFree : (owner : ℕ → ℕ) (i end pa : ℕ) → Type 0
FirstFree owner i end pa =
    ((pa ≡ 0) × ((k : ℕ) → i ≤ k → k < end → owner k ≢ 0))
    ⊎ ((k : ℕ) × (pa ≡ k * 2 ^ 20)
        × (i ≤ k)
        × (k < end)
        × (owner k ≡ 0)
        × ((j : ℕ) → i ≤ j → j < k → owner j ≢ 0))

-- One owned page more in front.
owned_from :
    (owner : ℕ → ℕ) (i end : ℕ)
    → owner i ≢ 0
    → ((k : ℕ) → i + 1 ≤ k → k < end → owner k ≢ 0)
    → (k : ℕ) → i ≤ k
    → k < end
    → owner k ≢ 0
owned_from owner i end taken all k h g = elim (ℕ_discrete k i) [
  | yes e ↦ rw e taken
  | no ne ↦ all k (omega arith) g
]

FirstFree-skip :
    (owner : ℕ → ℕ) (i end pa : ℕ)
    → owner i ≢ 0
    → FirstFree owner (i + 1) end pa
    → FirstFree owner i end pa
FirstFree-skip owner i end pa taken (inl (z, all)) = inl (z, owned_from owner i end taken all)
FirstFree-skip owner i end pa taken (inr (k, e, h, g, free, all)) =
    inr (k, e, omega arith, g, free, owned_from owner i k taken all)

find_page_from-FirstFree :
    (rounds i end : ℕ) (owner : ℕ → ℕ)
    → i + rounds ≡ end
    → end ≤ 4096
    → FirstFree owner i end (find_page_from rounds i owner)
unfolding find_page_from
find_page_from-FirstFree zero i end owner e small = inl (refl, λ k h g. absurd (omega arith))
find_page_from-FirstFree (suc rounds) i end owner e small = elim (Bool-cases (owner i == 0)) [
  | inl free ↦ rw free (
      inr (i, omega arith, omega arith, omega arith, ==→eq _ _ free, λ j h g. absurd (omega arith)))
  | inr taken ↦ rw taken (
      FirstFree-skip owner i end _ (ground arith)
        (find_page_from-FirstFree rounds (i + 1) end owner (omega arith) small))
]

-- What `find_available_page` returns.
pub find_available_page-FirstFree :
    (vm : Vm) → FirstFree vm.paddr_to_asid_map 1 n_phys_pages (find_available_page vm)
unfolding find_available_page
find_available_page-FirstFree vm = find_page_from-FirstFree 511 1 512 _ (omega arith) (omega arith)
