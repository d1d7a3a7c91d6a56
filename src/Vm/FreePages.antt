-- ===== src/Vm/FreePages.antt =====
-- Counting the physical pages without an owner.
use native.Mathlib.Decide.{ℕ_discrete}
use simple_pi_os.Prelude.{
  arith, if◌then◌else◌, refl, suc, update, zero, ℕ, ◌+◌, ◌-◌, ◌<◌, ◌==◌, ◌≡◌, ◌≢◌, ◌≤◌,
}
use simple_pi_os.Vm.{Vm, n_phys_pages}

-- How many of `rounds` pages from `i` on have no owner.
unfoldable pub free_from : (rounds i : ℕ) → (ℕ → ℕ) → ℕ
free_from zero i owner = 0
free_from (suc rounds) i owner = (if owner i == 0 then 1 else 0) + free_from rounds (i + 1) owner

unfoldable pub free_pages : Vm → ℕ
free_pages vm = free_from (n_phys_pages - 1) 1 vm.paddr_to_asid_map

pub free_from-ext :
    (rounds i : ℕ) (f g : ℕ → ℕ)
    → ((j : ℕ) → i ≤ j → f j ≡ g j)
    → free_from rounds i f ≡ free_from rounds i g
unfolding free_from
free_from-ext zero i f g h = refl
free_from-ext (suc rounds) i f g h =
    ground (arith, h i (omega arith), free_from-ext rounds (i + 1) f g (λ j p. h j (omega arith)))

pub free_from-update :
    (rounds i k asid : ℕ) (owner : ℕ → ℕ)
    → i ≤ k
    → k < i + rounds
    → owner k ≡ 0
    → asid ≢ 0
    → suc (free_from rounds i (update owner k asid)) ≡ free_from rounds i owner
unfolding free_from
free_from-update zero i k asid owner h g free pos = absurd (omega arith)
free_from-update (suc rounds) i k asid owner h g free pos = elim (ℕ_discrete i k) [
  | yes e ↦
      ground (arith, free_from-ext rounds (i + 1) (update owner k asid) owner (λ j p. ground arith))
  | no ne ↦
      ground
        (arith, free_from-update rounds (i + 1) k asid owner (omega arith) (omega arith) free pos)
]

pub free_from-zero :
    (rounds i : ℕ) (owner : ℕ → ℕ)
    → ((k : ℕ) → i ≤ k → k < i + rounds → owner k ≢ 0)
    → free_from rounds i owner ≡ 0
unfolding free_from
free_from-zero zero i owner all = refl
free_from-zero (suc rounds) i owner all = ground (
  arith,
  all i (omega arith) (omega arith),
  free_from-zero rounds (i + 1) owner (λ k h g. all k (omega arith) (omega arith)),
)
