-- ===== src/Elf/Tables.antt =====
-- What the loops of `elf_load` over the program headers and the sections add to the list.
use mathlib.Core.List.{append-nil}
use simple_pi_os.Prelude.{
  ==→eq, Bool-cases, List, Option, Result, [], and_then-ok, ap, append_assoc, arith, codes,
  demand-ok, false, if◌then◌else◌, inl, inr, length, length-append, none, ok, ok-injective, refl,
  some, suc, sym, true, zero, ℕ, ◌!=◌, ◌++◌, ◌+◌, ◌-◌, ◌==◌, ◌>>=◌, ◌∙◌, ◌∷◌, ◌≡◌, ◌≢◌,
}
use simple_pi_os.Elf.{Image, Shdr, shdr_at, Phdr, phdr_at, is_section, sht_nobits, pt_load}
use simple_pi_os.Vm.{mmu_map_to_mem}
use simple_pi_os.Elf.Load.{
  LoadInstr, load_zero, Instrs, put_instr, put_range, copy_of, Loading, map_for, load_segments,
  init_bss_sections,
}

-- The program headers are all to be loaded, and give one copy each, in order.
pub data Segments (file : Image) : (off n : ℕ) → List LoadInstr → Type 0 where
  no_more : {off : ℕ} → Segments file off 0 []
  segment :
      {off n : ℕ} {is : List LoadInstr} (p : Phdr)
      → phdr_at file.bytes off ≡ ok p
      → p.p_type ≡ pt_load
      → Segments file (off + 32) n is
      → Segments file off (suc n) (copy_of file p ∷ is)

-- Each section `.bss` gives one range to clear, in order, and no other section does.
pub data Cleared (file : Image) (names : ℕ) : (off n : ℕ) → List LoadInstr → Type 0 where
  no_more : {off : ℕ} → Cleared file names off 0 []
  bss :
      {off n : ℕ} {is : List LoadInstr} (s : Shdr)
      → shdr_at file.bytes off ≡ ok s
      → is_section file.bytes names sht_nobits (codes ".bss") s ≡ ok true
      → Cleared file names (off + 40) n is
      → Cleared file names off (suc n) (load_zero s.sh_addr s.sh_size ∷ is)
  other :
      {off n : ℕ} {is : List LoadInstr} (s : Shdr)
      → shdr_at file.bytes off ≡ ok s
      → is_section file.bytes names sht_nobits (codes ".bss") s ≡ ok false
      → Cleared file names (off + 40) n is
      → Cleared file names off (suc n) is

-- The list grew by these operations, and has so many places less.
pub record Grew (lst : Instrs) (is : List LoadInstr) (out : Instrs) : Type 0 where
  pub added : out.instr_lst ≡ lst.instr_lst ++ is
  pub used : out.room + length is ≡ lst.room

pub put_instr-Grew :
    (i : LoadInstr) (lst out : Instrs) → put_instr i lst ≡ ok out → Grew lst (i ∷ []) out
unfolding put_instr
put_instr-Grew i lst out h =
    let got =
      demand-ok (lst.room != 0)
        (ok (record { instr_lst = lst.instr_lst ++ (i ∷ []); room = lst.room - 1 })) out h in
    let same : record { instr_lst = lst.instr_lst ++ (i ∷ []); room = lst.room - 1 } ≡ out =
      ok-injective got.1 in
    rw (← same) (record { added = refl; used = rest lst.room got.0 })
  where
    rest : (n : ℕ) → (n != 0) ≡ true → (n - 1) + 1 ≡ n
    rest n h = ground arith

pub Grew-trans :
    (lst mid out : Instrs) (is js : List LoadInstr)
    → Grew lst is mid
    → Grew mid js out
    → Grew lst (is ++ js) out
Grew-trans lst mid out is js a b = record {
  added = b.added ∙ ap (λ l. l ++ js) a.added ∙ append_assoc lst.instr_lst is js;
  used = omega (arith, a.used, b.used, length-append is js);
}

put_range-Grew :
    (i : LoadInstr) (addr size : ℕ) (lst : Instrs) (l : Loading) (got : Instrs × Loading)
    → put_range i addr size lst l ≡ ok got
    → Grew lst (i ∷ []) got.0 × (got.1.file ≡ l.file)
unfolding put_range map_for
put_range-Grew i addr size lst l got h =
    let mapped =
      and_then-ok (map_for addr size l) (λ l. put_instr i lst >>= λ lst. ok (lst, l)) got h in
    let put = and_then-ok (put_instr i lst) (λ lst. ok (lst, mapped.0)) got mapped.2 in
    let same : (put.0, mapped.0) ≡ got = ok-injective put.2 in
    let kept =
      and_then-ok (mmu_map_to_mem l.proc.page_tab addr size false l.vm)
        (λ vm. ok (record l { vm = vm })) mapped.0 mapped.1 in
    rw (← same) (put_instr-Grew i lst put.0 put.1, ap (λ l. l.file) (sym (ok-injective kept.2)))

abbrev pub Out : Type 0
Out = Result (Option Instrs × Loading)

pub some_pair :
    {o p : Instrs} {l m : Loading}
    → ◌≡◌ {A = Out} (ok (some o, l)) (ok (some p, m))
    → (o ≡ p) × (l ≡ m)
some_pair h = (cc, cc)

pub no_pair : {p : Instrs} {l m : Loading} → ◌≢◌ {A = Out} (ok (none, l)) (ok (some p, m))
no_pair h = cc

pub load_segments-Segments :
    (off n : ℕ) (lst out : Instrs) (l l' : Loading)
    → load_segments off n lst l ≡ ok (some out, l')
    → (is : List LoadInstr) × Segments l.file off n is × Grew lst is out × (l'.file ≡ l.file)
unfolding load_segments
load_segments-Segments off zero lst out l l' h =
    let same = some_pair h in
    (
      [],
      no_more,
      rw (← same.0) (record { added = sym (append-nil lst.instr_lst); used = omega arith }),
      ap (λ l. l.file) (sym same.1),
    )
load_segments-Segments off (suc n) lst out l l' h =
    let p =
      and_then-ok (phdr_at l.file.bytes off)
        (λ phdr.
          if phdr.p_type == pt_load
          then (put_range (copy_of l.file phdr) phdr.p_vaddr phdr.p_filesz lst l >>= λ got.
              load_segments (off + 32) n got.0 got.1)
          else ok (none, l))
        (some out, l') h in
    elim (Bool-cases (p.0.p_type == pt_load)) [
      | inr e ↦ absurd (no_pair (rw e at p.2))
      | inl e ↦
          let put =
            and_then-ok (put_range (copy_of l.file p.0) p.0.p_vaddr p.0.p_filesz lst l)
              (λ got. load_segments (off + 32) n got.0 got.1) (some out, l') (rw e at p.2) in
          let one =
            put_range-Grew (copy_of l.file p.0) p.0.p_vaddr p.0.p_filesz lst l put.0 put.1 in
          let rest = load_segments-Segments (off + 32) n put.0.0 out put.0.1 l' put.2 in
          (
            copy_of l.file p.0 ∷ rest.0,
            segment p.0 p.1 (==→eq p.0.p_type pt_load e) (rw one.1 at rest.1),
            Grew-trans lst put.0.0 out (copy_of l.file p.0 ∷ []) rest.0 one.0 rest.2,
            rest.3 ∙ one.1,
          )
    ]

pub init_bss_sections-Cleared :
    (names off n : ℕ) (lst : Instrs) (l : Loading) (got : Instrs × Loading)
    → init_bss_sections names off n lst l ≡ ok got
    → (is : List LoadInstr) × Cleared l.file names off n is
      × Grew lst is got.0
      × (got.1.file ≡ l.file)
unfolding init_bss_sections
init_bss_sections-Cleared names off zero lst l got h =
    let same : (lst, l) ≡ got = ok-injective h in
    (
      [],
      no_more,
      rw (← same) (record { added = sym (append-nil lst.instr_lst); used = omega arith }),
      rw (← same) refl,
    )
init_bss_sections-Cleared names off (suc n) lst l got h =
    let s =
      and_then-ok (shdr_at l.file.bytes off)
        (λ shdr. is_section l.file.bytes names sht_nobits (codes ".bss") shdr >>= λ bss.
          (if bss
            then put_range (load_zero shdr.sh_addr shdr.sh_size) shdr.sh_addr shdr.sh_size lst l
            else ok (lst, l))
          >>= λ got. init_bss_sections names (off + 40) n got.0 got.1)
        got h in
    let b =
      and_then-ok (is_section l.file.bytes names sht_nobits (codes ".bss") s.0)
        (λ bss.
          (if bss
            then put_range (load_zero s.0.sh_addr s.0.sh_size) s.0.sh_addr s.0.sh_size lst l
            else ok (lst, l))
          >>= λ got. init_bss_sections names (off + 40) n got.0 got.1)
        got s.2 in
    let put =
      and_then-ok
        (if b.0
          then put_range (load_zero s.0.sh_addr s.0.sh_size) s.0.sh_addr s.0.sh_size lst l
          else ok (lst, l))
        (λ got. init_bss_sections names (off + 40) n got.0 got.1) got b.2 in
    let rest = init_bss_sections-Cleared names (off + 40) n put.0.0 put.0.1 got put.2 in
    elim (Bool-cases b.0) [
      | inl e ↦
          let one =
            put_range-Grew (load_zero s.0.sh_addr s.0.sh_size) s.0.sh_addr s.0.sh_size lst l put.0
              (rw e at put.1) in
          (
            load_zero s.0.sh_addr s.0.sh_size ∷ rest.0,
            bss s.0 s.1 (b.1 ∙ ap ok e) (rw one.1 at rest.1),
            Grew-trans lst put.0.0 got.0 (load_zero s.0.sh_addr s.0.sh_size ∷ []) rest.0 one.0
                rest.2,
            rest.3 ∙ one.1,
          )
      | inr e ↦
          let same : (lst, l) ≡ put.0 = ok-injective (rw e at put.1) in
          (
            rest.0,
            other s.0 s.1 (b.1 ∙ ap ok e) (rw (sym (ap (λ p. p.1) same)) at rest.1),
            (rw (sym (ap (λ p. p.0) same)) at rest.2),
            rest.3 ∙ sym (ap (λ p. p.1.file) same),
          )
    ]
