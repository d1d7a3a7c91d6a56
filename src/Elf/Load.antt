-- ===== src/Elf/Load.antt =====
-- `elf_load` of pi-side/kernel/elf.c.
use simple_pi_os.Prelude.{
  List, Option, Result, [], codes, demand, drop, false, if◌then◌else◌, ltb, none, not, ok, some,
  suc, take, u32, zero, ℕ, ◌!=◌, ◌*◌, ◌++◌, ◌+◌, ◌-◌, ◌==◌, ◌>>=◌, ◌>>◌, ◌∷◌,
}
use simple_pi_os.Vm.{Vm, mmu_map_to_mem}
use simple_pi_os.Process.{Process}
use simple_pi_os.Elf.{
  Image, word_at, Ehdr, ehdr_at, shdr_at, Phdr, phdr_at, elf_magic_valid, is_section,
  locate_symbol_table, get_heap_address, locate_text_section, sht_nobits, et_exec, pt_load,
}

-- What is to be done in the address space of the new process, pi-side/kernel/exec.h.
pub data LoadInstr : Type 0 where
  load_copy : (src_addr dst_addr size : ℕ) → LoadInstr
  load_zero : (dst_addr size : ℕ) → LoadInstr
  load_jump : (dst_addr : ℕ) → LoadInstr

-- The list so far, and how many places are left behind it.
pub record Instrs : Type 0 where
  pub instr_lst : List LoadInstr
  pub room : ℕ

unfoldable pub put_instr : LoadInstr → Instrs → Result Instrs
put_instr i lst =
    demand (lst.room != 0)
    >> ok (record { instr_lst = lst.instr_lst ++ (i ∷ []); room = lst.room - 1 })

pub record Loading : Type 0 where
  pub file : Image
  pub proc : Process
  pub vm : Vm

unfoldable pub map_for : (addr size : ℕ) → Loading → Result Loading
map_for addr size l = do
  vm ← mmu_map_to_mem l.proc.page_tab addr size false l.vm
  ok (record l { vm = vm })

-- Pages for a range of the new process, and what is to be done with it.
unfoldable pub put_range :
    LoadInstr → (addr size : ℕ) → Instrs → Loading → Result (Instrs × Loading)
put_range i addr size lst l = do l ← map_for addr size l; lst ← put_instr i lst; ok (lst, l)

abbrev pub copy_of : Image → Phdr → LoadInstr
copy_of file phdr = load_copy (u32 (file.data_addr + phdr.p_offset)) phdr.p_vaddr phdr.p_filesz

-- The loop over the program headers; `none` is an unsupported one.
unfoldable pub load_segments : (off n : ℕ) → Instrs → Loading → Result (Option Instrs × Loading)
load_segments off zero lst l = ok (some lst, l)
load_segments off (suc n) lst l = do
  phdr ← phdr_at l.file.bytes off
  if phdr.p_type == pt_load
      then (put_range (copy_of l.file phdr) phdr.p_vaddr phdr.p_filesz lst l >>= λ got.
          load_segments (off + 32) n got.0 got.1)
      else ok (none, l)

unfoldable pub init_bss_sections : (names off n : ℕ) → Instrs → Loading → Result (Instrs × Loading)
init_bss_sections names off zero lst l = ok (lst, l)
init_bss_sections names off (suc n) lst l = do
  shdr ← shdr_at l.file.bytes off
  bss ← is_section l.file.bytes names sht_nobits (codes ".bss") shdr
  got ←
      (if bss
        then put_range (load_zero shdr.sh_addr shdr.sh_size) shdr.sh_addr shdr.sh_size lst l
        else ok (lst, l))
  init_bss_sections names (off + 40) n got.0 got.1

-- What comes behind the sections to clear: the start of the heap, and the jump.
unfoldable pub finish : Ehdr → (names : ℕ) → Instrs → Loading → Result (Option Instrs × Loading)
finish ehdr names lst l = do
  heap ← get_heap_address l.file.bytes names ehdr.e_shoff ehdr.e_shnum 0
  text_sh ← locate_text_section l.file.bytes names ehdr.e_shoff ehdr.e_shnum
  let l = record l { proc = record l.proc { heap_start = heap } }
  elim text_sh [
    | none ↦ ok (none, l)
    | some text ↦ (put_instr (load_jump text.sh_addr) lst >>= λ lst. ok (some lst, l))
  ]

-- What comes behind the program headers.
unfoldable pub load_sections :
    Ehdr → (names : ℕ) → Instrs → Loading → Result (Option Instrs × Loading)
load_sections ehdr names lst l = do
  n_sym_tab ← locate_symbol_table l.file.bytes ehdr.e_shoff ehdr.e_shnum
  if n_sym_tab == 0
      then ok (none, l)
      else (init_bss_sections names ehdr.e_shoff ehdr.e_shnum lst l >>= λ got.
          finish ehdr names got.0 got.1)

-- A file with the wrong magic is marked at the end of it, for the message.
unfoldable pub cut_magic : Image → Image
cut_magic file = record file { bytes = take 4 file.bytes ++ (0 ∷ drop 5 file.bytes) }

unfoldable pub load_tables : Ehdr → Instrs → Loading → Result (Option Instrs × Loading)
load_tables ehdr lst l = do
  names ← word_at l.file.bytes (ehdr.e_shoff + ehdr.e_shstrndx * 40 + 16)
  got ← load_segments ehdr.e_phoff ehdr.e_phnum lst l
  elim got.0 [ none ↦ ok (none, got.1) | some lst ↦ load_sections ehdr names lst got.1 ]

unfoldable pub elf_load : Instrs → Loading → Result (Option Instrs × Loading)
elf_load lst l =
    if ltb l.file.n_data 52
    then ok (none, l)
    else if not (elf_magic_valid l.file.bytes)
    then ok (none, record l { file = cut_magic l.file })
    else (ehdr_at l.file.bytes >>= λ ehdr.
        if ehdr.e_type != et_exec then ok (none, l) else load_tables ehdr lst l)
