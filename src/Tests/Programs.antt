-- ===== src/Tests/Programs.antt =====
-- A small program in memory: one program header, a symbol table, `.bss` and `.text`.
use simple_pi_os.Prelude.{
  List, [], arith, codes, drop, length, ok, refl, replicate, some, true, ℕ, ◌%◌, ◌++◌, ◌+◌, ◌/◌,
  ◌^◌, ◌∷◌, ◌≡◌, ◌≤◌,
}
use simple_pi_os.Elf.HeapStart.{IsHeapSection, bss, end_of, get_heap_address-above}
use simple_pi_os.Descriptor.{zero_fld}
use simple_pi_os.Vm.{Vm, map_pages, mmu_map_to_mem}
use simple_pi_os.Process.{Process}
use simple_pi_os.Elf.{
  Image, Shdr, ehdr_at, elf_magic_valid, get_heap_address, half_at, is_data, is_section, is_string,
  locate_symbol_table, locate_text_section, phdr_at, shdr_at, word_at,
}
use simple_pi_os.Elf.Load.{
  Instrs, Loading, elf_load, finish, init_bss_sections, load_copy, load_jump, load_sections,
  load_segments, load_tables, load_zero, map_for, put_instr, put_range,
}
use simple_pi_os.Elf.Program.{IsProgram, elf_load-IsProgram}

abbrev half : ℕ → List ℕ
half x = x % 256 ∷ x / 256 ∷ []

abbrev le_words : List ℕ → List ℕ
le_words [] = []
le_words (w ∷ ws) = half (w % 2 ^ 16) ++ (half (w / 2 ^ 16) ++ le_words ws)

abbrev bytes : List ℕ
bytes =
    (0x7f ∷ codes "ELF")
    ++ (replicate 12 0
        ++ (half 2
            ++ (half 40
                ++ (le_words (1 ∷ 0x8000 ∷ 52 ∷ 84 ∷ 0 ∷ [])
                    ++ (half 52
                        ++ (half 32
                            ++ (half 1
                                ++ (half 40
                                    ++ (half 4
                                        ++ (half 0
                                            ++ (le_words (1 ∷ 0 ∷ 0x8000 ∷ 0 ∷ 16 ∷ 16 ∷ 0 ∷ 0 ∷ [])
                                                ++ (le_words (
                                                      0 ∷ 3 ∷ 0 ∷ 0 ∷ 244 ∷ 12 ∷ 0 ∷ 0 ∷ 0 ∷ 0 ∷ [])
                                                    ++ (le_words (
                                                          0 ∷ 2 ∷ 0 ∷ 0 ∷ 0 ∷ 16 ∷ 0 ∷ 0 ∷ 0 ∷ 16
                                                          ∷ [])
                                                        ++ (le_words (
                                                            1 ∷ 8 ∷ 0 ∷ 0x9000 ∷ 0 ∷ 0x20 ∷ 0 ∷ 0
                                                            ∷ 0 ∷ 0 ∷ [])
                                                            ++ (le_words (
                                                            6 ∷ 1 ∷ 0 ∷ 0x8000 ∷ 0 ∷ 16 ∷ 0 ∷ 0 ∷ 0
                                                            ∷ 0 ∷ [])
                                                            ++ ((0 ∷ codes ".bss")
                                                            ++ (0
                                                            ∷ (codes ".text"
                                                            ++ (0 ∷ [])))))))))))))))))))

abbrev vm : Vm
vm = record {
  paddr_to_asid_map = λ _. 0;
  tables = λ _ _. zero_fld;
  cpu = record { control_reg1 = 0; domain_access_ctrl = 0; procid = 0; ttbr0 = 0 };
  cache_ops = [];
  ram = λ _. 0;
}

abbrev proc : Process
proc = record { heap_start = 0; heap_end = 0; page_tab = record { asid = 2; vaddr_map = 2 } }

abbrev file : Image
file = record { data_addr = 0x1000_0000; bytes = bytes; n_data = length bytes }

abbrev loading : Loading
loading = record { file = file; proc = proc; vm = vm }

abbrev empty : Instrs
empty = record { instr_lst = []; room = 256 }

abbrev program : Instrs
program = record {
  instr_lst = load_copy 0x1000_0000 0x8000 16 ∷ load_zero 0x9000 0x20 ∷ load_jump 0x8000 ∷ [];
  room = 253;
}

heap_found : get_heap_address bytes 244 84 4 0 ≡ ok 0x9020
unfolding get_heap_address shdr_at word_at half_at is_data is_section is_string
heap_found = refl

abbrev bss_header : Shdr
bss_header = record {
  sh_name = 1;
  sh_type = 8;
  sh_addr = 0x9000;
  sh_offset = 0;
  sh_size = 0x20;
  sh_entsize = 0;
}

bss_there : shdr_at bytes 164 ≡ ok bss_header
unfolding shdr_at word_at half_at
bss_there = refl

bss_name : is_string (drop (244 + 1) bytes) (codes ".bss") ≡ ok true
unfolding is_string
bss_name = refl

bss_counts : IsHeapSection bytes 244 bss_header
bss_counts = bss refl bss_name

-- A section named `.data` counts.
data_counts :
    is_data (codes ".data" ++ (0 ∷ [])) 0 (record bss_header { sh_name = 0; sh_type = 1 }) ≡ ok true
unfolding is_data is_section is_string
data_counts = refl

get_heap_address-above_example : end_of bss_header ≤ 0x9020
get_heap_address-above_example =
    get_heap_address-above bytes 244 84 4 0 0x9020 2 bss_header heap_found (omega arith) bss_there
      bss_counts

loaded :
    elf_load empty loading
    ≡ ok (some program, record loading { proc = record proc { heap_start = 0x9020 } })
unfolding elf_load elf_magic_valid ehdr_at shdr_at phdr_at word_at half_at load_tables load_segments
    put_range map_for put_instr load_sections locate_symbol_table init_bss_sections finish
    get_heap_address is_data is_section is_string locate_text_section mmu_map_to_mem map_pages
loaded = refl

elf_load-IsProgram_example : IsProgram file program.instr_lst 0x9020 × (253 + 3 ≡ 256)
elf_load-IsProgram_example =
    elf_load-IsProgram empty program loading
      (record loading { proc = record proc { heap_start = 0x9020 } }) loaded refl
