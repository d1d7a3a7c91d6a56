-- ===== src/Elf.antt =====
-- The ELF loader of the kernel, pi-side/kernel/elf.c: it reads the headers of a program in memory, maps the
-- pages of the new process, and lists what is to be copied, cleared and jumped to.
pub mod Load
pub mod Tables
pub mod Program
pub mod HeapStart
use simple_pi_os.Prelude.{
  Bool, List, Option, Result, [], codes, demand, drop, false, fault, get_or, if◌then◌else◌, leb,
  length, max, none, ok, panic, same_string, some, suc, take, true, u32, u8, zero, ℕ, ◌*◌, ◌+◌, ◌/◌,
  ◌==◌, ◌>>=◌, ◌>>◌, ◌^◌, ◌∷◌,
}

-- An array in memory: where it stands, and its bytes.
pub record Image : Type 0 where
  pub data_addr : ℕ
  pub bytes : List ℕ
  pub n_data : ℕ

-- Fields are read in the order of an ARM machine, the lowest byte first.
unfoldable pub half_at : List ℕ → (off : ℕ) → Result ℕ
half_at mem off =
    if leb (off + 2) (length mem)
    then ok (u8 (get_or mem off 0) + u8 (get_or mem (off + 1) 0) * 2 ^ 8)
    else panic fault

unfoldable pub word_at : List ℕ → (off : ℕ) → Result ℕ
word_at mem off = do low ← half_at mem off; high ← half_at mem (off + 2); ok (low + high * 2 ^ 16)

-- The fields of the headers that the loader reads.
pub record Ehdr : Type 0 where
  pub e_type : ℕ
  pub e_phoff : ℕ
  pub e_shoff : ℕ
  pub e_phnum : ℕ
  pub e_shnum : ℕ
  pub e_shstrndx : ℕ

unfoldable pub ehdr_at : List ℕ → Result Ehdr
ehdr_at mem = do
  e_type ← half_at mem 16
  e_phoff ← word_at mem 28
  e_shoff ← word_at mem 32
  e_phnum ← half_at mem 44
  e_shnum ← half_at mem 48
  e_shstrndx ← half_at mem 50
  ok (record {
    e_type = e_type;
    e_phoff = e_phoff;
    e_shoff = e_shoff;
    e_phnum = e_phnum;
    e_shnum = e_shnum;
    e_shstrndx = e_shstrndx;
  })

pub record Shdr : Type 0 where
  pub sh_name : ℕ
  pub sh_type : ℕ
  pub sh_addr : ℕ
  pub sh_offset : ℕ
  pub sh_size : ℕ
  pub sh_entsize : ℕ

unfoldable pub shdr_at : List ℕ → (off : ℕ) → Result Shdr
shdr_at mem off = do
  sh_name ← word_at mem off
  sh_type ← word_at mem (off + 4)
  sh_addr ← word_at mem (off + 12)
  sh_offset ← word_at mem (off + 16)
  sh_size ← word_at mem (off + 20)
  sh_entsize ← word_at mem (off + 36)
  ok (record {
    sh_name = sh_name;
    sh_type = sh_type;
    sh_addr = sh_addr;
    sh_offset = sh_offset;
    sh_size = sh_size;
    sh_entsize = sh_entsize;
  })

pub record Phdr : Type 0 where
  pub p_type : ℕ
  pub p_offset : ℕ
  pub p_vaddr : ℕ
  pub p_filesz : ℕ

unfoldable pub phdr_at : List ℕ → (off : ℕ) → Result Phdr
phdr_at mem off = do
  p_type ← word_at mem off
  p_offset ← word_at mem (off + 4)
  p_vaddr ← word_at mem (off + 8)
  p_filesz ← word_at mem (off + 16)
  ok (record { p_type = p_type; p_offset = p_offset; p_vaddr = p_vaddr; p_filesz = p_filesz })

-- `strcmp` of a string in memory with a constant is zero.
unfoldable pub is_string : (mem text : List ℕ) → Result Bool
is_string [] text = panic fault
is_string (c ∷ mem) [] = ok (c == 0)
is_string (c ∷ mem) (x ∷ text) = if c == x then is_string mem text else ok false

abbrev pub sht_progbits : ℕ
sht_progbits = 1

abbrev pub sht_symtab : ℕ
sht_symtab = 2

abbrev pub sht_nobits : ℕ
sht_nobits = 8

abbrev pub et_exec : ℕ
et_exec = 2

abbrev pub pt_load : ℕ
pt_load = 1

-- sizeof(Elf32_Sym)
abbrev pub sizeof_sym : ℕ
sizeof_sym = 16

unfoldable pub elf_magic_valid : List ℕ → Bool
elf_magic_valid mem = same_string (take 4 mem) (0x7f ∷ codes "ELF")

-- The test that a loop over the sections makes of each.
unfoldable pub is_section : (mem : List ℕ) (names kind : ℕ) (name : List ℕ) → Shdr → Result Bool
is_section mem names kind name shdr =
    if shdr.sh_type == kind then is_string (drop (names + shdr.sh_name) mem) name else ok false

unfoldable pub locate_symbol_table : (mem : List ℕ) (off n : ℕ) → Result ℕ
locate_symbol_table mem off zero = ok 0
locate_symbol_table mem off (suc n) = do
  shdr ← shdr_at mem off
  if shdr.sh_type == sht_symtab
      then (demand (shdr.sh_entsize == sizeof_sym) >> ok (shdr.sh_size / sizeof_sym))
      else locate_symbol_table mem (off + 40) n

-- The sections that the heap comes after.
unfoldable pub is_data : (mem : List ℕ) (names : ℕ) → Shdr → Result Bool
is_data mem names shdr = do
  bss ← is_section mem names sht_nobits (codes ".bss") shdr
  plain ← (if bss then ok true else is_section mem names sht_progbits (codes ".data") shdr)
  if plain then ok true else is_section mem names sht_progbits (codes ".data1") shdr

unfoldable pub get_heap_address : (mem : List ℕ) (names off n heap_addr : ℕ) → Result ℕ
get_heap_address mem names off zero heap_addr = ok heap_addr
get_heap_address mem names off (suc n) heap_addr = do
  shdr ← shdr_at mem off
  counts ← is_data mem names shdr
  get_heap_address mem names (off + 40) n
      (if counts then max heap_addr (u32 (shdr.sh_addr + shdr.sh_size)) else heap_addr)

unfoldable pub locate_text_section : (mem : List ℕ) (names off n : ℕ) → Result (Option Shdr)
locate_text_section mem names off zero = ok none
locate_text_section mem names off (suc n) = do
  shdr ← shdr_at mem off
  text ← is_section mem names sht_progbits (codes ".text") shdr
  if text then ok (some shdr) else locate_text_section mem names (off + 40) n
