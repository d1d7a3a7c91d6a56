-- ===== src/Elf/Program.antt =====
-- What a successful `elf_load` leaves: the list of operations against the tables of the file.
use simple_pi_os.Prelude.{
  !=→eq, Bool-cases, List, Option, [], and_then-ok, ap, if◌then◌else◌, inl, inr, length, ltb, none,
  ok, refl, some, sym, true, ℕ, ◌!=◌, ◌*◌, ◌++◌, ◌+◌, ◌==◌, ◌>>=◌, ◌∙◌, ◌∷◌, ◌≡◌,
}
use simple_pi_os.Elf.{
  Image, word_at, Ehdr, ehdr_at, Shdr, elf_magic_valid, locate_text_section, locate_symbol_table,
  get_heap_address, et_exec,
}
use simple_pi_os.Elf.Load.{
  LoadInstr, load_jump, Instrs, put_instr, finish, load_tables, Loading, load_segments,
  init_bss_sections, load_sections, elf_load,
}
use simple_pi_os.Elf.Tables.{
  Segments, Cleared, Grew, put_instr-Grew, Grew-trans, load_segments-Segments,
  init_bss_sections-Cleared, Out, some_pair, no_pair,
}

-- What the tables of the file say is to be done, and where the heap is to start.
pub record IsProgram (file : Image) (lst : List LoadInstr) (heap : ℕ) : Type 0 where
  pub ehdr : Ehdr
  pub names : ℕ
  pub copies : List LoadInstr
  pub zeros : List LoadInstr
  pub text : Shdr
  pub magic : elf_magic_valid file.bytes ≡ true
  pub header : ehdr_at file.bytes ≡ ok ehdr
  pub kind : ehdr.e_type ≡ et_exec
  pub strings : word_at file.bytes (ehdr.e_shoff + ehdr.e_shstrndx * 40 + 16) ≡ ok names
  pub segments : Segments file ehdr.e_phoff ehdr.e_phnum copies
  pub cleared : Cleared file names ehdr.e_shoff ehdr.e_shnum zeros
  pub entry : locate_text_section file.bytes names ehdr.e_shoff ehdr.e_shnum ≡ ok (some text)
  pub heap_after : get_heap_address file.bytes names ehdr.e_shoff ehdr.e_shnum 0 ≡ ok heap
  pub whole : lst ≡ copies ++ (zeros ++ (load_jump text.sh_addr ∷ []))

-- The jump stands behind what was there, and the heap starts where the sections say.
record Finished (ehdr : Ehdr) (names : ℕ) (lst : Instrs) (l : Loading) (out : Instrs) (heap : ℕ)
    : Type 0 where
  text : Shdr
  heap_after : get_heap_address l.file.bytes names ehdr.e_shoff ehdr.e_shnum 0 ≡ ok heap
  entry : locate_text_section l.file.bytes names ehdr.e_shoff ehdr.e_shnum ≡ ok (some text)
  jump : Grew lst (load_jump text.sh_addr ∷ []) out

after_text : Instrs → Loading → (heap : ℕ) → Option Shdr → Out
after_text lst l heap text_sh =
    let l = record l { proc = record l.proc { heap_start = heap } } in
    elim text_sh [
      | none ↦ ok (none, l)
      | some text ↦ (put_instr (load_jump text.sh_addr) lst >>= λ lst. ok (some lst, l))
    ]

after_text-some :
    (lst out : Instrs) (l l' : Loading) (heap : ℕ) (text_sh : Option Shdr)
    → after_text lst l heap text_sh ≡ ok (some out, l')
    → (text : Shdr) × (text_sh ≡ some text)
      × Grew lst (load_jump text.sh_addr ∷ []) out
      × (l'.proc.heap_start ≡ heap)
unfolding after_text
after_text-some lst out l l' heap none h = absurd (no_pair h)
after_text-some lst out l l' heap (some text) h =
    let put =
      and_then-ok (put_instr (load_jump text.sh_addr) lst)
        (λ lst. ok (some lst, record l { proc = record l.proc { heap_start = heap } }))
        (some out, l') h in
    let same = some_pair put.2 in
    (
      text,
      refl,
      rw (← same.0) (put_instr-Grew (load_jump text.sh_addr) lst put.0 put.1),
      ap (λ l. l.proc.heap_start) (sym same.1),
    )

finish-Finished :
    (ehdr : Ehdr) (names : ℕ) (lst out : Instrs) (l l' : Loading)
    → finish ehdr names lst l ≡ ok (some out, l')
    → Finished ehdr names lst l out l'.proc.heap_start
unfolding finish after_text
finish-Finished ehdr names lst out l l' h =
    let heap =
      and_then-ok (get_heap_address l.file.bytes names ehdr.e_shoff ehdr.e_shnum 0)
        (λ heap. locate_text_section l.file.bytes names ehdr.e_shoff ehdr.e_shnum >>= λ text_sh.
          after_text lst l heap text_sh)
        (some out, l') h in
    let text =
      and_then-ok (locate_text_section l.file.bytes names ehdr.e_shoff ehdr.e_shnum)
        (λ text_sh. after_text lst l heap.0 text_sh) (some out, l') heap.2 in
    let last = after_text-some lst out l l' heap.0 text.0 text.2 in
    record {
      text = last.0;
      heap_after = heap.1 ∙ ap ok (sym last.3);
      entry = text.1 ∙ ap ok last.1;
      jump = last.2;
    }

-- The sections to clear, and the end.
record Sectioned (ehdr : Ehdr) (names : ℕ) (lst : Instrs) (file : Image) (out : Instrs) (heap : ℕ)
    : Type 0 where
  zeros : List LoadInstr
  text : Shdr
  cleared : Cleared file names ehdr.e_shoff ehdr.e_shnum zeros
  heap_after : get_heap_address file.bytes names ehdr.e_shoff ehdr.e_shnum 0 ≡ ok heap
  entry : locate_text_section file.bytes names ehdr.e_shoff ehdr.e_shnum ≡ ok (some text)
  grew : Grew lst (zeros ++ (load_jump text.sh_addr ∷ [])) out

load_sections-Sectioned :
    (ehdr : Ehdr) (names : ℕ) (lst out : Instrs) (l l' : Loading)
    → load_sections ehdr names lst l ≡ ok (some out, l')
    → Sectioned ehdr names lst l.file out l'.proc.heap_start
unfolding load_sections
load_sections-Sectioned ehdr names lst out l l' h =
    let syms =
      and_then-ok (locate_symbol_table l.file.bytes ehdr.e_shoff ehdr.e_shnum)
        (λ n.
          if n == 0
          then ok (none, l)
          else (init_bss_sections names ehdr.e_shoff ehdr.e_shnum lst l >>= λ got.
              finish ehdr names got.0 got.1))
        (some out, l') h in
    elim (Bool-cases (syms.0 == 0)) [
      | inl e ↦ absurd (no_pair (rw e at syms.2))
      | inr e ↦
          let got =
            and_then-ok (init_bss_sections names ehdr.e_shoff ehdr.e_shnum lst l)
              (λ got. finish ehdr names got.0 got.1) (some out, l') (rw e at syms.2) in
          let zero = init_bss_sections-Cleared names ehdr.e_shoff ehdr.e_shnum lst l got.0 got.1 in
          let end = finish-Finished ehdr names got.0.0 out got.0.1 l' got.2 in
          record {
            zeros = zero.0;
            text = end.text;
            cleared = zero.1;
            heap_after = (rw zero.3 at end.heap_after);
            entry = (rw zero.3 at end.entry);
            grew =
                Grew-trans lst got.0.0 out zero.0 (load_jump end.text.sh_addr ∷ []) zero.2 end.jump;
          }
    ]

after_segments : Ehdr → (names : ℕ) → Option Instrs × Loading → Out
after_segments ehdr names got = elim got.0 [
  | none ↦ ok (none, got.1)
  | some lst ↦ load_sections ehdr names lst got.1
]

after_segments-some :
    (ehdr : Ehdr) (names : ℕ) (out : Instrs) (o : Option Instrs) (l l' : Loading)
    → after_segments ehdr names (o, l) ≡ ok (some out, l')
    → (lst : Instrs) × (o ≡ some lst) × (load_sections ehdr names lst l ≡ ok (some out, l'))
unfolding after_segments
after_segments-some ehdr names out none l l' h = absurd (no_pair h)
after_segments-some ehdr names out (some lst) l l' h = (lst, refl, h)

load_tables-IsProgram :
    (ehdr : Ehdr) (lst out : Instrs) (l l' : Loading)
    → load_tables ehdr lst l ≡ ok (some out, l')
    → lst.instr_lst ≡ []
    → elf_magic_valid l.file.bytes ≡ true
    → ehdr_at l.file.bytes ≡ ok ehdr
    → ehdr.e_type ≡ et_exec
    → IsProgram l.file out.instr_lst l'.proc.heap_start
      × (out.room + length out.instr_lst ≡ lst.room)
unfolding load_tables after_segments
load_tables-IsProgram ehdr lst out l l' h none_yet magic header kind =
    let str =
      and_then-ok (word_at l.file.bytes (ehdr.e_shoff + ehdr.e_shstrndx * 40 + 16))
        (λ names.
          load_segments ehdr.e_phoff ehdr.e_phnum lst l >>= λ got. after_segments ehdr names got)
        (some out, l') h in
    let got =
      and_then-ok (load_segments ehdr.e_phoff ehdr.e_phnum lst l)
        (λ got. after_segments ehdr str.0 got) (some out, l') str.2 in
    let mid = after_segments-some ehdr str.0 out got.0.0 got.0.1 l' got.2 in
    let segs =
      load_segments-Segments ehdr.e_phoff ehdr.e_phnum lst mid.0 l got.0.1
        (got.1 ∙ ap (λ o. ok (o, got.0.1)) mid.1) in
    let secs = rw segs.3 at (load_sections-Sectioned ehdr str.0 mid.0 out got.0.1 l' mid.2) in
    let all =
      Grew-trans lst mid.0 out segs.0 (secs.zeros ++ (load_jump secs.text.sh_addr ∷ [])) segs.2
        secs.grew in
    let whole : out.instr_lst ≡ segs.0 ++ (secs.zeros ++ (load_jump secs.text.sh_addr ∷ [])) =
      all.added
      ∙ ap (λ x. x ++ (segs.0 ++ (secs.zeros ++ (load_jump secs.text.sh_addr ∷ [])))) none_yet in
    (
      record {
        ehdr = ehdr;
        names = str.0;
        copies = segs.0;
        zeros = secs.zeros;
        text = secs.text;
        magic = magic;
        header = header;
        kind = kind;
        strings = str.1;
        segments = segs.1;
        cleared = secs.cleared;
        entry = secs.entry;
        heap_after = secs.heap_after;
        whole = whole;
      },
      rw whole all.used,
    )

-- If the loader takes a file, then the file has the magic and the type of an executable, every program
-- header is one to load, and the operations are: one copy for each program header, from its place in the
-- file to its address; then one range of zeros for each section `.bss`; then the jump to `.text`. The heap
-- starts where the sections say, and the list is within its capacity.
pub elf_load-IsProgram :
    (lst out : Instrs) (l l' : Loading)
    → elf_load lst l ≡ ok (some out, l')
    → lst.instr_lst ≡ []
    → IsProgram l.file out.instr_lst l'.proc.heap_start
      × (out.room + length out.instr_lst ≡ lst.room)
unfolding elf_load
elf_load-IsProgram lst out l l' h none_yet = elim (Bool-cases (ltb l.file.n_data 52)) [
  | inl e ↦ absurd (no_pair (rw e at h))
  | inr e ↦ elim (Bool-cases (elf_magic_valid l.file.bytes)) [
    | inr m ↦ absurd (no_pair (rw m at (rw e at h)))
    | inl m ↦
        let ehdr =
          and_then-ok (ehdr_at l.file.bytes)
            (λ ehdr. if ehdr.e_type != et_exec then ok (none, l) else load_tables ehdr lst l)
            (some out, l') (rw m at (rw e at h)) in
        elim (Bool-cases (ehdr.0.e_type != et_exec)) [
          | inl k ↦ absurd (no_pair (rw k at ehdr.2))
          | inr k ↦
              load_tables-IsProgram ehdr.0 lst out l l' (rw k at ehdr.2) none_yet m ehdr.1
                (!=→eq ehdr.0.e_type et_exec k)
        ]
  ]
]
