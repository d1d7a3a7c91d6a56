-- ===== src/HostFs.antt =====
-- The file system that the host serves with FUSE: its files and its directory, unix-side/fs/fs.h,
-- unix-side/fs/fs-support.c and the operations of unix-side/fs/fs.c.
pub mod Operations
pub mod Bytes
pub mod Directory
pub mod Append
pub mod Refines
pub mod Console
pub mod Commands
pub mod Errors
use simple_pi_os.Prelude.{
  Bool, List, Option, Result, [], asserted, bit_and, bit_or, get_or, if◌then◌else◌, length, ltb,
  none, not, ok, panic, panicked, replicate, same_string, some, suc, take, ℕ, ◌!=◌, ◌%◌, ◌*◌, ◌==◌,
  ◌>>=◌, ◌>>◌, ◌^◌, ◌||◌, ◌∷◌, ◌≡◌, ◌≤◌,
}

-- The allocator of the C library. `realloc` keeps what was there; what comes behind is its own.
pub record Heap : Type 0 where
  pub calloc : ℕ → Option (List ℕ)
  pub realloc : List ℕ → ℕ → Option (List ℕ)
  pub calloc-zeros : (n : ℕ) (d : List ℕ) → calloc n ≡ some d → d ≡ replicate n 0
  pub realloc-length : (d e : List ℕ) (n : ℕ) → realloc d n ≡ some e → length e ≡ n
  pub realloc-keeps :
      (d e : List ℕ) (n : ℕ) → realloc d n ≡ some e → length d ≤ n → take (length d) e ≡ d

-- The bytes at `data`, as many as were allocated.
pub record File : Type 0 where
  pub data_at : List ℕ
  pub n_alloc : ℕ
  pub n_data : ℕ

-- What a write to a command file runs.
pub data Handler : Type 0 where
  do_echo do_reboot do_run : Handler

pub record Entry : Type 0 where
  pub name : List ℕ
  pub flags : ℕ
  pub f : Option File
  pub on_wr : Option Handler

abbrev pub perm_rd : ℕ
perm_rd = 0x124

abbrev pub perm_wr : ℕ
perm_wr = 0x92

abbrev pub perm_exec : ℕ
perm_exec = 0x49

abbrev pub perm_rw : ℕ
perm_rw = bit_or (bit_or perm_rd perm_wr) perm_exec

unfoldable pub is_legal : ℕ → Bool
is_legal p = p == perm_rd || (p == perm_wr || p == perm_rw)

unfoldable pub has_perm : (x p : ℕ) → Result Bool
has_perm x p = if not (is_legal p) then panic panicked else ok (bit_and x p == p)

abbrev pub o_rdonly : ℕ
o_rdonly = 0

abbrev pub o_wronly : ℕ
o_wronly = 1

abbrev pub o_rdwr : ℕ
o_rdwr = 2

unfoldable pub flag_to_perm : ℕ → Result ℕ
flag_to_perm flags =
    if bit_and flags o_wronly == o_wronly
    then ok perm_wr
    else if bit_and flags o_rdwr == o_rdwr
    then ok (bit_or perm_wr perm_rd)
    else if bit_and flags o_rdonly == o_rdonly
    then ok perm_rd
    else panic panicked

abbrev pub u64 : ℕ → ℕ
u64 x = x % 2 ^ 64

pub data Errno : Type 0 where
  enoent eacces enomem : Errno

-- What an operation returns to FUSE: an error number or a count of bytes.
pub data Reply : Type 0 where
  failed : Errno → Reply
  count : ℕ → Reply
  exited : Reply

-- A pointer to an entry is its place in the directory, with what is behind the pointer.
pub record Found : Type 0 where
  pub place : ℕ
  pub entry : Entry
  pub file : File

abbrev pub behind : Option Found → Option Found
behind none = none
behind (some x) = some (record x { place = suc x.place })

pub data Looked : Type 0 where
  missing : Errno → Looked
  found : Found → Looked

module _ (h : Heap) where
  unfoldable pub file_new : ℕ → Result File
  file_new hint =
      let size = u64 ((if ltb hint 8192 then 8192 else hint) * 2) in
      elim (h.calloc size) [
        | none ↦ panic asserted
        | some d ↦ ok (record { data_at = d; n_alloc = size; n_data = 0 })
      ]

  -- The file of an entry is made when the entry is first looked up.
  unfoldable pub opened : Entry → Result File
  opened e = elim e.f [ none ↦ file_new 8 | some f ↦ ok f ]

  unfoldable pub lookup_from : List Entry → List ℕ → Result (Option Found × List Entry)
  lookup_from [] path = ok (none, [])
  lookup_from (e ∷ es) path =
      if same_string e.name path
      then (opened e >>= λ f.
          let e' = record e { f = some f } in
          ok (some (record { place = 0; entry = e'; file = f }), e' ∷ es))
      else (lookup_from es path >>= λ got. ok (behind got.0, e ∷ got.1))

  unfoldable pub ent_lookup : List Entry → List ℕ → Result (Option Found × List Entry)
  ent_lookup c path = if get_or path 0 0 != b'/' then ok (none, c) else lookup_from c path

  unfoldable pub file_lookup : List Entry → List ℕ → (perm : ℕ) → Result (Looked × List Entry)
  file_lookup d path perm = do
    got ← ent_lookup d path
    elim got.0 [
      | none ↦ ok (missing enoent, got.1)
      | some e ↦
          (has_perm e.entry.flags perm >>= λ may.
          ok ((if may then found e else missing eacces), got.1))
    ]
