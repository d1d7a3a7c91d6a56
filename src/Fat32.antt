-- ===== src/Fat32.antt =====
-- The file allocation table and the files of pi-side/kernel/disk/fs.c, with the helpers of
-- pi-side/kernel/disk/fat32-helpers.c. The card is its sectors; `sd_readblock` gives those that it is
-- asked for, or fails.
pub mod Chain
pub mod Files
pub mod Contiguous
pub mod Directory
pub mod Path
pub mod Walk
pub mod Count
pub mod Names
pub mod Listing
use simple_pi_os.Prelude.{
  List, Option, Result, [], demanded, fault, get_elem?, if◌then◌else◌, leb, length, none, ok,
  out_of_fuel, panic, panicked, some, suc, take, u32, zero, ℕ, ◌&&◌, ◌*◌, ◌++◌, ◌+◌, ◌-◌, ◌<<<◌,
  ◌==◌, ◌>>=◌, ◌>>>◌, ◌>>◌, ◌^◌, ◌||◌,
}
use simple_pi_os.Crc32.{crc32}
use simple_pi_os.Image.{words}

-- Each sector has 512 bytes; `none` is a sector that cannot be read.
pub record Card : Type 0 where
  pub sector : ℕ → Option (List ℕ)

pub record Fat32 : Type 0 where
  pub fat_begin_lba : ℕ
  pub cluster_begin_lba : ℕ
  pub sectors_per_cluster : ℕ
  pub root_dir_first_cluster : ℕ
  pub fat : List ℕ
  pub n_fat : ℕ

abbrev pub sector_size : ℕ
sector_size = 512

abbrev pub prepend : List ℕ → Option (List ℕ) → Option (List ℕ)
prepend bytes none = none
prepend bytes (some rest) = some (bytes ++ rest)

-- What `sd_readblock` stores; `none` if it does not return the bytes that were asked for
unfoldable pub sd_readblock : (card : Card) (lba nsec : ℕ) → Option (List ℕ)
sd_readblock card lba zero = some []
sd_readblock card lba (suc n) = elim (card.sector lba) [
  | none ↦ none
  | some bytes ↦ prepend bytes (sd_readblock card (lba + 1) n)
]

abbrev pub demand_read : Option (List ℕ) → Result (List ℕ)
demand_read none = panic demanded
demand_read (some bytes) = ok bytes

unfoldable pub sec_read : (card : Card) (lba nsec : ℕ) → Result (List ℕ)
sec_read card lba nsec = demand_read (sd_readblock card lba nsec)

-- Kinds of table entries; the last two lie behind `BAD_CLUSTER` in the enumeration.
abbrev pub free_cluster : ℕ
free_cluster = 0

abbrev pub reserved_cluster : ℕ
reserved_cluster = 1

abbrev pub bad_cluster : ℕ
bad_cluster = 0xfff_fff7

abbrev pub last_cluster : ℕ
last_cluster = 0xfff_fff8

abbrev pub used_cluster : ℕ
used_cluster = 0xfff_fff9

unfoldable pub entry_kind : ℕ → Result ℕ
entry_kind x =
    if x == free_cluster || (x == reserved_cluster || x == bad_cluster)
    then ok x
    else if leb 2 x && leb x 0xfff_ffef
    then ok used_cluster
    else if leb 0xfff_fff0 x && leb x 0xfff_fff6
    then panic panicked
    else if leb 0xfff_fff8 x && leb x 0xfff_ffff
    then ok last_cluster
    else panic panicked

-- The upper four bits do not count.
unfoldable pub fat32_fat_entry_type : ℕ → Result ℕ
fat32_fat_entry_type x = entry_kind (u32 (x <<< 4) >>> 4)

unfoldable pub cluster_to_lba : Fat32 → ℕ → ℕ
cluster_to_lba f cluster_num = u32 (
    f.cluster_begin_lba
    + u32 (cluster_num + 2 ^ 32 - f.root_dir_first_cluster) * f.sectors_per_cluster)

-- `fs->fat[id]`; the index keeps its upper bits.
unfoldable pub fat_at : Fat32 → ℕ → Result ℕ
fat_at fs id = elim (get_elem? fs.fat id) [ none ↦ panic fault | some next ↦ ok next ]

-- The loop of `count_clusters`. A chain of clusters is no longer than the table, so the fuel is the
-- number of its entries and one for the test at the end.
unfoldable pub count_from : (fs : Fat32) (fuel id n_clusters : ℕ) → Result ℕ
count_from fs zero id n_clusters = panic out_of_fuel
count_from fs (suc fuel) id n_clusters = do
  kind ← fat32_fat_entry_type id
  if kind == last_cluster
      then ok n_clusters
      else do next ← fat_at fs id; count_from fs fuel next (u32 (n_clusters + 1))

unfoldable pub count_clusters : Fat32 → ℕ → Result ℕ
count_clusters fs start_id = count_from fs (length fs.fat + 1) start_id 0

-- The loop of `fat32_read_file`: the clusters one after the other
unfoldable pub read_from : (card : Card) (fs : Fat32) (fuel id : ℕ) → Result (List ℕ)
read_from card fs zero id = panic out_of_fuel
read_from card fs (suc fuel) id = do
  kind ← fat32_fat_entry_type id
  if kind == last_cluster then ok [] else do
    bytes ← sec_read card (cluster_to_lba fs id) fs.sectors_per_cluster
    next ← fat_at fs id
    rest ← read_from card fs fuel next
    ok (bytes ++ rest)

pub record PiFile : Type 0 where
  pub data_bytes : List ℕ
  pub cksum : ℕ
  pub n_alloc : ℕ
  pub n_data : ℕ

-- The checksum of the first `n` bytes of a buffer; behind the buffer is memory that is not the file's.
unfoldable pub crc_of : (n : ℕ) → List ℕ → Result ℕ
crc_of n bytes = if leb n (length bytes) then ok (crc32 (take n bytes)) else panic fault

unfoldable pub fat32_read_file : (card : Card) (fs : Fat32) (cluster_id nbytes : ℕ) → Result PiFile
fat32_read_file card fs cluster_id nbytes = do
  n_clusters ← count_clusters fs cluster_id
  let n_sectors = u32 (n_clusters * fs.sectors_per_cluster)
  bytes ← read_from card fs (length fs.fat + 1) cluster_id
  cksum ← crc_of nbytes bytes
  ok (record {
    data_bytes = bytes;
    cksum = cksum;
    n_alloc = u32 (n_sectors * sector_size);
    n_data = nbytes;
  })

-- The sectors that `fat32_read_dir` takes for a directory: as many as its clusters have, from the first
-- on.
unfoldable pub dir_sectors : (card : Card) (fs : Fat32) (cluster_id : ℕ) → Result (List ℕ)
dir_sectors card fs cluster_id = do
  n_clusters ← count_clusters fs cluster_id
  sec_read card (cluster_to_lba fs cluster_id) (u32 (n_clusters * fs.sectors_per_cluster))
