-- ===== src/Tests/Disk.antt =====
-- A small card: one sector for each cluster, and a file of the clusters 2, 5 and 3.
use simple_pi_os.Prelude.{
  List, [], arith, fault, if◌then◌else◌, length, length-append, length-replicate, ltb, none, ok,
  panic, refl, replicate, some, take, u32, ℕ, ◌*◌, ◌++◌, ◌∷◌, ◌≡◌,
}
use simple_pi_os.Crc32.{crc32}
use simple_pi_os.Fat32.{
  Card, Fat32, count_clusters, count_from, dir_sectors, entry_kind, fat32_fat_entry_type,
  fat32_read_file, fat_at, sec_read, sd_readblock, cluster_to_lba,
}
use simple_pi_os.Fat32.Chain.{Chain, last, link, read_clusters}
use simple_pi_os.Fat32.Contiguous.{dir_sectors-consecutive}
use simple_pi_os.Fat32.Files.{fat32_read_file-Chain}
use simple_pi_os.Utf8.{to_cp, to_utf8}
use simple_pi_os.Utf8.Decode.{to_cp-to_utf8}
use simple_pi_os.Utf8.Encode.{standard, to_utf8-standard}

-- Sector `n` is all bytes `n`, below sector 8.
abbrev card : Card
card = record { sector = λ n. if ltb n 8 then some (replicate 512 n) else none }

-- Entries 0 and 1 are reserved; 2 → 5 → 3 → end; 4 → 6 → end
abbrev fs : Fat32
fs = record {
  fat_begin_lba = 0;
  cluster_begin_lba = 1;
  sectors_per_cluster = 1;
  root_dir_first_cluster = 2;
  fat = 0xfff_fff8 ∷ 0xfff_ffff ∷ 5 ∷ 0xfff_ffff ∷ 0xfff_fff8 ∷ 3 ∷ [];
  n_fat = 2;
}

used-5 : fat32_fat_entry_type 5 ≡ ok 0xfff_fff9
unfolding fat32_fat_entry_type entry_kind
used-5 = refl

used-3 : fat32_fat_entry_type 3 ≡ ok 0xfff_fff9
unfolding fat32_fat_entry_type entry_kind
used-3 = refl

used-2 : fat32_fat_entry_type 2 ≡ ok 0xfff_fff9
unfolding fat32_fat_entry_type entry_kind
used-2 = refl

used-4 : fat32_fat_entry_type 4 ≡ ok 0xfff_fff9
unfolding fat32_fat_entry_type entry_kind
used-4 = refl

end-ffffffff : fat32_fat_entry_type 0xfff_ffff ≡ ok 0xfff_fff8
unfolding fat32_fat_entry_type entry_kind
end-ffffffff = refl

end-fffffff8 : fat32_fat_entry_type 0xfff_fff8 ≡ ok 0xfff_fff8
unfolding fat32_fat_entry_type entry_kind
end-fffffff8 = refl

file-Chain : Chain fs 2 (2 ∷ 5 ∷ 3 ∷ [])
file-Chain =
    link used-2 refl refl (link used-5 refl refl (link used-3 refl refl (last end-ffffffff)))

dir-Chain : Chain fs 4 (4 ∷ [])
dir-Chain = link used-4 refl refl (last end-fffffff8)

-- The loop counts the clusters of the chain, and stops at a free entry of the table with a fault.
count_three : count_clusters fs 2 ≡ ok 3
unfolding count_clusters count_from fat32_fat_entry_type entry_kind fat_at
count_three = refl

-- The upper four bits of an entry are not dropped before it is used as an index.
upper_bits : count_from fs 9 0x1000_0002 0 ≡ panic fault
unfolding count_from fat32_fat_entry_type entry_kind fat_at
upper_bits = refl

abbrev file_bytes : List ℕ
file_bytes = replicate 512 1 ++ (replicate 512 4 ++ replicate 512 2)

file_bytes-read : read_clusters card fs (2 ∷ 5 ∷ 3 ∷ []) ≡ ok file_bytes
unfolding read_clusters sec_read sd_readblock cluster_to_lba
file_bytes-read = refl

file_bytes-length : length file_bytes ≡ 1536
file_bytes-length = omega (
  arith,
  length-append {A = ℕ} (replicate 512 1) (replicate 512 4 ++ replicate 512 2),
  length-append {A = ℕ} (replicate 512 4) (replicate 512 2),
  length-replicate {A = ℕ} 512 1,
  length-replicate {A = ℕ} 512 4,
  length-replicate {A = ℕ} 512 2,
)

fat32_read_file-Chain_example :
    fat32_read_file card fs 2 600
    ≡ ok (record {
      data_bytes = file_bytes;
      cksum = crc32 (take 600 file_bytes);
      n_alloc = u32 (u32 (3 * 1) * 512);
      n_data = 600;
    })
fat32_read_file-Chain_example =
    fat32_read_file-Chain card fs 2 600 (2 ∷ 5 ∷ 3 ∷ []) file_bytes (omega arith) file-Chain
      file_bytes-read (omega (arith, file_bytes-length))

dir_sectors-consecutive_example : dir_sectors card fs 4 ≡ read_clusters card fs (4 ∷ [])
dir_sectors-consecutive_example =
    dir_sectors-consecutive card fs 2 (4 ∷ []) (omega arith) dir-Chain (refl, tt) (omega arith)
      (omega arith)

to_utf8-standard_example : to_utf8 0x20ac ≡ ok (some (standard 0x20ac))
to_utf8-standard_example = to_utf8-standard 0x20ac (omega arith) (omega arith)

to_cp-to_utf8_example : (bs : List ℕ) × (to_utf8 0x20ac ≡ ok (some bs)) × (to_cp bs ≡ ok 0x20ac)
to_cp-to_utf8_example = to_cp-to_utf8 0x20ac (omega arith) (omega arith)
