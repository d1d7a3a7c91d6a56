-- ===== src/Fat32/Chain.antt =====
-- The chain of clusters that the table holds for a file, and that the loops follow it.
use simple_pi_os.Prelude.{
  List, Result, [], ap, arith, false, get_elem?, length, ok, refl, some, suc, u32, zero, ℕ, ◌++◌,
  ◌+◌, ◌<◌, ◌==◌, ◌>>=◌, ◌^◌, ◌∙◌, ◌∷◌, ◌≡◌,
}
use simple_pi_os.Fat32.{
  Card, Fat32, fat32_fat_entry_type, last_cluster, fat_at, count_from, read_from, sec_read,
  cluster_to_lba,
}

-- `Chain fs id ids`: from `id` the table leads through the clusters `ids` to an end mark.
pub data Chain (fs : Fat32) : ℕ → List ℕ → Type 0 where
  last : {id : ℕ} → fat32_fat_entry_type id ≡ ok last_cluster → Chain fs id []
  link :
      {id kind next : ℕ} {ids : List ℕ}
      → fat32_fat_entry_type id ≡ ok kind
      → (kind == last_cluster) ≡ false
      → get_elem? fs.fat id ≡ some next
      → Chain fs next ids
      → Chain fs id (id ∷ ids)

fat_at-some : (fs : Fat32) (id next : ℕ) → get_elem? fs.fat id ≡ some next → fat_at fs id ≡ ok next
unfolding fat_at
fat_at-some fs id next h = rw (fat_at, h) refl

pub count_from-Chain :
    (fs : Fat32) (fuel n id : ℕ) (ids : List ℕ)
    → Chain fs id ids
    → length ids < fuel
    → n + length ids < 2 ^ 32
    → count_from fs fuel id n ≡ ok (n + length ids)
unfolding count_from
count_from-Chain fs zero n id ids c h b = absurd (omega arith)
count_from-Chain fs (suc fuel) n id [] (last e) h b = rw e (ap ok (omega arith))
count_from-Chain fs (suc fuel) n id (_ ∷ ids) (link {next = next} e ne at c) h b =
    let one : u32 (n + 1) ≡ n + 1 = omega arith in
    rw (e, ne, fat_at-some fs id next at, one)
      (count_from-Chain fs fuel (n + 1) next ids c (omega arith) (omega arith)
        ∙ ap ok (omega arith))

-- The clusters of a list, read one after the other
unfoldable pub read_clusters : (card : Card) (fs : Fat32) → List ℕ → Result (List ℕ)
read_clusters card fs [] = ok []
read_clusters card fs (id ∷ ids) = do
  bytes ← sec_read card (cluster_to_lba fs id) fs.sectors_per_cluster
  rest ← read_clusters card fs ids
  ok (bytes ++ rest)

pub read_from-Chain :
    (card : Card) (fs : Fat32) (fuel id : ℕ) (ids : List ℕ)
    → Chain fs id ids
    → length ids < fuel
    → read_from card fs fuel id ≡ read_clusters card fs ids
unfolding read_from read_clusters
read_from-Chain card fs zero id ids c h = absurd (omega arith)
read_from-Chain card fs (suc fuel) id [] (last e) h = rw e refl
read_from-Chain card fs (suc fuel) id (_ ∷ ids) (link {next = next} e ne at c) h =
    rw (e, ne, fat_at-some fs id next at, read_from-Chain card fs fuel next ids c (omega arith))
      refl
