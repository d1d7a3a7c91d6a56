-- ===== src/Fat32/Files.antt =====
-- The chains of a table end within its length, and what is read of a file.
use simple_pi_os.Prelude.{
  ==→ne, All, Distinct, List, Option, Result, ap, arith, false, get_elem?-bound, length, le→leb, ok,
  ok-injective, pigeonhole, refl, some, subst, suc, sym, take, u32, ℕ, ◌*◌, ◌+◌, ◌<◌, ◌==◌, ◌^◌,
  ◌∙◌, ◌≡◌, ◌≢◌, ◌≤◌,
}
use simple_pi_os.Crc32.{crc32}
use simple_pi_os.Fat32.{crc_of, Card, Fat32, last_cluster, count_clusters, fat32_read_file}
use simple_pi_os.Fat32.Chain.{Chain, last, link, count_from-Chain, read_from-Chain, read_clusters}

ends :
    {r : Result ℕ} {kind : ℕ}
    → r ≡ ok last_cluster
    → r ≡ ok kind
    → (kind == last_cluster) ≡ false
    → ⊥
ends {kind = kind} e f ne = ==→ne kind last_cluster ne (ok-injective (sym f ∙ e))

moved : {fs : Fat32} {m n : ℕ} {ids : List ℕ} → m ≡ n → Chain fs m ids → Chain fs n ids
moved {fs} {ids = ids} e c = subst (λ t. Chain fs t ids) e c

same_next : {o : Option ℕ} {m n : ℕ} → o ≡ some m → o ≡ some n → m ≡ n
same_next e f = cc

-- The table leads from a cluster to one list only.
length_unique :
    {fs : Fat32} {id : ℕ} {xs ys : List ℕ} → Chain fs id xs → Chain fs id ys → length xs ≡ length ys
length_unique (last e) (last f) = refl
length_unique (last e) (link f ne at d) = absurd (ends e f ne)
length_unique (link e ne at c) (last f) = absurd (ends f e ne)
length_unique (link e ne at c) (link f nf bt d) =
    ap suc (length_unique c (moved (same_next bt at) d))

fresh :
    {fs : Fat32} {id next : ℕ} {whole ids : List ℕ}
    → Chain fs id whole
    → Chain fs next ids
    → length ids < length whole
    → All (λ y. id ≢ y) ids
fresh c (last e) h = tt
fresh c (link f ne at d) h = (
  λ e. absurd (omega (arith, length_unique (moved e c) (link f ne at d))),
  fresh c d (omega arith),
)

distinct : {fs : Fat32} {id : ℕ} {ids : List ℕ} → Chain fs id ids → Distinct ids
distinct (last e) = tt
distinct (link e ne at c) = (fresh (link e ne at c) c (omega arith), distinct c)

bounded : {fs : Fat32} {id : ℕ} {ids : List ℕ} → Chain fs id ids → All (λ y. y < length fs.fat) ids
bounded (last e) = tt
bounded {fs} {id} (link {next = next} e ne at c) = (get_elem?-bound fs.fat id next at, bounded c)

-- The clusters of a chain are different entries of the table.
pub length-Chain :
    {fs : Fat32} {id : ℕ} {ids : List ℕ} → Chain fs id ids → length ids ≤ length fs.fat
length-Chain {fs} {ids = ids} c = pigeonhole (length fs.fat) ids (distinct c) (bounded c)

pub count_clusters-Chain :
    (fs : Fat32) (id : ℕ) (ids : List ℕ)
    → length fs.fat < 2 ^ 32
    → Chain fs id ids
    → count_clusters fs id ≡ ok (length ids)
unfolding count_clusters
count_clusters-Chain fs id ids b c =
    let short = length-Chain c in
    count_from-Chain fs (length fs.fat + 1) 0 id ids c (omega arith) (omega arith)
    ∙ ap ok (omega arith)

-- A file whose chain is whole, on a card that gives its clusters, and whose size is no more than they have
-- bytes, is read: the buffer holds the clusters one after the other in the order of the chain, and the
-- checksum is that of the file's bytes, in a table of fewer than 2^32 entries.
pub fat32_read_file-Chain :
    (card : Card) (fs : Fat32) (cluster_id nbytes : ℕ) (ids bytes : List ℕ)
    → length fs.fat < 2 ^ 32
    → Chain fs cluster_id ids
    → read_clusters card fs ids ≡ ok bytes
    → nbytes ≤ length bytes
    → fat32_read_file card fs cluster_id nbytes
      ≡ ok (record {
        data_bytes = bytes;
        cksum = crc32 (take nbytes bytes);
        n_alloc = u32 (u32 (length ids * fs.sectors_per_cluster) * 512);
        n_data = nbytes;
      })
unfolding fat32_read_file crc_of
fat32_read_file-Chain card fs cluster_id nbytes ids bytes b c got fits =
    let short = length-Chain c in
    rw
      (
        count_clusters-Chain fs cluster_id ids b c,
        read_from-Chain card fs (length fs.fat + 1) cluster_id ids c (omega arith),
        got,
        le→leb nbytes (length bytes) fits,
      )
      refl
