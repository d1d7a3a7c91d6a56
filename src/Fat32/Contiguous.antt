-- ===== src/Fat32/Contiguous.antt =====
-- Directories: what is read of them is their clusters only if these lie one behind the other.
use simple_pi_os.Prelude.{
  List, Option, Option-cases, [], ap, append_assoc, ap₂, arith, inl, inr, length, none, ok, refl,
  some, subst, suc, sym, u32, zero, ℕ, ◌*◌, ◌++◌, ◌+◌, ◌-◌, ◌<◌, ◌>>=◌, ◌^◌, ◌∙◌, ◌∷◌, ◌≡◌,
}
use simple_pi_os.Fat32.{
  Card, Fat32, prepend, sd_readblock, demand_read, sec_read, cluster_to_lba, dir_sectors,
}
use simple_pi_os.Fat32.Chain.{Chain, read_clusters}
use simple_pi_os.Fat32.Files.{count_clusters-Chain}

-- The clusters from a number on, without a gap
abbrev pub IsConsecutive : ℕ → List ℕ → Type 0
IsConsecutive k [] = Unit
IsConsecutive k (id ∷ ids) = (id ≡ k) × IsConsecutive (k + 1) ids

abbrev both : Option (List ℕ) → Option (List ℕ) → Option (List ℕ)
both none more = none
both (some bytes) more = prepend bytes more

prepend-nil : (o : Option (List ℕ)) → prepend [] o ≡ o
prepend-nil none = refl
prepend-nil (some b) = refl

both-prepend :
    (bytes : List ℕ) (o p : Option (List ℕ)) → prepend bytes (both o p) ≡ both (prepend bytes o) p
both-prepend bytes none p = refl
both-prepend bytes (some b) none = refl
both-prepend bytes (some b) (some c) = ap some (sym (append_assoc bytes b c))

sd_readblock-none :
    (card : Card) (lba n : ℕ) → card.sector lba ≡ none → sd_readblock card lba (suc n) ≡ none
unfolding sd_readblock
sd_readblock-none card lba n e = rw (sd_readblock, e) refl

sd_readblock-some :
    (card : Card) (lba n : ℕ) (bytes : List ℕ)
    → card.sector lba ≡ some bytes
    → sd_readblock card lba (suc n) ≡ prepend bytes (sd_readblock card (lba + 1) n)
unfolding sd_readblock
sd_readblock-some card lba n bytes e = rw (sd_readblock, e) refl

sd_readblock-plus :
    (card : Card) (lba m n : ℕ)
    → sd_readblock card lba (m + n) ≡ both (sd_readblock card lba m) (sd_readblock card (lba + m) n)
unfolding sd_readblock
sd_readblock-plus card lba zero n =
    ap₂ (sd_readblock card) (omega arith) (omega arith)
    ∙ sym (prepend-nil (sd_readblock card (lba + 0) n))
sd_readblock-plus card lba (suc m) n =
    let more : suc m + n ≡ suc (m + n) = omega arith in
    let next : lba + 1 + m ≡ lba + suc m = omega arith in
    rw more (elim (Option-cases (card.sector lba)) [
      | inl e ↦ rw (sd_readblock-none card lba (m + n) e, sd_readblock-none card lba m e) refl
      | inr (bytes, e) ↦
          rw (sd_readblock-some card lba (m + n) bytes e, sd_readblock-some card lba m bytes e)
            (ap (prepend bytes) (
                sd_readblock-plus card (lba + 1) m n
                ∙ ap (λ a. both (sd_readblock card (lba + 1) m) (sd_readblock card a n)) next)
              ∙ both-prepend bytes (sd_readblock card (lba + 1) m)
                  (sd_readblock card (lba + suc m) n))
    ])

demand_both :
    (o p : Option (List ℕ))
    → demand_read (both o p)
      ≡ (demand_read o >>= λ bytes. demand_read p >>= λ rest. ok (bytes ++ rest))
demand_both none p = refl
demand_both (some b) none = refl
demand_both (some b) (some c) = refl

-- No wrap: the cluster `k` behind the first of the root directory
lba-linear :
    (fs : Fat32) (k : ℕ)
    → fs.cluster_begin_lba + k * fs.sectors_per_cluster < 2 ^ 32
    → k < 2 ^ 32
    → cluster_to_lba fs (fs.root_dir_first_cluster + k)
      ≡ fs.cluster_begin_lba + k * fs.sectors_per_cluster
unfolding cluster_to_lba
lba-linear fs k h b =
    let offset : u32 (fs.root_dir_first_cluster + k + 2 ^ 32 - fs.root_dir_first_cluster) ≡ k =
      omega arith in
    rw offset (omega arith)

consecutive :
    (card : Card) (fs : Fat32) (k : ℕ) (ids : List ℕ)
    → IsConsecutive (fs.root_dir_first_cluster + k) ids
    → fs.cluster_begin_lba + (k + length ids) * fs.sectors_per_cluster < 2 ^ 32
    → k + length ids < 2 ^ 32
    → sec_read card
        (fs.cluster_begin_lba + k * fs.sectors_per_cluster)
        (length ids * fs.sectors_per_cluster)
      ≡ read_clusters card fs ids
unfolding sec_read read_clusters sd_readblock
consecutive card fs k [] c h b =
    let nothing : 0 * fs.sectors_per_cluster ≡ 0 = omega arith in rw nothing refl
consecutive card fs k (id ∷ ids) (e, c) h b =
    let spc = fs.sectors_per_cluster in
    let base = fs.cluster_begin_lba in
    let at : cluster_to_lba fs id ≡ base + k * spc =
      ap (cluster_to_lba fs) e ∙ lba-linear fs k (omega arith) (omega arith) in
    let shift : fs.root_dir_first_cluster + k + 1 ≡ fs.root_dir_first_cluster + (k + 1) =
      omega arith in
    let rest =
      consecutive card fs (k + 1) ids (subst (λ m. IsConsecutive m ids) shift c) (omega arith)
        (omega arith) in
    let more : suc (length ids) * spc ≡ spc + length ids * spc = omega arith in
    let next : base + k * spc + spc ≡ base + (k + 1) * spc = omega arith in
    rw (more, at)
      (ap demand_read (sd_readblock-plus card (base + k * spc) spc (length ids * spc))
        ∙ demand_both (sd_readblock card (base + k * spc) spc)
            (sd_readblock card (base + k * spc + spc) (length ids * spc))
        ∙ rw (next, rest) refl)

-- A directory is read as a file is if its clusters lie one behind the other on the card: the sectors
-- taken from its first cluster on are those of the clusters that the table names. The first cluster is
-- that of the root directory or one behind it, the chain is whole, and no address wraps at 32 bits.
pub dir_sectors-consecutive :
    (card : Card) (fs : Fat32) (k : ℕ) (ids : List ℕ)
    → length fs.fat < 2 ^ 32
    → Chain fs (fs.root_dir_first_cluster + k) ids
    → IsConsecutive (fs.root_dir_first_cluster + k) ids
    → fs.cluster_begin_lba + (k + length ids) * fs.sectors_per_cluster < 2 ^ 32
    → k + length ids < 2 ^ 32
    → dir_sectors card fs (fs.root_dir_first_cluster + k) ≡ read_clusters card fs ids
unfolding dir_sectors
dir_sectors-consecutive card fs k ids b c run fits short =
    let at : cluster_to_lba fs (fs.root_dir_first_cluster + k)
        ≡ fs.cluster_begin_lba + k * fs.sectors_per_cluster =
      lba-linear fs k (omega arith) (omega arith) in
    let size : u32 (length ids * fs.sectors_per_cluster) ≡ length ids * fs.sectors_per_cluster =
      omega arith in
    rw (count_clusters-Chain fs (fs.root_dir_first_cluster + k) ids b c, at, size)
      (consecutive card fs k ids run fits short)
