-- ===== src/Kmalloc/Blocks.antt =====
-- The blocks that the allocator gives out.
use simple_pi_os.Prelude.{
  ==_refl, Bool-cases, ap, arith, inl, inr, le→ltb, ltb, ltb→le, ltb→lt, lt→ltb, ne→==, ok, refl,
  roundup, roundup-eight, roundup-mib, suc, sym, true, u32, ℕ, ◌%◌, ◌*◌, ◌+◌, ◌-◌, ◌/◌, ◌<◌, ◌^◌,
  ◌∙◌, ◌≡◌, ◌≤◌,
}
use simple_pi_os.Kmalloc.{Break, Heap, mib, open_heap, grow, take_block, kmalloc}

-- By how much the heap grows for a block of this many bytes
abbrev pub needed : Heap → ℕ → ℕ
needed h sz = (h.heap + sz - h.heap_end + 0xf_ffff) / 2 ^ 20 * 2 ^ 20

-- `roundup(sz, sizeof(union align))`
abbrev pub whole : ℕ → ℕ
whole size = (size + 7) / 8 * 8

module _ {S : Type 0} (k : Break S) where
  -- An open heap: blocks lie between its start and the break.
  pub record IsHeap (h : Heap) (s : S) : Type 0 where
    pub live : k.IsLive s
    pub opened : 0 < h.heap_start
    pub starts : k.base s ≤ h.heap_start
    pub ordered : h.heap_start ≤ h.heap
    pub inside : h.heap ≤ h.heap_end
    pub at_break : h.heap_end ≡ k.brk s
    pub aligned : h.heap % 8 ≡ 0

  grow-done :
      (fuel sz : ℕ) (h : Heap) (s : S)
      → h.heap + sz < 2 ^ 32
      → h.heap + sz ≤ h.heap_end
      → grow k (suc fuel) sz h s ≡ ok (h, s)
  unfolding grow
  grow-done fuel sz h s b e =
      let whole : u32 (h.heap + sz) ≡ h.heap + sz = omega arith in
      rw (whole, le→ltb h.heap_end (h.heap + sz) e) refl

  grow-more :
      (fuel sz incr : ℕ) (h : Heap) (s t : S)
      → ltb h.heap_end (u32 (h.heap + sz)) ≡ true
      → roundup (u32 (h.heap + sz + 2 ^ 32 - h.heap_end)) mib ≡ incr
      → k.sbrk incr s ≡ ok (u32 (h.heap_end + incr), t)
      → grow k (suc fuel) sz h s
        ≡ grow k fuel sz (record h { heap_end = u32 (h.heap_end + incr) }) t
  unfolding grow
  grow-more fuel sz incr h s t test asked call =
      rw (test, asked, call, ==_refl (u32 (h.heap_end + incr))) refl

  -- One round of the loop leaves room for the block.
  grow-once :
      (sz : ℕ) (h : Heap) (s : S)
      → h.heap ≤ h.heap_end
      → h.heap_end ≡ k.brk s
      → h.heap_end < h.heap + sz
      → k.IsLive s
      → k.HasRoom (needed h sz) s
      → h.heap + sz + 2 * mib < 2 ^ 32
      → (e : ℕ) × (t : S) × (grow k 2 sz h s ≡ ok (record h { heap_end = e }, t))
        × (h.heap + sz ≤ e)
        × (e ≡ k.brk t)
        × (k.base t ≡ k.base s)
        × k.IsLive t
  grow-once sz h s inside at_break short live room fits =
      let need = h.heap + sz - h.heap_end in
      let incr = needed h sz in
      let whole : u32 (h.heap + sz) ≡ h.heap + sz = omega arith in
      let test : ltb h.heap_end (u32 (h.heap + sz)) ≡ true =
        ap (ltb h.heap_end) whole ∙ lt→ltb h.heap_end (h.heap + sz) short in
      let asked : u32 (h.heap + sz + 2 ^ 32 - h.heap_end) ≡ need = omega arith in
      let rounded : roundup (u32 (h.heap + sz + 2 ^ 32 - h.heap_end)) mib ≡ incr =
        ap (λ x. roundup x mib) asked ∙ roundup-mib need (omega arith) in
      let got = k.grows incr s live (omega arith) (omega arith) room (omega arith) in
      let sum : k.brk s + incr ≡ u32 (h.heap_end + incr) = omega arith in
      let call : k.sbrk incr s ≡ ok (u32 (h.heap_end + incr), got.0) =
        got.1 ∙ ap (λ b. ok (b, got.0)) sum in
      (
        u32 (h.heap_end + incr),
        got.0,
        grow-more 1 sz incr h s got.0 test rounded call
            ∙ grow-done 0 sz (record h { heap_end = u32 (h.heap_end + incr) }) got.0 (omega arith)
                (omega arith),
        omega arith,
        omega (arith, got.2),
        got.3,
        got.4,
      )

  grown :
      (sz : ℕ) (h : Heap) (s : S)
      → h.heap ≤ h.heap_end
      → h.heap_end ≡ k.brk s
      → k.IsLive s
      → k.HasRoom (needed h sz) s
      → h.heap + sz + 2 * mib < 2 ^ 32
      → (e : ℕ) × (t : S) × (grow k 2 sz h s ≡ ok (record h { heap_end = e }, t))
        × (h.heap + sz ≤ e)
        × (e ≡ k.brk t)
        × (k.base t ≡ k.base s)
        × k.IsLive t
  grown sz h s inside at_break live has_room fits =
      elim (Bool-cases (ltb h.heap_end (h.heap + sz))) [
        | inl short ↦
            grow-once sz h s inside at_break (ltb→lt h.heap_end (h.heap + sz) short) live has_room
              fits
        | inr room ↦
            let enough = ltb→le h.heap_end (h.heap + sz) room in
            (h.heap_end, s, grow-done 1 sz h s (omega arith) enough, enough, at_break, refl, live)
      ]

  open_heap-opened : (h : Heap) (s : S) → 0 < h.heap_start → open_heap k h s ≡ ok (h, s)
  unfolding open_heap
  open_heap-opened h s p = rw (ne→== h.heap_start 0 (λ e. absurd (omega arith))) refl

  kmalloc-run :
      (size sz e : ℕ) (h : Heap) (s t u : S)
      → roundup size 8 ≡ sz
      → 0 < h.heap_start
      → grow k 2 sz h s ≡ ok (record h { heap_end = e }, t)
      → k.memset_zero h.heap sz t ≡ ok u
      → kmalloc k size h s ≡ ok (h.heap, (record h { heap_end = e; heap = u32 (h.heap + sz) }, u))
  unfolding kmalloc take_block
  kmalloc-run size sz e h s t u rounded opened room filled =
      rw (rounded, open_heap-opened h s opened, room, filled) refl

  -- An open heap whose break can move as far as the block needs, at least 2 MiB and eight bytes below 2^32,
  -- gives a block at its end: the block is aligned to eight bytes and lies below the break, the next one starts behind it, at the next
  -- multiple of eight, and the heap is well formed again.
  pub kmalloc-IsHeap :
      (size : ℕ) (h : Heap) (s : S)
      → IsHeap h s
      → k.HasRoom (needed h (whole size)) s
      → h.heap + size + 8 + 2 * mib < 2 ^ 32
      → (g : Heap) × (t : S) × (kmalloc k size h s ≡ ok (h.heap, (g, t)))
        × IsHeap g t
        × (g.heap ≡ h.heap + whole size)
        × (g.heap_start ≡ h.heap_start)
  kmalloc-IsHeap size h s i room fits =
      let sz = whole size in
      let rounded : roundup size 8 ≡ sz = roundup-eight size (omega arith) in
      let more = grown sz h s i.inside i.at_break i.live room (omega arith) in
      let filled =
        k.fills h.heap sz more.1 more.6 (omega (arith, more.5, i.starts, i.ordered))
          (omega (arith, more.3, more.4)) in
      let after : u32 (h.heap + sz) ≡ h.heap + sz = omega arith in
      (
        record h { heap_end = more.0; heap = u32 (h.heap + sz) },
        filled.0,
        kmalloc-run size sz more.0 h s more.1 filled.0 rounded i.opened more.2 filled.1,
        record {
          live = filled.4;
          opened = i.opened;
          starts = omega (arith, i.starts, more.5, filled.3);
          ordered = omega (arith, after, i.ordered);
          inside = omega (arith, after, more.3);
          at_break = more.4 ∙ sym filled.2;
          aligned = omega (arith, after, i.aligned);
        },
        after,
        refl,
      )
