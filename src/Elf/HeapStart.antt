-- ===== src/Elf/HeapStart.antt =====
-- Where the heap of a new process starts.
use simple_pi_os.Prelude.{
  Bool, List, and_then-ok, ap, arith, codes, drop, false, if◌then◌else◌, max, ok, ok-injective,
  refl, suc, sym, true, u32, zero, ℕ, ◌*◌, ◌+◌, ◌<◌, ◌>>=◌, ◌∙◌, ◌≡◌, ◌≤◌,
}
use simple_pi_os.Elf.{Shdr, shdr_at, is_data, is_section, is_string, get_heap_address}

abbrev pub end_of : Shdr → ℕ
end_of s = u32 (s.sh_addr + s.sh_size)

next_heap : Bool → (start end : ℕ) → ℕ
next_heap b start end = if b then max start end else start

next_heap-le : (b : Bool) (start end : ℕ) → start ≤ next_heap b start end
unfolding next_heap
next_heap-le true start end = omega arith
next_heap-le false start end = omega arith

chosen :
    (b : Bool) (start e end heap : ℕ) → b ≡ true → e ≡ end → next_heap b start e ≤ heap → end ≤ heap
unfolding next_heap
chosen true start e end heap counted same h = omega (arith, h, same)
chosen false start e end heap counted same h = absurd (cc)

-- One section, and the search behind it
Step : (mem : List ℕ) (names off n start heap : ℕ) → Type 0
Step mem names off n start heap =
    (s : Shdr) × (b : Bool) × (shdr_at mem off ≡ ok s)
    × (is_data mem names s ≡ ok b)
    × (get_heap_address mem names (off + 40) n (next_heap b start (end_of s)) ≡ ok heap)

get_heap_address-Step :
    (mem : List ℕ) (names off n start heap : ℕ)
    → get_heap_address mem names off (suc n) start ≡ ok heap
    → Step mem names off n start heap
unfolding get_heap_address Step next_heap
get_heap_address-Step mem names off n start heap h =
    let s =
      and_then-ok (shdr_at mem off)
        (λ shdr. is_data mem names shdr >>= λ counts.
          get_heap_address mem names (off + 40) n
            (if counts then max start (end_of shdr) else start))
        heap h in
    let c =
      and_then-ok (is_data mem names s.0)
        (λ counts.
          get_heap_address mem names (off + 40) n
            (if counts then max start (end_of s.0) else start))
        heap s.2 in
    (s.0, c.0, s.1, c.1, c.2)

get_heap_address-le :
    (mem : List ℕ) (names off n start heap : ℕ)
    → get_heap_address mem names off n start ≡ ok heap
    → start ≤ heap
unfolding get_heap_address Step
get_heap_address-le mem names off zero start heap h = omega (arith, ok-injective h)
get_heap_address-le mem names off (suc n) start heap h =
    let (s, b, _, _, rest) = get_heap_address-Step mem names off n start heap h in
    omega (
      arith,
      next_heap-le b start (end_of s),
      get_heap_address-le mem names (off + 40) n (next_heap b start (end_of s)) heap rest,
    )

-- A section that the heap comes after: its type, and its name in the table of names
pub data IsHeapSection (mem : List ℕ) (names : ℕ) (s : Shdr) : Type 0 where
  bss :
      s.sh_type ≡ 8
      → is_string (drop (names + s.sh_name) mem) (codes ".bss") ≡ ok true
      → IsHeapSection mem names s
  plain :
      s.sh_type ≡ 1
      → is_string (drop (names + s.sh_name) mem) (codes ".data") ≡ ok true
      → IsHeapSection mem names s
  other :
      s.sh_type ≡ 1
      → is_string (drop (names + s.sh_name) mem) (codes ".data") ≡ ok false
      → is_string (drop (names + s.sh_name) mem) (codes ".data1") ≡ ok true
      → IsHeapSection mem names s

is_data-IsHeapSection :
    (mem : List ℕ) (names : ℕ) (s : Shdr)
    → IsHeapSection mem names s
    → is_data mem names s ≡ ok true
unfolding is_data is_section
is_data-IsHeapSection mem names s (bss kind name) = rw (kind, name) refl
is_data-IsHeapSection mem names s (plain kind name) = rw (kind, name) refl
is_data-IsHeapSection mem names s (other kind not_data name) = rw (kind, not_data, name) refl

counted-le :
    (mem : List ℕ) (names off n start heap i : ℕ) (s : Shdr)
    → get_heap_address mem names off n start ≡ ok heap
    → i < n
    → shdr_at mem (off + i * 40) ≡ ok s
    → is_data mem names s ≡ ok true
    → end_of s ≤ heap
unfolding Step next_heap
counted-le mem names off zero start heap i s h less at_i counts = absurd (omega arith)
counted-le mem names off (suc n) start heap zero s h less at_i counts =
    let (t, b, is_t, b_is, rest) = get_heap_address-Step mem names off n start heap h in
    let here : off + 0 * 40 ≡ off = omega arith in
    let same : t ≡ s = ok-injective (sym is_t ∙ (rw here at at_i)) in
    let counted : b ≡ true = ok-injective (sym b_is ∙ ap (is_data mem names) same ∙ counts) in
    let low = get_heap_address-le mem names (off + 40) n (next_heap b start (end_of t)) heap rest in
    chosen b start (end_of t) (end_of s) heap counted (ap end_of same) low
counted-le mem names off (suc n) start heap (suc i) s h less at_i counts =
    let (t, b, is_t, b_is, rest) = get_heap_address-Step mem names off n start heap h in
    let there : off + suc i * 40 ≡ off + 40 + i * 40 = omega arith in
    counted-le mem names (off + 40) n (next_heap b start (end_of t)) heap i s rest (omega arith)
      (rw there at at_i) counts

-- The heap starts behind each of the sections `.bss`, `.data` and `.data1`, whatever their order, where
-- the ends of the sections are taken modulo 2 ^ 32 as the code takes them.
pub get_heap_address-above :
    (mem : List ℕ) (names off n start heap i : ℕ) (s : Shdr)
    → get_heap_address mem names off n start ≡ ok heap
    → i < n
    → shdr_at mem (off + i * 40) ≡ ok s
    → IsHeapSection mem names s
    → end_of s ≤ heap
get_heap_address-above mem names off n start heap i s h less at_i is =
    counted-le mem names off n start heap i s h less at_i (is_data-IsHeapSection mem names s is)
