-- ===== src/HostFs/Append.antt =====
-- `append_to_file`: the file grows when it must, and the bytes land where they should.
use simple_pi_os.Prelude.{
  Bool-cases, List, ap, arith, inl, inr, length, le→leb, ltb, ltb→le, ltb→lt, max, ok, refl, some,
  sym, take, u32, ℕ, ◌+◌, ◌<◌, ◌^◌, ◌∙◌, ◌≡◌, ◌≤◌,
}
use simple_pi_os.HostFs.{Heap, File, count, u64}
use simple_pi_os.HostFs.Operations.{copy_into, copy_from, overwrite, grown, filled, append_to_file}
use simple_pi_os.HostFs.Bytes.{length-take, take-take, take-overwrite, length-overwrite}
use simple_pi_os.HostFs.Directory.{view, IsFile, IsAmple}

module _ (h : Heap) (ample : IsAmple h) where
  grown-IsFile :
      (f : File) (needed : ℕ)
      → IsFile f
      → (g : File) × (grown h f needed ≡ some g)
        × IsFile g
        × (needed ≤ g.n_alloc)
        × (view g ≡ view f)
        × (g.n_data ≡ f.n_data)
  unfolding grown
  grown-IsFile f needed good = elim (Bool-cases (ltb f.n_alloc needed)) [
    | inl e ↦
        let less = ltb→lt f.n_alloc needed e in
        let got = ample.1 f.data_at needed in
        let long = h.realloc-length f.data_at got.0 needed got.1 in
        let front = h.realloc-keeps f.data_at got.0 needed got.1 (omega (arith, good.0)) in
        let inside : f.n_data ≤ length f.data_at = omega (arith, good.0, good.1) in
        let seen : take f.n_data got.0 ≡ take f.n_data f.data_at =
          sym (take-take got.0 f.n_data (length f.data_at) inside) ∙ ap (take f.n_data) front in
        (
          record f { data_at = got.0; n_alloc = needed },
          rw (grown, e, got.1) refl,
          (long, omega (arith, good.1)),
          omega arith,
          seen,
          refl,
        )
    | inr e ↦
        let most = ltb→le f.n_alloc needed e in (f, rw (grown, e) refl, good, most, refl, refl)
  ]

  copy_from-ok :
      (buf : List ℕ) (size : ℕ) → size ≤ length buf → copy_from buf 0 size ≡ ok (take size buf)
  unfolding copy_from
  copy_from-ok buf size fits = rw (le→leb (0 + size) (length buf) (omega arith)) refl

  filled-IsFile :
      (f : File) (buf : List ℕ) (size off : ℕ)
      → IsFile f
      → off ≤ f.n_data
      → size ≤ length buf
      → off + size < 2 ^ 64
      → off + size ≤ f.n_alloc
      → (g : File) × (filled h f buf size off ≡ ok (count (u32 size), g))
        × IsFile g
        × (view g ≡ overwrite (view f) off (take size buf))
  unfolding filled copy_into
  filled-IsFile f buf size off good inside fits small room =
      let bytes = take size buf in
      let long : length bytes ≡ size = length-take buf size fits in
      let end : u64 (off + size) ≡ off + length bytes = omega (arith, long) in
      let within : off + length bytes ≤ length f.data_at = omega (arith, long, good.0) in
      let front : f.n_data ≤ length f.data_at = omega (arith, good.0, good.1) in
      (
        record f {
          data_at = overwrite f.data_at off bytes;
          n_data = max f.n_data (u64 (off + size));
        },
        rw
            (
              filled,
              copy_from-ok buf size fits,
              copy_into,
              le→leb (off + length bytes) (length f.data_at) within,
            )
            refl,
        (length-overwrite f.data_at off bytes within ∙ good.0, omega (arith, end, long, good.1)),
        rw end (take-overwrite f.data_at off f.n_data bytes inside front),
      )

  pub append_to_file-IsFile :
      (f : File) (buf : List ℕ) (size off : ℕ)
      → IsFile f
      → off ≤ f.n_data
      → size ≤ length buf
      → off + size < 2 ^ 64
      → (g : File) × (append_to_file h f buf size off ≡ ok (count (u32 size), g))
        × IsFile g
        × (view g ≡ overwrite (view f) off (take size buf))
  unfolding append_to_file
  append_to_file-IsFile f buf size off good inside fits small =
      let big = grown-IsFile f (u64 (off + size)) good in
      let sum : u64 (off + size) ≡ off + size = omega arith in
      let done =
        filled-IsFile big.0 buf size off big.2 (omega (arith, big.5)) fits small
          (omega (arith, big.3, sum)) in
      (
        done.0,
        rw (append_to_file, big.1) done.1,
        done.2,
        done.3 ∙ ap (λ v. overwrite v off (take size buf)) big.4,
      )
