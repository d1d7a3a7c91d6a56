-- ===== src/HostFs/Refines.antt =====
-- The operations against an abstract file system that maps each path to a list of bytes.
use simple_pi_os.Prelude.{
  Bool-cases, List, Option, [], ap, arith, drop, false, get_or, inl, inr, length, le→leb, ltb,
  ltb→le, ltb→lt, min, ok, refl, some, some-injective, suc, sym, take, true, u32, zero, ℕ, ◌!=◌,
  ◌+◌, ◌-◌, ◌∙◌, ◌∷◌, ◌≡◌, ◌≢◌, ◌≤◌,
}
use simple_pi_os.HostFs.{
  Heap, File, Entry, Handler, Found, found, count, perm_rd, perm_wr, has_perm, ent_lookup,
  file_lookup,
}
use simple_pi_os.HostFs.Operations.{Fs, put_file, read_file, copy_from, cut, pi_read, pi_truncate}
use simple_pi_os.HostFs.Bytes.{length-take, take-take, take-over, take-drop-take}
use simple_pi_os.HostFs.Directory.{
  view, contents, rights, IsFile, IsDirectory, IsAmple, IsFound, lookup_from-IsFound,
}

-- The path names a file with these bytes and this handler, and grants the permission.
pub record IsOpen (es : List Entry) (path : List ℕ) (perm : ℕ) (c : List ℕ) (run : Option Handler)
    : Type 0 where
  pub flags : ℕ
  pub slash : get_or path 0 0 ≡ b'/'
  pub there : contents es path ≡ some c
  pub may : rights es path ≡ some (flags, run)
  pub grants : has_perm flags perm ≡ ok true

-- Between two states of the directory, the path alone has other bytes.
pub record Became (es : List Entry) (path c : List ℕ) (fs : List Entry) : Type 0 where
  pub now : contents fs path ≡ some c
  pub others : (q : List ℕ) → q ≢ path → contents fs q ≡ contents es q
  pub rights_kept : (q : List ℕ) → rights fs q ≡ rights es q
  pub kept : IsDirectory fs

module _ (h : Heap) (ample : IsAmple h) where
  pub file_lookup-found :
      (es : List Entry) (path : List ℕ) (perm : ℕ) (c : List ℕ) (run : Option Handler)
      → IsDirectory es
      → IsOpen es path perm c run
      → (x : Found) × (fs : List Entry) × (file_lookup h es path perm ≡ ok (found x, fs))
        × IsFound es path x fs
        × (view x.file ≡ c)
        × (x.entry.on_wr ≡ run)
  unfolding file_lookup ent_lookup
  file_lookup-found es path perm c run good o =
      let got = lookup_from-IsFound h ample es path c good o.there in
      let same : (got.0.entry.flags, got.0.entry.on_wr) ≡ (o.flags, run) =
        some-injective (sym got.3.may ∙ o.may) in
      let starts : (get_or path 0 0 != b'/') ≡ false = rw o.slash refl in
      let grants : has_perm got.0.entry.flags perm ≡ ok true = rw (ap (λ p. p.0) same) o.grants in
      (
        got.0,
        got.1,
        rw (file_lookup, ent_lookup, starts, got.2, grants) refl,
        got.3,
        some-injective (sym got.3.old ∙ o.there),
        ap (λ p. p.1) same,
      )

  past : (xs : List ℕ) (size off : ℕ) → length xs ≤ off → take size (drop off xs) ≡ []
  past [] zero zero less = refl
  past [] (suc size) zero less = refl
  past [] zero (suc off) less = refl
  past [] (suc size) (suc off) less = refl
  past (x ∷ xs) size zero less = absurd (omega arith)
  past (x ∷ xs) size (suc off) less = past xs size off (omega arith)

  read_file-view :
      (f : File) (size off : ℕ)
      → IsFile f
      → read_file h f size off ≡ ok (take size (drop off (view f)))
  unfolding read_file copy_from
  read_file-view f size off good = elim (Bool-cases (ltb f.n_data off)) [
    | inl e ↦
        rw (read_file, e)
          (let long : length (view f) ≡ f.n_data =
              length-take f.data_at f.n_data (omega (arith, good.0, good.1)) in
            ap ok (sym (past (view f) size off (omega (arith, long, ltb→lt f.n_data off e)))))
    | inr e ↦
        let inside = ltb→le f.n_data off e in
        let room : off + min size (f.n_data - off) ≤ length f.data_at =
          omega (arith, good.0, good.1) in
        rw
          (
            read_file,
            e,
            copy_from,
            le→leb (off + min size (f.n_data - off)) (length f.data_at) room,
          )
          (ap ok (take-drop-take f.data_at off f.n_data size))
  ]

  -- With memory for a file that is looked up first, a read of a file that grants it gives the bytes from the
  -- offset on, as many as were asked for or as there are, and their number modulo 2^32; no path changes.
  pub pi_read-contents :
      (fs : Fs) (path c : List ℕ) (size off : ℕ) (run : Option Handler)
      → IsDirectory fs.root
      → IsOpen fs.root path perm_rd c run
      → (gs : Fs) × (pi_read h path size off fs
          ≡ ok (inr (u32 (length (take size (drop off c))), take size (drop off c)), gs))
        × Became fs.root path c gs.root
  unfolding pi_read
  pi_read-contents fs path c size off run good o =
      let got = file_lookup-found fs.root path perm_rd c run good o in
      (
        record fs { root = got.1 },
        rw (pi_read, got.2, read_file-view got.0.file size off got.3.good, got.4) refl,
        record {
          now = got.3.same path ∙ o.there;
          others = λ q ne. got.3.same q;
          rights_kept = got.3.same_rights;
          kept = got.3.kept;
        },
      )

  cut-view :
      (f : File) (len : ℕ)
      → IsFile f
      → IsFile (cut h f len) × (view (cut h f len) ≡ take len (view f))
  unfolding cut
  cut-view f len good = elim (Bool-cases (ltb len f.n_data)) [
    | inl e ↦
        let less = ltb→lt len f.n_data e in
        rw (cut, e)
          (
            (good.0, omega (arith, good.1)),
            sym (take-take f.data_at len f.n_data (omega (arith, less))),
          )
    | inr e ↦
        let most = ltb→le len f.n_data e in
        let long : length (view f) ≡ f.n_data =
          length-take f.data_at f.n_data (omega (arith, good.0, good.1)) in
        rw (cut, e) (good, sym (take-over (view f) len (omega (arith, long))))
  ]

  -- With memory for a file that is looked up first, a truncation of a file that grants writing returns zero and leaves the first `len` bytes of that file;
  -- a file that is not longer is left as it was, for it is never extended.
  pub pi_truncate-Became :
      (fs : Fs) (path c : List ℕ) (len : ℕ) (run : Option Handler)
      → IsDirectory fs.root
      → IsOpen fs.root path perm_wr c run
      → (gs : Fs) × (pi_truncate h path len fs ≡ ok (count 0, gs))
        × Became fs.root path (take len c) gs.root
  unfolding pi_truncate
  pi_truncate-Became fs path c len run good o =
      let got = file_lookup-found fs.root path perm_wr c run good o in
      let short = cut-view got.0.file len got.3.good in
      (
        record fs { root = put_file got.1 got.0.place (cut h got.0.file len) },
        rw (pi_truncate, got.2) refl,
        record {
          now = got.3.put (cut h got.0.file len) ∙ ap some (short.1 ∙ ap (take len) got.4);
          others = got.3.put_other (cut h got.0.file len);
          rights_kept = got.3.put_rights (cut h got.0.file len);
          kept = got.3.put_kept (cut h got.0.file len) short.0;
        },
      )
