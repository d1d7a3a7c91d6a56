-- ===== src/HostFs/Errors.antt =====
-- The error numbers of the operations.
use simple_pi_os.Prelude.{
  Bool-cases, List, [], false, get_or, inl, inr, none, ok, refl, same_string, ℕ, ◌!=◌, ◌∷◌, ◌≡◌,
}
use simple_pi_os.HostFs.{Heap, failed, missing, enoent, perm_rd, perm_wr, ent_lookup, file_lookup}
use simple_pi_os.HostFs.Operations.{Fs, no_entry, pi_getattr, pi_read, pi_write, pi_truncate}
use simple_pi_os.HostFs.Directory.{contents, IsAmple, lookup_from-missing}

module _ (h : Heap) where
  ent_lookup-missing :
      (fs : Fs) (path : List ℕ)
      → IsAmple h
      → contents fs.root path ≡ none
      → ent_lookup h fs.root path ≡ ok (none, fs.root)
  unfolding ent_lookup
  ent_lookup-missing fs path ample e = elim (Bool-cases (get_or path 0 0 != b'/')) [
    | inl i ↦ rw (ent_lookup, i) refl
    | inr i ↦ rw (ent_lookup, i) (lookup_from-missing h ample fs.root path e)
  ]

  file_lookup-missing :
      (fs : Fs) (path : List ℕ) (perm : ℕ)
      → IsAmple h
      → contents fs.root path ≡ none
      → file_lookup h fs.root path perm ≡ ok (missing enoent, fs.root)
  unfolding file_lookup
  file_lookup-missing fs path perm ample e =
      rw (file_lookup, ent_lookup-missing fs path ample e) refl

  -- A path that is not in the directory gives ENOENT to every operation, and nothing changes.
  pub pi_write-enoent :
      (fs : Fs) (path buf : List ℕ) (size off len : ℕ)
      → IsAmple h
      → contents fs.root path ≡ none
      → same_string path (b'/' ∷ []) ≡ false
      → (pi_write h path buf size off fs ≡ ok (failed enoent, fs))
        × (pi_read h path size off fs ≡ ok (inl enoent, fs))
        × (pi_truncate h path len fs ≡ ok (failed enoent, fs))
        × (pi_getattr h path fs ≡ ok (no_entry enoent, fs))
  unfolding pi_write pi_read pi_truncate pi_getattr
  pi_write-enoent fs path buf size off len ample e not_root = (
    rw (pi_write, file_lookup-missing fs path perm_wr ample e) refl,
    rw (pi_read, file_lookup-missing fs path perm_rd ample e) refl,
    rw (pi_truncate, file_lookup-missing fs path perm_wr ample e) refl,
    rw (pi_getattr, not_root, ent_lookup-missing fs path ample e) refl,
  )
