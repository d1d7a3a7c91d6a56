-- ===== src/HostFs/Directory.antt =====
-- What the directory holds: a list of bytes for each path, and what a lookup does to it.
use simple_pi_os.Prelude.{
  All, Bool-cases, List, Option, Option-cases, [], ap, arith, false, if◌then◌else◌, inl, inr,
  length, length-replicate, ltb, none, ok, refl, same_string, same_string→eq, some, suc, sym, take,
  true, zero, ℕ, ◌*◌, ◌∙◌, ◌∷◌, ◌≡◌, ◌≢◌, ◌≤◌,
}
use simple_pi_os.HostFs.{Heap, File, Entry, Handler, Found, opened, file_new, lookup_from, u64}
use simple_pi_os.HostFs.Operations.{put_file}

-- The bytes of a file, without what was allocated behind them
abbrev pub view : File → List ℕ
view f = take f.n_data f.data_at

abbrev pub stored : Option File → List ℕ
stored none = []
stored (some f) = view f

-- The file at a path; a file that was never looked up is empty.
abbrev pub contents : List Entry → List ℕ → Option (List ℕ)
contents [] path = none
contents (e ∷ es) path = if same_string e.name path then some (stored e.f) else contents es path

abbrev pub rights : List Entry → List ℕ → Option (ℕ × Option Handler)
rights [] path = none
rights (e ∷ es) path = if same_string e.name path then some (e.flags, e.on_wr) else rights es path

abbrev pub IsFile : File → Type 0
IsFile f = (length f.data_at ≡ f.n_alloc) × (f.n_data ≤ f.n_alloc)

abbrev pub IsStored : Option File → Type 0
IsStored none = Unit
IsStored (some f) = IsFile f

-- Every file has as many bytes as it says are allocated, and no more data than that.
abbrev pub IsDirectory : List Entry → Type 0
IsDirectory es = All (λ e. IsStored e.f) es

-- The allocator never runs out.
abbrev pub IsAmple : Heap → Type 0
IsAmple h =
    ((n : ℕ) → (d : List ℕ) × (h.calloc n ≡ some d))
    × ((d : List ℕ) (n : ℕ) → (e : List ℕ) × (h.realloc d n ≡ some e))

-- The file at a place in the directory, under the first entry of its path
abbrev pub At : List Entry → ℕ → List ℕ → File → Type 0
At [] i q f = ⊥
At (e ∷ es) zero q f = (same_string e.name q ≡ true) × (e.f ≡ some f)
At (e ∷ es) (suc i) q f = (same_string e.name q ≡ false) × At es i q f

pub record IsFound (es : List Entry) (path : List ℕ) (x : Found) (fs : List Entry) : Type 0 where
  pub good : IsFile x.file
  pub old : contents es path ≡ some (view x.file)
  pub may : rights es path ≡ some (x.entry.flags, x.entry.on_wr)
  pub same : (q : List ℕ) → contents fs q ≡ contents es q
  pub same_rights : (q : List ℕ) → rights fs q ≡ rights es q
  pub put : (g : File) → contents (put_file fs x.place g) path ≡ some (view g)
  pub put_other :
      (g : File) (q : List ℕ) → q ≢ path → contents (put_file fs x.place g) q ≡ contents es q
  pub put_rights : (g : File) (q : List ℕ) → rights (put_file fs x.place g) q ≡ rights es q
  pub kept : IsDirectory fs
  pub files : (i : ℕ) (q : List ℕ) (f : File) → At es i q f → At fs i q f
  pub put_kept : (g : File) → IsFile g → IsDirectory (put_file fs x.place g)

nothing : {g : File} → ◌≢◌ {A = Option File} none (some g)
nothing e = cc

one : {f g : File} → some f ≡ some g → f ≡ g
one e = cc

module _ (h : Heap) (ample : IsAmple h) where
  file_new-IsFile : (hint : ℕ) → (f : File) × (file_new h hint ≡ ok f) × IsFile f × (view f ≡ [])
  unfolding file_new
  file_new-IsFile hint =
      let size = u64 ((if ltb hint 8192 then 8192 else hint) * 2) in
      let got = ample.0 size in
      let long : length got.0 ≡ size =
        ap length (h.calloc-zeros size got.0 got.1) ∙ length-replicate size 0 in
      (
        record { data_at = got.0; n_alloc = size; n_data = 0 },
        rw (file_new, got.1) refl,
        (long, omega arith),
        refl,
      )

  opened-IsFile :
      (e : Entry)
      → IsStored e.f
      → (f : File) × (opened h e ≡ ok f)
        × IsFile f
        × (stored e.f ≡ view f)
        × ((g : File) → e.f ≡ some g → f ≡ g)
  unfolding opened
  opened-IsFile e good = elim (Option-cases e.f) [
    | inl n ↦
        let made = file_new-IsFile 8 in
        (
          made.0,
          rw (opened, n) made.1,
          made.2,
          rw n (sym made.3),
          λ g s. absurd (nothing (sym n ∙ s)),
        )
    | inr s ↦ (s.0, rw (opened, s.1) refl, (rw s.1 at good), rw s.1 refl, λ g t. one (sym s.1 ∙ t))
  ]

  here-IsFound :
      (e : Entry) (es : List Entry) (path : List ℕ) (f : File)
      → same_string e.name path ≡ true
      → IsFile f
      → stored e.f ≡ view f
      → ((g : File) → e.f ≡ some g → f ≡ g)
      → IsDirectory es
      → IsFound
          (e ∷ es)
          path
          (record { place = 0; entry = record e { f = some f }; file = f })
          (record e { f = some f } ∷ es)
  here-IsFound e es path f here good view_f only kept = record {
    good = good;
    old = rw (here, view_f) refl;
    may = rw here refl;
    same = λ q. elim (Bool-cases (same_string e.name q)) [
      | inl i ↦ rw (i, view_f) refl
      | inr i ↦ rw i refl
    ];
    same_rights = λ q. refl;
    put = λ g. rw here refl;
    put_other = λ g q ne. elim (Bool-cases (same_string e.name q)) [
      | inl i ↦ absurd (ne (sym (same_string→eq e.name q i) ∙ same_string→eq e.name path here))
      | inr i ↦ rw i refl
    ];
    put_rights = λ g q. refl;
    kept = (good, kept);
    files = λ i q g a. same_place i q g a;
    put_kept = λ g good. (good, kept);
  }
    where
      same_place :
          (i : ℕ) (q : List ℕ) (g : File)
          → At (e ∷ es) i q g
          → At (record e { f = some f } ∷ es) i q g
      same_place zero q g a = (a.0, ap some (only g a.1))
      same_place (suc i) q g a = a

  behind-IsFound :
      (e : Entry) (es fs : List Entry) (path : List ℕ) (x : Found)
      → same_string e.name path ≡ false
      → IsStored e.f
      → IsFound es path x fs
      → IsFound (e ∷ es) path (record x { place = suc x.place }) (e ∷ fs)
  behind-IsFound e es fs path x not_here good it = record {
    good = it.good;
    old = rw not_here it.old;
    may = rw not_here it.may;
    same = λ q. elim (Bool-cases (same_string e.name q)) [
      | inl i ↦ rw i refl
      | inr i ↦ rw i (it.same q)
    ];
    same_rights = λ q. elim (Bool-cases (same_string e.name q)) [
      | inl i ↦ rw i refl
      | inr i ↦ rw i (it.same_rights q)
    ];
    put = λ g. rw not_here (it.put g);
    put_other = λ g q ne. elim (Bool-cases (same_string e.name q)) [
      | inl i ↦ rw i refl
      | inr i ↦ rw i (it.put_other g q ne)
    ];
    put_rights = λ g q. elim (Bool-cases (same_string e.name q)) [
      | inl i ↦ rw i refl
      | inr i ↦ rw i (it.put_rights g q)
    ];
    kept = (good, it.kept);
    files = λ i q g a. next_place i q g a;
    put_kept = λ g ok_g. (good, it.put_kept g ok_g);
  }
    where
      next_place : (i : ℕ) (q : List ℕ) (g : File) → At (e ∷ es) i q g → At (e ∷ fs) i q g
      next_place zero q g a = a
      next_place (suc i) q g a = (a.0, it.files i q g a.1)

  pub lookup_from-IsFound :
      (es : List Entry) (path c : List ℕ)
      → IsDirectory es
      → contents es path ≡ some c
      → (x : Found) × (fs : List Entry) × (lookup_from h es path ≡ ok (some x, fs))
        × IsFound es path x fs
  unfolding lookup_from
  lookup_from-IsFound [] path c good e = absurd (cc)
  lookup_from-IsFound (a ∷ es) path c good e = elim (Bool-cases (same_string a.name path)) [
    | inl i ↦
        let got = opened-IsFile a good.0 in
        (
          record { place = 0; entry = record a { f = some got.0 }; file = got.0 },
          record a { f = some got.0 } ∷ es,
          rw (i, got.1) refl,
          here-IsFound a es path got.0 i got.2 got.3 got.4 good.1,
        )
    | inr i ↦
        let got = lookup_from-IsFound es path c good.1 (rw i at e) in
        (
          record got.0 { place = suc got.0.place },
          a ∷ got.1,
          rw (i, got.2) refl,
          behind-IsFound a es got.1 path got.0 i good.0 got.3,
        )
  ]

  pub lookup_from-missing :
      (es : List Entry) (path : List ℕ)
      → contents es path ≡ none
      → lookup_from h es path ≡ ok (none, es)
  unfolding lookup_from
  lookup_from-missing [] path e = refl
  lookup_from-missing (a ∷ es) path e = elim (Bool-cases (same_string a.name path)) [
    | inl i ↦ absurd (present (rw i at e))
    | inr i ↦ let got = lookup_from-missing es path (rw i at e) in rw (i, got) refl
  ]
    where
      present : {c : List ℕ} → some c ≡ none → ⊥
      present e = cc
