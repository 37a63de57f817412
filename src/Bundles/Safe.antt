-- ===== src/Bundles/Safe.antt =====
-- portal/apps.py, `_validate_zip` and `_prepare_bundle`: the bundles that the checks let through.
use mathlib.Core.Path.{subst}
use claude_pwa_portal.Base.{
  ℕ, ◌+◌, ◌≤◌, Text, Text-Eq, ◌≡◌, refl, ap, false, not, some, List, [], ◌∷◌, Result, ok, err,
  arith, ltb, ℕ-Eq, if◌then◌else◌, contains, length, Bool-cases, Option-cases, inl, inr, ◌⊎◌,
}
use claude_pwa_portal.Base.Table.{All}
use claude_pwa_portal.Manifest.Accepted.{Distinct, IsAccepted, validate_manifest-IsAccepted}
use claude_pwa_portal.Bundles.Inside.{Contained, Inside, All-Inside}
use claude_pwa_portal.Bundles.{
  ZipEntry, max_files, max_uncompressed_bytes, is_unsafe, is_symlink, check_entries, folders_of,
  clashes, validate_zip, Bundle, has_file, icon_there, entries_of, check_required_files,
  read_manifest, prepare_bundle,
}
use claude_pwa_portal.Manifest.{validate_manifest}
use claude_pwa_portal.Manifest.Schema.{Manifest}

pub Result-cases :
    {E A : Type 0} (r : Result E A) → ((e : E) × (r ≡ err e)) ⊎ ((x : A) × (r ≡ ok x))
Result-cases (err e) = inl (e, refl)
Result-cases (ok x) = inr (x, refl)

ok_value : {E A : Type 0} → A → Result E A → A
ok_value d (ok x) = x
ok_value d (err e) = d

ok-injective : {E A : Type 0} {x y : A} → ◌≡◌ {A = Result E A} (ok x) (ok y) → x ≡ y
unfolding ok_value
ok-injective {x = x} e = ap (ok_value x) e

-- The bytes that the files of the bundle unpack to.
unfoldable pub unpacked : List ZipEntry → ℕ
unpacked [] = 0
unpacked (info ∷ infos) = (if info.is_dir then 0 else info.file_size) + unpacked infos

module _ (canonical lower_path : Text → Text) where
  -- The names that the files of the bundle get on disk, with those of a list.
  unfoldable pub names_on_disk : List Text → List ZipEntry → List Text
  names_on_disk seen [] = seen
  names_on_disk seen (info ∷ infos) =
      let skipped = names_on_disk seen infos in
      let added = names_on_disk (canonical info.filename ∷ seen) infos in
      if info.is_dir then skipped else added

  -- The entries are contained, of the size that fits, and no two files are one on disk.
  pub record Checked (seen : List Text) (total : ℕ) (infos : List ZipEntry) (seen' : List Text)
      : Type 0 where
    pub contained : All Contained infos
    pub fits : total ≤ max_uncompressed_bytes → total + unpacked infos ≤ max_uncompressed_bytes
    pub named : seen' ≡ names_on_disk seen infos
    pub distinct : Distinct seen → Distinct seen'

  -- What the checks of one file have ruled out.
  record Passed (seen : List Text) (total : ℕ) (info : ZipEntry) (infos : List ZipEntry)
      (seen' : List Text) : Type 0 where
    safe : is_unsafe info.filename ≡ false
    plain : is_symlink info ≡ false
    new : contains seen (canonical info.filename) ≡ false
    small : total + info.file_size ≤ max_uncompressed_bytes
    rest :
        check_entries canonical lower_path
          (canonical info.filename ∷ seen)
          (total + info.file_size)
          infos
        ≡ ok seen'

  check_entries-Passed :
      (seen : List Text) (total : ℕ) (info : ZipEntry) (infos : List ZipEntry) {seen' : List Text}
      → info.is_dir ≡ false
      → check_entries canonical lower_path seen total (info ∷ infos) ≡ ok seen'
      → Passed seen total info infos seen'
  unfolding check_entries
  check_entries-Passed seen total info infos {seen'} file e = record {
    safe = ground (arith, e, file);
    plain = ground (arith, e, file);
    new = ground (arith, e, file);
    small = ground (arith, e, file);
    rest = ground (arith, e, file);
  }

  check_entries-Checked :
      (seen : List Text) (total : ℕ) (infos : List ZipEntry) {seen' : List Text}
      → check_entries canonical lower_path seen total infos ≡ ok seen'
      → Checked seen total infos seen'
  unfolding check_entries unpacked names_on_disk
  check_entries-Checked seen total [] {seen'} e = record {
    contained = tt;
    fits = λ h. ground arith;
    named = cc;
    distinct = λ d. subst Distinct (cc) d;
  }
  check_entries-Checked seen total (info ∷ infos) {seen'} e = elim (Bool-cases info.is_dir) [
    | inl dir ↦
        let rest = check_entries-Checked seen total infos (rw dir at e) in
        record {
          contained = (ground (arith, dir), rest.contained);
          fits = λ h. ground (arith, dir, rest.fits h);
          named = rw dir rest.named;
          distinct = rest.distinct;
        }
    | inr file ↦
        let passed = check_entries-Passed seen total info infos file e in
        let rest =
          check_entries-Checked (canonical info.filename ∷ seen) (total + info.file_size) infos
            passed.rest in
        record {
          contained = (ground (arith, file, passed.safe, passed.plain), rest.contained);
          fits = λ h. ground (arith, file, passed.small, rest.fits passed.small);
          named = rw file rest.named;
          distinct = λ d. rest.distinct (passed.new, d);
        }
  ]

  clashes-none :
      (folders seen : List Text)
      → clashes canonical lower_path folders seen ≡ false
      → All (λ n. contains folders n ≡ false) seen
  unfolding clashes
  clashes-none folders [] h = tt
  clashes-none folders (n ∷ seen) h = (ground arith, clashes-none folders seen (ground arith))

  -- What an accepted bundle unpacks to.
  pub record SafeBundle (infos : List ZipEntry) (seen : List Text) : Type 0 where
    pub few : length infos ≤ max_files
    pub contained : All Contained infos
    pub inside : All Inside infos
    pub fits : unpacked infos ≤ max_uncompressed_bytes
    pub named : seen ≡ names_on_disk [] infos
    pub distinct : Distinct seen
    pub no_folder : All (λ n. contains (folders_of canonical lower_path seen) n ≡ false) seen

  -- A bundle that is accepted has at most a thousand entries; each file of it has a relative path
  -- without a backslash and without `..` between its slashes, and is no symbolic link; they unpack to at most 100 MB; no two of them get the same
  -- name on disk, and no file gets the name of a folder.
  pub validate_zip-SafeBundle :
      (infos : List ZipEntry) {seen : List Text}
      → validate_zip canonical lower_path (some infos) ≡ ok seen
      → SafeBundle infos seen
  unfolding validate_zip
  validate_zip-SafeBundle infos {seen} e = elim (Bool-cases (ltb max_files (length infos))) [
    | inl many ↦ absurd (cc (rw many at e))
    | inr few ↦ elim (Result-cases (check_entries canonical lower_path [] 0 infos)) [
      | inl (error, a) ↦ absurd (cc (rw (a, validate_zip) at (rw few at e)))
      | inr (seen', a) ↦
          elim (Bool-cases
            (clashes canonical lower_path (folders_of canonical lower_path seen') seen')) [
              | inl clash ↦ absurd (cc (rw clash at (rw (a, validate_zip) at (rw few at e))))
              | inr none_clash ↦
                  let checked = check_entries-Checked [] 0 infos a in
                  subst (SafeBundle infos)
                    (ok-injective (rw none_clash at (rw (a, validate_zip) at (rw few at e))))
                    (record {
                      few = ground (arith, few);
                      contained = checked.contained;
                      inside = All-Inside infos checked.contained;
                      fits = omega (arith, checked.fits (omega arith));
                      named = checked.named;
                      distinct = checked.distinct tt;
                      no_folder =
                          clashes-none (folders_of canonical lower_path seen') seen' none_clash;
                    })
            ]
    ]
  ]

read_manifest-IsAccepted :
    (bundle : Bundle) {m : Manifest} → read_manifest bundle ≡ ok m → IsAccepted m
unfolding read_manifest
read_manifest-IsAccepted bundle e = elim (Option-cases bundle.raw) [
  | inl a ↦ absurd (cc (rw (a, read_manifest) at e))
  | inr (raw, a) ↦ elim (Option-cases (validate_manifest raw)) [
    | inl b ↦ absurd (cc (rw b at (rw (a, read_manifest) at e)))
    | inr (m', b) ↦
        subst IsAccepted (ok-injective (rw b at (rw (a, read_manifest) at e)))
          (validate_manifest-IsAccepted raw b)
  ]
]

check_required_files-same :
    (bundle : Bundle) (m : Manifest) {m' : Manifest}
    → check_required_files bundle m ≡ ok m'
    → m ≡ m'
unfolding check_required_files
check_required_files-same bundle m e =
    elim (Bool-cases (not (has_file m.entry (entries_of bundle.entries)))) [
      | inl t ↦ absurd (cc (rw t at e))
      | inr t ↦ elim (Bool-cases (not (icon_there m.icon (entries_of bundle.entries)))) [
        | inl i ↦ absurd (cc (rw i at (rw t at e)))
        | inr i ↦ ok-injective (rw i at (rw t at e))
      ]
    ]

-- The manifest of a bundle that passes is an accepted one.
pub prepare_bundle-IsAccepted :
    (canonical lower_path : Text → Text) (bundle : Bundle) {m : Manifest}
    → prepare_bundle canonical lower_path bundle ≡ ok m
    → IsAccepted m
unfolding prepare_bundle
prepare_bundle-IsAccepted canonical lower_path bundle e =
    elim (Result-cases (validate_zip canonical lower_path bundle.entries)) [
      | inl (x, a) ↦ absurd (cc (rw (a, prepare_bundle) at e))
      | inr (seen, a) ↦ elim (Result-cases (read_manifest bundle)) [
        | inl (x, b) ↦ absurd (cc (rw b at (rw (a, prepare_bundle) at e)))
        | inr (m', b) ↦
            subst IsAccepted
              (check_required_files-same bundle m' (rw b at (rw (a, prepare_bundle) at e)))
              (read_manifest-IsAccepted bundle b)
      ]
    ]
