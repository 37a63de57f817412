-- ===== src/Bundles.antt =====
-- portal/apps.py, `_validate_zip` to `_prepare_bundle`: what is checked of an uploaded bundle before
-- anything of it is written. A bundle is what Python's `zipfile` and `json` read of it: the entries,
-- the files by their names, and `portal.json` as pydantic types it, `none` where one of them raises.
-- Parameters: `canonical` is `unicodedata.normalize("NFC", os.path.normpath(name)).lower()`, and
-- `lower_path` is `str.lower` on all of Unicode.
pub mod Inside
pub mod Safe
use claude_pwa_portal.Base.{
  ℕ, ◌+◌, ◌*◌, ◌/◌, ◌%◌, Text, Text-Eq, codes, Bool, true, false, not, ◌&&◌, ◌||◌, Option, none,
  some, List, [], ◌∷◌, ◌++◌, map, Result, ok, err, ltb, leb, ◌==◌, ℕ-Eq, if◌then◌else◌, contains,
  length, is_none,
}
use claude_pwa_portal.Base.Chars.{starts_with, split_on}
use claude_pwa_portal.Blobs.{Blob, Blobs}
use claude_pwa_portal.Manifest.{validate_manifest}
use claude_pwa_portal.Manifest.Schema.{Manifest}

pub record ZipEntry : Type 0 where
  pub filename : Text
  pub is_dir : Bool
  pub external_attr : ℕ
  pub file_size : ℕ
  pub compress_size : ℕ

-- What `UploadError` reports.
pub data UploadError : Type 0 where
  not_a_zip too_many_files unsafe_path symlink duplicate_entry too_large suspicious_ratio
        file_and_folder bad_manifest entry_missing icon_missing slug_mismatch already_exists
        orphaned_data :
      UploadError

abbrev pub max_files : ℕ
max_files = 1000

abbrev pub max_uncompressed_bytes : ℕ
max_uncompressed_bytes = 100 * 1024 * 1024

abbrev pub max_compress_ratio : ℕ
max_compress_ratio = 50

-- `Path(name).parts`, below the root: the empty parts and `.` are dropped.
unfoldable parts_of : List Text → List Text
parts_of [] = []
parts_of (part ∷ parts) =
    let rest = parts_of parts in if part == [] || part == codes "." then rest else part ∷ rest

unfoldable pub is_unsafe : Text → Bool
unfolding starts_with split_on parts_of
is_unsafe name =
    contains name 92
    || starts_with name (codes "/")
    || contains (parts_of (split_on 47 name)) (codes "..")

-- `(info.external_attr >> 16) & 0o170000 == 0o120000`
unfoldable pub is_symlink : ZipEntry → Bool
is_symlink info = info.external_attr / 65536 / 4096 % 16 == 10

-- `info.file_size / info.compress_size > MAX_COMPRESS_RATIO`, of a large file
unfoldable pub is_suspicious : ZipEntry → Bool
is_suspicious info =
    ltb 0 info.compress_size
    && ltb (100 * 1024) info.file_size
    && ltb (max_compress_ratio * info.compress_size) info.file_size

-- The folders that a path names: what stands before each of its slashes, `Path(n).parents`.
parents_from : Text → Text → List Text
parents_from before [] = []
parents_from before (c ∷ s) =
    let rest = parents_from (before ++ (c ∷ [])) s in if c == 47 then before ∷ rest else rest

module _ (canonical lower_path : Text → Text) where
  -- The names seen, or what is wrong with an entry.
  unfoldable pub check_entries : List Text → ℕ → List ZipEntry → Result UploadError (List Text)
  unfolding is_unsafe is_symlink is_suspicious
  check_entries seen total [] = ok seen
  check_entries seen total (info ∷ infos) =
      let norm = canonical info.filename in
      let skipped = check_entries seen total infos in
      let added = check_entries (norm ∷ seen) (total + info.file_size) infos in
      if info.is_dir
      then skipped
      else if is_unsafe info.filename
      then err unsafe_path
      else if is_symlink info
      then err symlink
      else if contains seen norm
      then err duplicate_entry
      else if ltb max_uncompressed_bytes (total + info.file_size)
      then err too_large
      else if is_suspicious info
      then err suspicious_ratio
      else added

  unfoldable pub folders_of : List Text → List Text
  unfolding parents_from
  folders_of [] = []
  folders_of (n ∷ seen) = map lower_path (parents_from [] n) ++ folders_of seen

  unfoldable pub clashes : List Text → List Text → Bool
  clashes folders [] = false
  clashes folders (n ∷ seen) = contains folders n || clashes folders seen

  unfoldable pub validate_zip : Option (List ZipEntry) → Result UploadError (List Text)
  unfolding check_entries folders_of clashes
  validate_zip none = err not_a_zip
  validate_zip (some infos) =
      if ltb max_files (length infos) then err too_many_files else elim (check_entries [] 0 infos) [
        | err e ↦ err e
        | ok seen ↦ if clashes (folders_of seen) seen then err file_and_folder else ok seen
      ]

pub record Bundle : Type 0 where
  pub entries : Option (List ZipEntry)
  pub raw : Option Manifest
  pub files : Blobs

has_file : Text → List ZipEntry → Bool
has_file name [] = false
has_file name (info ∷ infos) = info.filename == name || has_file name infos

icon_there : Option Text → List ZipEntry → Bool
unfolding has_file
icon_there none infos = true
icon_there (some icon) infos = icon == [] || has_file icon infos

entries_of : Option (List ZipEntry) → List ZipEntry
entries_of none = []
entries_of (some infos) = infos

check_required_files : Bundle → Manifest → Result UploadError Manifest
unfolding has_file icon_there entries_of
check_required_files bundle manifest =
    if not (has_file manifest.entry (entries_of bundle.entries))
    then err entry_missing
    else if not (icon_there manifest.icon (entries_of bundle.entries))
    then err icon_missing
    else ok manifest

read_manifest : Bundle → Result UploadError Manifest
unfolding validate_manifest
read_manifest bundle = elim bundle.raw [
  | none ↦ err bad_manifest
  | some raw ↦ elim (validate_manifest raw) [
    | none ↦ err bad_manifest
    | some manifest ↦ ok manifest
  ]
]

module _ (canonical lower_path : Text → Text) where
  unfoldable pub prepare_bundle : Bundle → Result UploadError Manifest
  unfolding validate_zip read_manifest check_required_files
  prepare_bundle bundle = elim (validate_zip canonical lower_path bundle.entries) [
    | err e ↦ err e
    | ok seen ↦ elim (read_manifest bundle) [
      | err e ↦ err e
      | ok manifest ↦ check_required_files bundle manifest
    ]
  ]
