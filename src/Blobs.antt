-- ===== src/Blobs.antt =====
-- portal/storage_backend.py as its callers see it: a set of named objects of bytes.
pub mod Laws
use claude_pwa_portal.Base.{
  ℕ, Text, Text-Eq, codes, ◌++◌, Bool, true, false, Option, none, some, List, [], ◌∷◌, ◌==◌,
  if◌then◌else◌, length, is_none, not,
}
use claude_pwa_portal.Base.Table.{first, select, delete}
use claude_pwa_portal.Base.Chars.{starts_with}

pub record Blob : Type 0 where
  pub key : Text
  pub content : List ℕ

abbrev pub Blobs : Type 0
Blobs = List Blob

abbrev pub has_key : Text → Blob → Bool
has_key key blob = blob.key == key

abbrev content_of : Option Blob → Option (List ℕ)
content_of none = none
content_of (some blob) = some blob.content

unfoldable pub read_or_none : Text → Blobs → Option (List ℕ)
read_or_none key blobs = content_of (first (has_key key) blobs)

unfoldable pub exists : Text → Blobs → Bool
unfolding read_or_none
exists key blobs = not (is_none (read_or_none key blobs))

abbrev length_of : Option (List ℕ) → Option ℕ
length_of none = none
length_of (some content) = some (length content)

unfoldable pub size : Text → Blobs → Option ℕ
size key blobs = length_of (read_or_none key blobs)

-- A write replaces what the key held.
unfoldable pub write : Text → List ℕ → Blobs → Blobs
write key content blobs = record { key = key; content = content } ∷ delete (has_key key) blobs

unfoldable pub remove : Text → Blobs → Blobs
remove key blobs = delete (has_key key) blobs

-- The objects under a prefix.
abbrev pub is_under : Text → Blob → Bool
is_under prefix blob = starts_with blob.key (prefix ++ codes "/")

unfoldable pub list_under : Text → Blobs → List Blob
list_under prefix blobs = select (is_under prefix) blobs

unfoldable pub delete_prefix : Text → Blobs → Blobs
delete_prefix prefix blobs = delete (is_under prefix) blobs

-- The files of the new tree, by their paths in it; what the old tree had besides goes.
unfoldable pub replace_tree : Text → Blobs → Blobs → Blobs
unfolding delete_prefix
replace_tree prefix [] blobs = delete_prefix prefix blobs
replace_tree prefix (file ∷ src) blobs =
    record { key = prefix ++ (codes "/" ++ file.key); content = file.content }
    ∷ replace_tree prefix src blobs
