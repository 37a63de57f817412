-- ===== src/Blobs/Laws.antt =====
-- What is read after a write or a removal.
use claude_pwa_portal.Base.{
  ℕ, Text, Text-Eq, text_eq_iff, ◌≡◌, refl, some, List, arith, ◌==◌, if◌then◌else◌, inl, inr,
  Bool-cases, length,
}
use claude_pwa_portal.Base.Table.{first, first-delete_other}
use claude_pwa_portal.Blobs.{Blobs, has_key, read_or_none, size, write}

pub read-write :
    (key other : Text) (content : List ℕ) (blobs : Blobs)
    → read_or_none other (write key content blobs)
      ≡ (if key == other then some content else read_or_none other blobs)
unfolding read_or_none write first
read-write key other content blobs = elim (Bool-cases (key == other)) [
  | inl same ↦ rw (same) refl
  | inr differ ↦ rw (differ) (
      rw
        (first-delete_other (has_key other) (has_key key)
          (λ x h.
            ground (arith, text_eq_iff x.key other, text_eq_iff x.key key, text_eq_iff key other))
          blobs)
        refl)
]

pub size-write :
    (key other : Text) (content : List ℕ) (blobs : Blobs)
    → size other (write key content blobs)
      ≡ (if key == other then some (length content) else size other blobs)
unfolding size
size-write key other content blobs = rw read-write (ground arith)
