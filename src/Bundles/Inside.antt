-- ===== src/Bundles/Inside.antt =====
-- portal/apps.py, `_validate_zip`: the paths and the kinds of the files that the checks accept.
use mathlib.Core.Path.{subst}
use claude_pwa_portal.Base.{
  ◌/◌, ◌%◌, Text, Text-Eq, text_eq, text_eq_iff, codes, ◌≡◌, refl, sym, ◌∙◌, true, false, not, ◌&&◌,
  ◌||◌, List, [], ◌∷◌, arith, ◌==◌, ℕ-Eq, contains, Bool-cases, inl, inr,
}
use claude_pwa_portal.Base.Chars.{starts_with, split_on}
use claude_pwa_portal.Base.Table.{All}
use claude_pwa_portal.Bundles.{ZipEntry, parts_of, is_unsafe, is_symlink}

-- A path that does not leave the folder that it is taken from: relative, with no backslash, and with
-- no `..` between its slashes.
pub record StaysInside (name : Text) : Type 0 where
  pub no_backslash : contains name 92 ≡ false
  pub relative : starts_with name (codes "/") ≡ false
  pub no_parent : contains (split_on 47 name) (codes "..") ≡ false

-- A folder, or a file at such a path that is no symbolic link: the upper half of its attributes is
-- the mode of Unix, whose kind is not 10.
abbrev pub Inside : ZipEntry → Type 0
Inside info =
    info.is_dir ≡ false
    → StaysInside info.filename × ((info.external_attr / 65536 / 4096 % 16 == 10) ≡ false)

-- A folder, or a file that the checks of the code let through.
abbrev pub Contained : ZipEntry → Type 0
Contained info = (info.is_dir || not (is_unsafe info.filename) && not (is_symlink info)) ≡ true

no_parent_dot :
    (part : Text) → (part == [] || part == codes ".") ≡ true → (codes ".." == part) ≡ false
unfolding text_eq
no_parent_dot part h = elim (Bool-cases (part == [])) [
  | inl e ↦ subst (λ p. text_eq (codes "..") p ≡ false) (sym ((text_eq_iff part []).0 e)) refl
  | inr e ↦
      subst (λ p. text_eq (codes "..") p ≡ false)
        (sym ((text_eq_iff part (codes ".")).0 (ground (arith, h, e)))) refl
]

-- The parts that are dropped are not `..`.
contains-parts_of :
    (parts : List Text) → contains (parts_of parts) (codes "..") ≡ contains parts (codes "..")
unfolding parts_of
contains-parts_of [] = refl
contains-parts_of (part ∷ parts) = elim (Bool-cases (part == [] || part == codes ".")) [
  | inl t ↦ rw (t, no_parent_dot part t) (contains-parts_of parts)
  | inr t ↦ rw (t, contains-parts_of parts) refl
]

is_unsafe-StaysInside : (name : Text) → is_unsafe name ≡ false → StaysInside name
unfolding is_unsafe
is_unsafe-StaysInside name h = record {
  no_backslash = ground (arith, h);
  relative = ground (arith, h);
  no_parent = sym (contains-parts_of (split_on 47 name)) ∙ ground (arith, h);
}

Contained-Inside : (info : ZipEntry) → Contained info → Inside info
unfolding is_symlink
Contained-Inside info h file =
    (is_unsafe-StaysInside info.filename (ground (arith, h, file)), ground (arith, h, file))

pub All-Inside : (infos : List ZipEntry) → All Contained infos → All Inside infos
All-Inside [] h = tt
All-Inside (info ∷ infos) h = (Contained-Inside info h.0, All-Inside infos h.1)
