-- ===== src/Surface/Confined.antt =====
-- portal/middleware.py, `AppHostGateMiddleware`: where a request on the host of an app is routed to.
use mathlib.Core.Path.{subst}
use mathlib.Core.Option.{some-injective}
use claude_pwa_portal.Base.{
  String, String-Eq, Text, Text-Eq, codes, text_eq_iff, ◌≡◌, refl, ap, true, false, ◌&&◌, ◌||◌,
  some, List, [], ◌∷◌, ◌++◌, arith, ◌==◌, ℕ-Eq, contains, Bool-cases, List-cases, inl, inr,
  nat_eq_iff,
}
use claude_pwa_portal.Base.Chars.{starts_with, split_on, push, chop_newline}
use claude_pwa_portal.Base.Table.{All}
use claude_pwa_portal.Apps.Lists.{All-contains}
use claude_pwa_portal.Surface.{
  app_bundle_route_prefix, app_host_portal_paths, form_segments, matches_form_path,
  is_portal_path_on_app_host, app_host_gate,
}

-- Where the pages of the portal and of its administration begin, and the endpoints of OAuth and MCP.
abbrev pub portal_prefixes : List Text
portal_prefixes =
    codes "/admin"
    ∷ codes "/login"
    ∷ codes "/logout"
    ∷ codes "/setup"
    ∷ codes "/profile"
    ∷ codes "/oauth"
    ∷ codes "/mcp"
    ∷ codes "/apps"
    ∷ codes "/api/v1/apps"
    ∷ codes "/s/"
    ∷ []

abbrev pub Outside : Text → Type 0
Outside path = All (λ q. starts_with path q ≡ false) portal_prefixes

-- Two prefixes of one text are prefixes of each other.
both_prefixes :
    (s p q : Text)
    → starts_with s p ≡ true
    → starts_with s q ≡ true
    → (starts_with p q || starts_with q p) ≡ true
unfolding starts_with
both_prefixes s [] q h k = ground arith
both_prefixes s (d ∷ p) [] h k = refl
both_prefixes [] (d ∷ p) (e ∷ q) h k = absurd (cc)
both_prefixes (c ∷ s) (d ∷ p) (e ∷ q) h k = ground (
  arith,
  h,
  k,
  nat_eq_iff c d,
  nat_eq_iff c e,
  nat_eq_iff d e,
  nat_eq_iff e d,
  both_prefixes s p q,
)

-- A text with a prefix has no other prefix that is apart from it.
apart :
    (s p q : Text)
    → starts_with s p ≡ true
    → (starts_with p q || starts_with q p) ≡ false
    → starts_with s q ≡ false
apart s p q h d = elim (Bool-cases (starts_with s q)) [
  | inl k ↦ absurd (cc (both_prefixes s p q h k))
  | inr k ↦ k
]

apart-All :
    (s p : Text) (prefixes : List Text)
    → starts_with s p ≡ true
    → All (λ q. (starts_with p q || starts_with q p) ≡ false) prefixes
    → All (λ q. starts_with s q ≡ false) prefixes
apart-All s p [] h d = tt
apart-All s p (q ∷ prefixes) h d = (apart s p q h d.0, apart-All s p prefixes h d.1)

starts-append : (p s : Text) → starts_with (p ++ s) p ≡ true
unfolding starts_with
starts-append [] s = refl
starts-append (c ∷ p) s = ground (arith, nat_eq_iff c c, starts-append p s)

listed-Outside : All Outside app_host_portal_paths
unfolding starts_with
listed-Outside = (
  (refl, (refl, (refl, (refl, (refl, (refl, (refl, (refl, (refl, (refl, tt)))))))))),
  (
    (refl, (refl, (refl, (refl, (refl, (refl, (refl, (refl, (refl, (refl, tt)))))))))),
    (
      (refl, (refl, (refl, (refl, (refl, (refl, (refl, (refl, (refl, (refl, tt)))))))))),
      (
        (refl, (refl, (refl, (refl, (refl, (refl, (refl, (refl, (refl, (refl, tt)))))))))),
        (
          (refl, (refl, (refl, (refl, (refl, (refl, (refl, (refl, (refl, (refl, tt)))))))))),
          (
            (refl, (refl, (refl, (refl, (refl, (refl, (refl, (refl, (refl, (refl, tt)))))))))),
            (
              (refl, (refl, (refl, (refl, (refl, (refl, (refl, (refl, (refl, (refl, tt)))))))))),
              (
                (refl, (refl, (refl, (refl, (refl, (refl, (refl, (refl, (refl, (refl, tt)))))))))),
                tt,
              ),
            ),
          ),
        ),
      ),
    ),
  ),
)

head_or : Text → List Text → Text
head_or d [] = d
head_or d (x ∷ xs) = x

tail_or : List Text → List Text
tail_or [] = []
tail_or (x ∷ xs) = xs

head-eq : {x y : Text} {xs ys : List Text} → x ∷ xs ≡ y ∷ ys → x ≡ y
unfolding head_or
head-eq {x = x} e = ap (head_or x) e

tail-eq : {x y : Text} {xs ys : List Text} → x ∷ xs ≡ y ∷ ys → xs ≡ ys
unfolding tail_or
tail-eq e = ap tail_or e

split_on-first :
    (s first : Text) (rest : List Text) → split_on 47 s ≡ first ∷ rest → starts_with s first ≡ true
unfolding split_on starts_with
split_on-first [] first rest e = subst (λ t. starts_with [] t ≡ true) (head-eq e) refl
split_on-first (c ∷ s) first rest e = elim (Bool-cases (c == 47)) [
  | inl t ↦ subst (λ x. starts_with (c ∷ s) x ≡ true) (head-eq (rw t at e)) refl
  | inr t ↦ elim (List-cases (split_on 47 s)) [
    | inl k ↦
        subst (λ x. starts_with (c ∷ s) x ≡ true) (head-eq (rw (k, push) at (rw t at e)))
          (ground (arith, nat_eq_iff c c))
    | inr (y, ys, k) ↦
        subst (λ x. starts_with (c ∷ s) x ≡ true) (head-eq (rw (k, push) at (rw t at e)))
          (ground (arith, nat_eq_iff c c, split_on-first s y ys k))
  ]
]

split_on-second :
    (s second : Text) (rest : List Text)
    → split_on 47 s ≡ [] ∷ second ∷ rest
    → starts_with s (47 ∷ second) ≡ true
unfolding split_on starts_with
split_on-second [] second rest e = absurd (cc)
split_on-second (c ∷ s) second rest e = elim (Bool-cases (c == 47)) [
  | inl t ↦ ground (arith, t, split_on-first s second rest (tail-eq (rw t at e)))
  | inr t ↦ elim (List-cases (split_on 47 s)) [
    | inl k ↦ absurd (cc (head-eq (rw (k, push) at (rw t at e))))
    | inr (y, ys, k) ↦ absurd (cc (head-eq (rw (k, push) at (rw t at e))))
  ]
]

-- The path begins with `/forms`.
abbrev form_prefix : Text
form_prefix = codes "/forms"

named_forms :
    (root forms : Text)
    → (root == [] && forms == codes "forms") ≡ true
    → (root ≡ []) × (forms ≡ codes "forms")
named_forms root forms h = (
  (text_eq_iff root []).0 (ground (arith, h)),
  (text_eq_iff forms (codes "forms")).0 (ground (arith, h)),
)

forms-prefix :
    (path root forms : Text) (rest : List Text)
    → split_on 47 path ≡ root ∷ forms ∷ rest
    → (root == [] && forms == codes "forms") ≡ true
    → starts_with path form_prefix ≡ true
forms-prefix path root forms rest e h =
    let parts = named_forms root forms h in
    split_on-second path (codes "forms") rest (
      subst (λ f. split_on 47 path ≡ [] ∷ f ∷ rest) parts.1
        (subst (λ r. split_on 47 path ≡ r ∷ forms ∷ rest) parts.0 e))

form_segments-prefix :
    (path : Text) (segments : List Text)
    → split_on 47 path ≡ segments
    → form_segments segments ≡ true
    → starts_with path form_prefix ≡ true
unfolding form_segments
form_segments-prefix path [] e h = absurd (cc)
form_segments-prefix path (root ∷ []) e h = absurd (cc)
form_segments-prefix path (root ∷ forms ∷ []) e h = absurd (cc)
form_segments-prefix path (root ∷ forms ∷ name ∷ []) e h =
    forms-prefix path root forms _ e (ground (arith, h))
form_segments-prefix path (root ∷ forms ∷ name ∷ last ∷ []) e h =
    forms-prefix path root forms _ e (ground (arith, h))
form_segments-prefix path (root ∷ forms ∷ name ∷ last ∷ more ∷ rest) e h = absurd (cc)

chop_newline-prefix : (s p : Text) → starts_with (chop_newline s) p ≡ true → starts_with s p ≡ true
unfolding chop_newline starts_with
chop_newline-prefix s [] h = refl
chop_newline-prefix [] (d ∷ p) h = h
chop_newline-prefix (c ∷ []) (d ∷ p) h = elim (Bool-cases (c == 10)) [
  | inl t ↦ absurd (cc (rw t at h))
  | inr t ↦ rw t at h
]
chop_newline-prefix (c ∷ e ∷ s) (d ∷ p) h = ground (arith, h, chop_newline-prefix (e ∷ s) p)

form_path-prefix :
    (path : Text) → matches_form_path path ≡ true → starts_with path form_prefix ≡ true
unfolding matches_form_path
form_path-prefix path h = elim (Bool-cases (form_segments (split_on 47 path))) [
  | inl t ↦ form_segments-prefix path (split_on 47 path) refl t
  | inr t ↦ chop_newline-prefix path form_prefix (
      form_segments-prefix (chop_newline path) (split_on 47 (chop_newline path)) refl
        (cc (rw t at h)))
]

form_path-Outside : (path : Text) → matches_form_path path ≡ true → Outside path
unfolding starts_with
form_path-Outside path h =
    apart-All path form_prefix portal_prefixes (form_path-prefix path h)
      (refl, (refl, (refl, (refl, (refl, (refl, (refl, (refl, (refl, (refl, tt))))))))))

storage_prefix : Text
storage_prefix = codes "/api/v1/storage/"

storage_path-Outside : (path : Text) → starts_with path storage_prefix ≡ true → Outside path
unfolding starts_with storage_prefix
storage_path-Outside path h =
    apart-All path storage_prefix portal_prefixes h
      (refl, (refl, (refl, (refl, (refl, (refl, (refl, (refl, (refl, (refl, tt))))))))))

bundle_path-Outside : (path : Text) → Outside (app_bundle_route_prefix ++ path)
unfolding starts_with
bundle_path-Outside path =
    apart-All (app_bundle_route_prefix ++ path) app_bundle_route_prefix portal_prefixes
      (starts-append app_bundle_route_prefix path)
      (refl, (refl, (refl, (refl, (refl, (refl, (refl, (refl, (refl, (refl, tt))))))))))

portal_path-Outside : (path : Text) → is_portal_path_on_app_host path ≡ true → Outside path
unfolding is_portal_path_on_app_host storage_prefix
portal_path-Outside path h = elim (Bool-cases (contains app_host_portal_paths path)) [
  | inl t ↦ All-contains Outside app_host_portal_paths path listed-Outside t
  | inr t ↦ elim (Bool-cases (starts_with path storage_prefix)) [
    | inl k ↦ storage_path-Outside path k
    | inr k ↦ form_path-Outside path (ground (arith, h, t, k))
  ]
]

-- On the host of an app that has a name, whatever the path and the method, a request that is routed
-- at all is routed to none of the pages and endpoints under `portal_prefixes`.
pub app_host_gate-Outside :
    (slug path : Text) (method : String) {p : Text}
    → (slug == []) ≡ false
    → app_host_gate (some slug) method path ≡ some p
    → Outside p
unfolding app_host_gate
app_host_gate-Outside slug path method {p = p} named e =
    elim (Bool-cases (is_portal_path_on_app_host path)) [
      | inl t ↦
          subst Outside (some-injective path p (rw (named, t) at e)) (portal_path-Outside path t)
      | inr t ↦ elim (Bool-cases (method == "GET" || method == "HEAD")) [
        | inl k ↦
            subst Outside
              (some-injective (app_bundle_route_prefix ++ path) p (rw (named, t, k) at e))
              (bundle_path-Outside path)
        | inr k ↦ absurd (cc (rw (named, t, k) at e))
      ]
    ]
