-- ===== src/Apps/Revoked.antt =====
-- portal/admin.py, the network form, and the uploads after it.
use claude_pwa_portal.Base.{
  String, Text, Text-Eq, String-Eq, ◌≡◌, true, false, List, [], ◌∷◌, ◌++◌, arith, contains, ℕ-Eq,
}
use claude_pwa_portal.Models.{User, App}
use claude_pwa_portal.Manifest.{allowed_services}
use claude_pwa_portal.Manifest.Schema.{Manifest}
use claude_pwa_portal.Apps.{
  without, among, admin_extras, replaced_app, parse_extra_origins, with_network, with_services,
}
use claude_pwa_portal.Apps.Lists.{
  contains-append_or, contains-without, contains-among, contains-dedupe,
}

-- The app after a list of updates, each with who uploads it and the manifest.
unfoldable pub replaced_by : List (User × Manifest) → App → App
replaced_by [] a = a
replaced_by (upload ∷ uploads) a = replaced_by uploads (replaced_app upload.0 upload.1 a)

module _ (s : String) where
  service-replaced :
      (uploads : List (User × Manifest)) (a : App)
      → contains a.revoked_services s ≡ true
      → contains a.allowed_services s ≡ false
      → contains (replaced_by uploads a).allowed_services s ≡ false
  unfolding replaced_by replaced_app
  service-replaced [] a gone off = off
  service-replaced (upload ∷ uploads) a gone off =
      service-replaced uploads (replaced_app upload.0 upload.1 a) gone
        (ground (arith, gone, contains-without s a.revoked_services upload.1.services))

  with_services-off :
      (picked : List String) (a : App)
      → contains picked s ≡ false
      → contains (with_services picked a).allowed_services s ≡ false
  unfolding with_services
  with_services-off picked a h = ground (
    arith,
    h,
    contains-dedupe s [] (among allowed_services (among a.services picked)),
    contains-among s allowed_services (among a.services picked),
    contains-among s a.services picked,
  )

  with_services-gone :
      (picked : List String) (a : App)
      → contains a.services s ≡ true
      → contains picked s ≡ false
      → contains (with_services picked a).revoked_services s ≡ true
  unfolding with_services
  with_services-gone picked a declared h = ground (
    arith,
    declared,
    with_services-off picked a h,
    contains-append_or s (without a.services a.revoked_services)
        (without (with_services picked a).allowed_services a.services),
    contains-without s (with_services picked a).allowed_services a.services,
  )

  -- A declared service that the form leaves unchecked is not approved in any later version of the
  -- app, whatever the uploaded manifests declare, until a form changes it.
  pub with_services-stays :
      (picked : List String) (a : App) (uploads : List (User × Manifest))
      → contains a.services s ≡ true
      → contains picked s ≡ false
      → contains (replaced_by uploads (with_services picked a)).allowed_services s ≡ false
  with_services-stays picked a uploads declared h =
      service-replaced uploads (with_services picked a) (with_services-gone picked a declared h)
        (with_services-off picked a h)

module _ (o : Text) where
  replaced_app-off :
      (u : User) (m : Manifest) (a : App)
      → contains a.revoked_origins o ≡ true
      → contains a.allowed_origins o ≡ false
      → contains (replaced_app u m a).allowed_origins o ≡ false
  unfolding replaced_app admin_extras
  replaced_app-off u m a gone off =
      let kept = without a.revoked_origins m.permissions.network in
      let extras = without a.requested_origins a.allowed_origins in
      ground (
        arith,
        gone,
        off,
        contains-append_or o kept (without kept extras),
        contains-without o kept extras,
        contains-without o a.revoked_origins m.permissions.network,
        contains-without o a.requested_origins a.allowed_origins,
      )

  origin-replaced :
      (uploads : List (User × Manifest)) (a : App)
      → contains a.revoked_origins o ≡ true
      → contains a.allowed_origins o ≡ false
      → contains (replaced_by uploads a).allowed_origins o ≡ false
  unfolding replaced_by
  origin-replaced [] a gone off = off
  origin-replaced (upload ∷ uploads) a gone off =
      origin-replaced uploads (replaced_app upload.0 upload.1 a) (unfold replaced_app in gone)
        (replaced_app-off upload.0 upload.1 a gone off)

  with_network-off :
      (checked : List Text) (extras : Text) (a : App)
      → contains checked o ≡ false
      → contains (parse_extra_origins extras) o ≡ false
      → contains (with_network checked extras a).allowed_origins o ≡ false
  unfolding with_network
  with_network-off checked extras a h k = ground (
    arith,
    h,
    k,
    contains-dedupe o [] (among a.requested_origins checked ++ parse_extra_origins extras),
    contains-append_or o (among a.requested_origins checked) (parse_extra_origins extras),
    contains-among o a.requested_origins checked,
  )

  with_network-gone :
      (checked : List Text) (extras : Text) (a : App)
      → contains a.requested_origins o ≡ true
      → contains checked o ≡ false
      → contains (with_network checked extras a).revoked_origins o ≡ true
  unfolding with_network
  with_network-gone checked extras a asked h =
      let kept = among a.requested_origins checked in
      ground (
        arith,
        asked,
        h,
        contains-append_or o (without a.requested_origins a.revoked_origins)
            (without kept a.requested_origins),
        contains-without o kept a.requested_origins,
        contains-among o a.requested_origins checked,
      )

  -- A requested origin that the form leaves unchecked, and that is not among the form's extras, is
  -- not allowed in any later version of the app, whatever the uploaded manifests request, until a
  -- form changes it.
  pub with_network-stays :
      (checked : List Text) (extras : Text) (a : App) (uploads : List (User × Manifest))
      → contains a.requested_origins o ≡ true
      → contains checked o ≡ false
      → contains (parse_extra_origins extras) o ≡ false
      → contains (replaced_by uploads (with_network checked extras a)).allowed_origins o ≡ false
  with_network-stays checked extras a uploads asked h k =
      origin-replaced uploads (with_network checked extras a)
        (with_network-gone checked extras a asked h) (with_network-off checked extras a h k)
