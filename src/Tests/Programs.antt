-- ===== src/Tests/Programs.antt =====
-- The theorems on apps, bundles, policies, schedules and forms at the small portal.
use claude_pwa_portal.Base.{
  ℕ, suc, ◌+◌, ◌*◌, ◌<◌, ◌≤◌, String, Text, Text-Eq, codes, ◌≡◌, ◌⊎◌, refl, Bool, true, false,
  Option, none, some, List, [], ◌∷◌, ◌==◌, ok, contains, arith, if◌then◌else◌,
}
use claude_pwa_portal.Base.Table.{first}
use claude_pwa_portal.Models.{App, ScheduledRun, Db}
use claude_pwa_portal.Tests.Data.{ada, notes, notes_app, portal}
use claude_pwa_portal.Manifest.{validate_manifest}
use claude_pwa_portal.Manifest.Schema.{Tool, Form, Manifest}
use claude_pwa_portal.Manifest.Accepted.{IsAccepted, validate_manifest-IsAccepted}
use claude_pwa_portal.Bundles.{ZipEntry, validate_zip}
use claude_pwa_portal.Bundles.Safe.{SafeBundle, validate_zip-SafeBundle}
use claude_pwa_portal.Apps.{find_app, network_update, with_network, delete_app}
use claude_pwa_portal.Apps.Origins.{AllValid, Step, Reach, Reach-AllValid}
use claude_pwa_portal.Apps.Revoked.{replaced_by, with_network-stays}
use claude_pwa_portal.Apps.Deleted.{Deleted, delete_app-Deleted}
use claude_pwa_portal.Surface.{app_host_gate, limit_body, body_limit_for}
use claude_pwa_portal.Surface.Confined.{Outside, app_host_gate-Outside}
use claude_pwa_portal.Surface.Bodies.{total, limit_body-limits}
use claude_pwa_portal.Csp.{Settings, app_csp}
use claude_pwa_portal.Csp.Listed.{directives}
use claude_pwa_portal.Csp.Directives.{Reads, app_csp-directives}
use claude_pwa_portal.Scheduler.{DateTime, instant, compute_next_run}
use claude_pwa_portal.Scheduler.Calendar.{IsDate}
use claude_pwa_portal.Scheduler.Cadence.{Fits, compute_next_run-Fits}
use claude_pwa_portal.Scheduler.Ticker.{RunTool, run_one, run_due_schedules}
use claude_pwa_portal.Scheduler.Ticker.Due.{NoneDue, run_due_schedules-NoneDue, run_one_refused}
use claude_pwa_portal.Intake.{Answer, thanks, Window, handle_submit}
use claude_pwa_portal.Intake.Recorded.{
  Refused, Open, handle_submit-thanks, Stored, handle_submit-Stored,
}

abbrev report : Tool
report = record {
  name = codes "report";
  description = codes "a report";
  params = [];
  render = record { html = codes "<p>"; filename = codes "r.pdf"; branded = false };
  deliver = record { kind = "share"; to = none; subject = none; key = none; ttl_days = some 7 };
}

abbrev contact : Form
contact = record {
  name = codes "contact";
  title = codes "Contact";
  description = none;
  fields =
      record {
        name = codes "city";
        label = codes "City";
        type = "text";
        required = true;
        placeholder = none;
      }
      ∷ [];
  notify_email = none;
  success_message = none;
}

abbrev manifest : Manifest
manifest = record {
  slug = notes;
  name = notes;
  version = codes "2";
  description = none;
  icon = none;
  entry = codes "index.html";
  services = "pdf" ∷ [];
  permissions = record { network = codes "https://a.example" ∷ []; csp_strict = false };
  tools = report ∷ [];
  forms = contact ∷ [];
}

validate_manifest-IsAccepted_example : IsAccepted manifest
unfolding validate_manifest claude_pwa_portal.Base.text_eq
validate_manifest-IsAccepted_example = validate_manifest-IsAccepted manifest {m' = manifest} refl

abbrev entries : List ZipEntry
entries =
    record {
      filename = codes "css/";
      is_dir = true;
      external_attr = 0;
      file_size = 0;
      compress_size = 0;
    }
    ∷ record {
      filename = codes "index.html";
      is_dir = false;
      external_attr = 0;
      file_size = 90;
      compress_size = 60;
    }
    ∷ []

abbrev same_name : Text → Text
same_name n = n

validate_zip-SafeBundle_example : SafeBundle same_name same_name entries (codes "index.html" ∷ [])
unfolding validate_zip claude_pwa_portal.Base.text_eq
validate_zip-SafeBundle_example = validate_zip-SafeBundle same_name same_name entries refl

Reach-AllValid_example : AllValid (network_update notes ada [] (codes "https://a.example") portal).1
Reach-AllValid_example =
    Reach-AllValid same_name same_name {db = portal}
      (Reach.next Reach.here (Step.networked notes ada [] (codes "https://a.example")))
      ((tt, tt), tt)

abbrev asking : App
asking = record notes_app {
  requested_origins = codes "https://a.example" ∷ [];
  allowed_origins = codes "https://a.example" ∷ [];
}

with_network-stays_example :
    contains
      (replaced_by ((ada, manifest) ∷ []) (with_network [] [] asking)).allowed_origins
      (codes "https://a.example")
    ≡ false
unfolding claude_pwa_portal.Base.text_eq claude_pwa_portal.Apps.parse_extra_origins
with_network-stays_example =
    with_network-stays (codes "https://a.example") [] [] asking ((ada, manifest) ∷ []) refl refl
      refl

delete_app-Deleted_example :
    ((delete_app 5 notes ada portal []).0 ≡ true)
    × Deleted 3600 notes_app portal
        (delete_app 5 notes ada portal []).1
        (delete_app 5 notes ada portal []).2
unfolding find_app first claude_pwa_portal.Base.text_eq
delete_app-Deleted_example = delete_app-Deleted 3600 5 notes ada notes_app portal [] refl

abbrev settings : Settings
settings = record {
  site_url = codes "x.org";
  http_only = false;
  cookies_secure = true;
  child_apps_same_origin = false;
}

app_csp-directives_example :
    Reads
      (app_csp settings true notes (codes "/") (codes "n") portal)
      (directives settings true notes (codes "/") (codes "n") notes_app)
unfolding find_app first claude_pwa_portal.Base.text_eq
    claude_pwa_portal.Manifest.Origins.Separators.semicolons
app_csp-directives_example =
    app_csp-directives settings true notes (codes "/") (codes "n") notes_app portal ((tt, tt), tt)
      refl (refl, refl, refl) refl

-- 31 January 2026, noon.
abbrev january : DateTime
january = record { year = 2026; month = 1; day = 31; micros = 43200000000 }

january-IsDate : IsDate january
unfolding claude_pwa_portal.Scheduler.days_in_month
january-IsDate = record {
  year_from = omega arith;
  month_from = omega arith;
  month_to = omega arith;
  day_from = omega arith;
  day_to = omega arith;
  in_day = omega arith;
}

abbrev february : DateTime
february = record { year = 2026; month = 2; day = 28; micros = 32400000000 }

compute_next_run-Fits_example :
    (instant january < instant february) × Fits "monthly" 9 0 0 31 february
unfolding compute_next_run
compute_next_run-Fits_example =
    compute_next_run-Fits "monthly" 9 0 0 31 january {run = february} january-IsDate refl

abbrev weekly_report : ScheduledRun
weekly_report = record {
  id = 1;
  app_slug = notes;
  tool_name = codes "report";
  user_id = 2;
  frequency = "weekly";
  hour = 9;
  minute = 30;
  day_of_week = 4;
  day_of_month = 1;
  enabled = true;
  next_run_at = 7;
  last_run_at = none;
  last_status = "";
}

abbrev scheduled : Db
scheduled = record portal { schedules = weekly_report ∷ [] }

abbrev delivers : RunTool
delivers t s db = (true, db)

abbrev fails : RunTool
fails t s db = (false, db)

run_due_schedules-NoneDue_example :
    (n : ℕ) × ((run_due_schedules delivers january scheduled).0 ≡ some n)
    × NoneDue delivers
        (λ t s db. refl)
        january
        january-IsDate
        (run_due_schedules delivers january scheduled).1
    × (run_due_schedules delivers january (run_due_schedules delivers january scheduled).1
        ≡ (some 0, (run_due_schedules delivers january scheduled).1))
run_due_schedules-NoneDue_example =
    run_due_schedules-NoneDue delivers (λ t s db. refl) january january-IsDate scheduled (refl, tt)

run_one_refused_example :
    run_one delivers january true weekly_report scheduled
    ≡ run_one fails january true weekly_report scheduled
unfolding claude_pwa_portal.Auth.get_user first
run_one_refused_example = run_one_refused delivers fails january true weekly_report scheduled refl

abbrev with_form : Db
with_form = record portal { apps = record notes_app { forms = contact ∷ [] } ∷ [] }

abbrev filled_in : Text → Text
filled_in name = if name == codes "city" then codes " Rome " else []

abbrev any_float : Text → Bool
any_float s = true

abbrev submitted : Answer × Db × List Window
submitted =
    handle_submit any_float 7 (codes "10.0.0.1") notes (codes "contact") filled_in with_form []

handle_submit-Stored_example :
    Refused any_float filled_in with_form submitted.0 submitted.1
    ⊎ Stored any_float 7
        (codes "10.0.0.1")
        notes
        (codes "contact")
        filled_in
        with_form
        []
        submitted.1
handle_submit-Stored_example =
    handle_submit-Stored any_float 7 (codes "10.0.0.1") notes (codes "contact") filled_in with_form
      []

contact-Open : Open notes (codes "contact") with_form contact
unfolding find_app first claude_pwa_portal.Base.text_eq
contact-Open = record {
  app_row = record notes_app { forms = contact ∷ [] };
  known = refl;
  enabled = refl;
  declared = refl;
}

handle_submit-thanks_example :
    (submitted.0 ≡ thanks)
    × Stored any_float 7
        (codes "10.0.0.1")
        notes
        (codes "contact")
        filled_in
        with_form
        []
        submitted.1
unfolding first claude_pwa_portal.Base.text_eq claude_pwa_portal.Base.Chars.strip
    claude_pwa_portal.Base.Chars.take
handle_submit-thanks_example =
    handle_submit-thanks any_float 7 (codes "10.0.0.1") notes (codes "contact") filled_in contact
      with_form [] contact-Open refl (omega arith) (refl, tt)

app_host_gate-Outside_example : Outside (codes "/__app_bundle__/admin")
unfolding app_host_gate claude_pwa_portal.Surface.matches_form_path claude_pwa_portal.Base.text_eq
app_host_gate-Outside_example =
    app_host_gate-Outside notes (codes "/admin") "GET" {p = codes "/__app_bundle__/admin"} refl refl

limit_body-limits_example :
    (passed : List ℕ) × (exceeded : Bool) × (limit_body (codes "/login") none (7 ∷ 5 ∷ [])
      ≡ some (passed, exceeded))
    × (total passed ≤ body_limit_for (codes "/login"))
    × (total (7 ∷ 5 ∷ []) ≤ body_limit_for (codes "/login")
        → (passed ≡ 7 ∷ 5 ∷ []) × (exceeded ≡ false))
limit_body-limits_example = limit_body-limits (codes "/login") none (7 ∷ 5 ∷ []) refl
