-- ===== src/Lib.antt =====
-- A model of the PWA portal: a FastAPI program that hosts small web apps ("child apps"), each on its own
-- subdomain, signs users in to the portal and to the apps, and gives the apps services (storage, PDF,
-- share links, mail) that an administrator allows. It is also an OAuth provider for connectors.
--
-- The database is one record of tables (Models, portal/models.py); a table is a list of rows, and a
-- statement of SQL is a function on it (Base/Table): `first`, `select`, `count`, `update`, `delete`,
-- `insert`. A handler or helper is a function from its arguments and the database to its answer and the
-- database that it commits. What a request draws (ids, tokens, the clock) and what is computed outside
-- of the program (digests, URL parsing, rendering, e-mail validation) are arguments. A conditional UPDATE or
-- DELETE is one step, as it is in the database, so a race of two requests is one such step after another
-- with whatever each of them had read.
--
-- The files and what they model, with paths from the repository's root:
-- Sessions: portal/sessions.py, the portal's own sessions.
-- AppSessions: portal/sessions.py, the session of a user in one child app.
-- Credentials: portal/sessions.py, what signing out, demoting and deleting a user takes.
-- Launch: portal/api.py, session_exchange, which trades a launch token for an app session.
-- Auth: portal/deps.py, who a request acts for.
-- Security: portal/security.py, password rules, CSRF and the rule for redirect addresses.
-- OAuth/Tokens, OAuth/Pending, OAuth/Consent: portal/oauth.py, the provider and the consent page.
-- Blobs: portal/storage_backend.py, stored objects as their callers see them.
-- Shares: portal/shares.py, public links to stored objects and rendered PDFs.
-- Access: portal/access.py, which apps a user may launch.
-- Users: portal/admin.py, the forms of an administrator that change accounts.
-- Gates: portal/api.py, the checks before a handler of the SDK.
-- Storage: portal/api.py, the handlers of an app's storage and their quota.
-- Limits: portal/api.py, the hourly windows of mail and PDF.
-- Hosts: portal/middleware.py, the app that a host names.
-- Surface: portal/middleware.py, the paths that an app's host reaches and the limit on bodies.
-- Csp: portal/middleware.py, the content security policy of an app's responses.
-- Manifest, Manifest/Schema, Manifest/Origins: portal/apps.py, what portal.json of a bundle may declare.
-- Bundles: portal/apps.py, what is checked of an uploaded archive.
-- Apps: portal/apps.py, the install and the update of an app, and an administrator's forms for it.
-- Throttle: portal/main.py, the rolling windows that bound login attempts.
-- Login: portal/main.py, first-run setup, login, logout and password change.
-- Scheduler, Scheduler/Ticker: portal/scheduler.py, the cadences and the runs that are due.
-- Intake: portal/forms.py, the submissions of public forms.
-- Audit: portal/audit.py, record_event.
-- The other children of a module hold its theorems. Tests applies them to a small portal.
--
-- How the parts interact: Auth reads the sessions and tokens that Sessions, AppSessions, Launch, Login and
-- OAuth write and that Credentials takes away; Users calls Credentials, Shares, Access and Storage when
-- an account changes; Storage is reached through Gates, which asks Access and Security. Bundles checks an
-- archive with the validators of Manifest; Apps stores what it declares; Csp writes the origins of an app
-- into a header, Scheduler runs the tools of an app, and Intake serves its forms.
--
-- Numbers are natural numbers: times are microseconds, a difference of times that would be negative is 0,
-- and only `>` tests read such a difference. Every function is structurally recursive, so every loop
-- ends; a date is moved by single days. `decimal` takes as fuel the number itself, which has at least as
-- many units as digits.
--
-- Limits of the model: the ids of sessions that are drawn are new ones, since an id that is there makes the
-- commit fail and the request with it; where a row with the id is there all the same, the model adds a
-- second one behind it. `lower` is exact on the characters whose lower case is one character of Latin-1
-- and leaves every other as it is, so addresses in other scripts are told apart by their case. Years are
-- not bounded, while Python's `datetime` raises after the year 9999. The commit of a fresh install and the
-- extraction of its files do not fail.
--
-- Not modelled: templates, response headers other than the policy of an app, flashes, the files, locks and
-- network of the storage back ends (a write under the namespace's lock is one step), mail, WeasyPrint, the
-- rendering of an app's tools (the scheduler takes a tool's run as an argument), the MCP server, the
-- reading of archives and of JSON, the stash of pending uploads, the registration of OAuth clients, the
-- lists and other forms of the administration, configuration, migrations and deployment.
pub mod Base
pub mod Throttle
pub mod Manifest
pub mod Models
pub mod Audit
pub mod Sessions
pub mod AppSessions
pub mod Credentials
pub mod Launch
pub mod Auth
pub mod Security
pub mod OAuth
pub mod Blobs
pub mod Shares
pub mod Access
pub mod Users
pub mod Gates
pub mod Login
pub mod Storage
pub mod Bundles
pub mod Scheduler
pub mod Apps
pub mod Csp
pub mod Surface
pub mod Intake
pub mod Limits
pub mod Hosts
pub mod Tests
