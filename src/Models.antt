-- ===== src/Models.antt =====
-- portal/models.py: the rows of the database, one record for each table, with the columns that the
-- modelled code reads or writes, and the database as a record of its tables.
-- A row of the model is a stored row, so a primary key that the database assigns is a number, not
-- an `Optional`. A time is a count of microseconds since the epoch of UTC, the resolution of
-- `datetime`; what the program does to a naive `datetime` (reading it as UTC) is the identity here.
use claude_pwa_portal.Manifest.Schema.{Tool, Form}
use claude_pwa_portal.Base.{ℕ, ◌*◌, String, Text, Bool, Option, List}

abbrev pub Time : Type 0
Time = ℕ

-- `timedelta(seconds=n)`.
abbrev pub seconds : ℕ → Time
seconds n = n * 1000000

-- "admin" or "user".
pub data Role : Type 0 where
  admin user : Role

pub record User : Type 0 where
  pub id : ℕ
  pub email : String
  pub password_hash : String
  pub role : Role

pub record App : Type 0 where
  pub id : ℕ
  pub slug : Text
  pub name : Text
  pub version : Text
  pub icon : Option Text
  pub entry : Text
  pub services : List String
  pub allowed_services : List String
  pub csp_strict : Bool
  pub requested_origins : List Text
  pub allowed_origins : List Text
  pub revoked_origins : List Text
  pub revoked_services : List String
  pub services_ungated : Bool
  pub tools : List Tool
  pub forms : List Form
  pub enabled : Bool
  pub display_order : ℕ
  pub uploaded_by : Option ℕ

pub record ApiToken : Type 0 where
  pub id : ℕ
  pub token_hash : String
  pub created_by : ℕ
  pub last_used_at : Option Time

-- A column `scope` is held as the list of the words in it.
-- `redirect_uris` and `client_secret` are the parts of the JSON column `client_info` that the
-- program itself looks at.
pub record ClientInfo : Type 0 where
  pub redirect_uris : List String
  pub client_secret : Option String
  pub client_name : String

pub record OAuthClient : Type 0 where
  pub client_id : String
  pub client_info : ClientInfo
  pub created_at : Time

pub record OAuthPendingAuthorization : Type 0 where
  pub txn : String
  pub client_id : String
  pub redirect_uri : String
  pub redirect_uri_provided_explicitly : Bool
  pub code_challenge : String
  pub scope : List String
  pub state : Option String
  pub resource : Option String
  pub expires_at : Time

pub record OAuthCode : Type 0 where
  pub code_hash : String
  pub client_id : String
  pub user_id : ℕ
  pub redirect_uri : String
  pub redirect_uri_provided_explicitly : Bool
  pub code_challenge : String
  pub scope : List String
  pub resource : Option String
  pub expires_at : Time

pub record OAuthToken : Type 0 where
  pub access_token_hash : String
  pub refresh_token_hash : Option String
  pub client_id : String
  pub user_id : ℕ
  pub scope : List String
  pub resource : Option String
  pub access_expires_at : Time
  pub refresh_expires_at : Option Time
  pub revoked_at : Option Time

pub record UserSession : Type 0 where
  pub id : String
  pub user_id : ℕ
  pub created_at : Time
  pub last_seen_at : Time
  pub revoked_at : Option Time

pub record AppLaunchToken : Type 0 where
  pub token : String
  pub user_id : ℕ
  pub slug : Text
  pub created_at : Time
  pub expires_at : Time
  pub consumed_at : Option Time

pub record AppSession : Type 0 where
  pub id : String
  pub user_id : ℕ
  pub slug : Text
  pub created_at : Time
  pub last_seen_at : Time
  pub revoked_at : Option Time

-- "storage" or "pdf".
pub data ShareKind : Type 0 where
  storage pdf : ShareKind

-- The JSON column `payload`: `{"key": …}` or `{"path": …}`.
pub record Payload : Type 0 where
  pub key : Option Text
  pub path : Option Text

pub record ShareLink : Type 0 where
  pub id : ℕ
  pub token : String
  pub app_id : ℕ
  pub created_by : ℕ
  pub kind : ShareKind
  pub payload : Payload
  pub filename : Text
  pub expires_at : Time
  pub max_views : ℕ
  pub view_count : ℕ
  pub revoked_at : Option Time

pub record UserAppAccess : Type 0 where
  pub user_id : ℕ
  pub app_id : ℕ

pub record ScheduledRun : Type 0 where
  pub id : ℕ
  pub app_slug : Text
  pub tool_name : Text
  pub user_id : ℕ
  pub frequency : String
  pub hour : ℕ
  pub minute : ℕ
  pub day_of_week : ℕ
  pub day_of_month : ℕ
  pub enabled : Bool
  pub next_run_at : Time
  pub last_run_at : Option Time
  pub last_status : String

-- One submission of the login page.
pub record LoginAttempt : Type 0 where
  pub email : Text
  pub success : Bool
  pub reason : String

-- One submission of a public form: the declared fields with their values.
pub record FormSubmission : Type 0 where
  pub app_slug : Text
  pub form_name : Text
  pub values : List (Text × Text)
  pub source_ip : Text

pub record Setting : Type 0 where
  pub key : String
  pub value : Text

-- One entry of the audit log: who did what.
pub record AuditEvent : Type 0 where
  pub actor_user_id : Option ℕ
  pub action : String

-- The database. `next_user_id` is SQLite's AUTOINCREMENT counter of the table `user`: it only grows,
-- so an id is never given to a second account.
pub record Db : Type 0 where
  pub users : List User
  pub next_user_id : ℕ
  pub settings : List Setting
  pub apps : List App
  pub accesses : List UserAppAccess
  pub api_tokens : List ApiToken
  pub oauth_clients : List OAuthClient
  pub pendings : List OAuthPendingAuthorization
  pub codes : List OAuthCode
  pub tokens : List OAuthToken
  pub user_sessions : List UserSession
  pub app_sessions : List AppSession
  pub launch_tokens : List AppLaunchToken
  pub schedules : List ScheduledRun
  pub shares : List ShareLink
  pub login_attempts : List LoginAttempt
  pub submissions : List FormSubmission
  pub audit : List AuditEvent
