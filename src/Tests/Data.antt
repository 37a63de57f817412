-- ===== src/Tests/Data.antt =====
-- A small portal on which the theorems are applied: an administrator, a user, one app, and one row of
-- each kind of credential.
use claude_pwa_portal.Base.{
  String, Text, Text-Eq, codes, true, false, Option, none, some, List, [], ◌∷◌, ◌==◌, if◌then◌else◌,
}
use claude_pwa_portal.Models.{
  admin, user, User, App, OAuthPendingAuthorization, OAuthToken, UserSession, AppLaunchToken,
  AppSession, storage, ShareLink, Db,
}
use claude_pwa_portal.Auth.{Credentials}
use claude_pwa_portal.Security.{UrlParts}
use claude_pwa_portal.OAuth.Tokens.{AuthorizationCode, RefreshToken}

abbrev pub ada : User
ada = record { id = 1; email = "ada@x"; password_hash = "p1"; role = admin }

abbrev pub bob : User
bob = record { id = 2; email = "bob@x"; password_hash = "p2"; role = user }

abbrev pub notes : Text
notes = codes "notes"

abbrev pub notes_app : App
notes_app = record {
  id = 1;
  slug = notes;
  name = notes;
  version = codes "1";
  icon = none;
  entry = codes "index.html";
  services = "storage" ∷ [];
  allowed_services = "storage" ∷ [];
  csp_strict = false;
  requested_origins = [];
  allowed_origins = [];
  revoked_origins = [];
  revoked_services = [];
  services_ungated = false;
  tools = [];
  forms = [];
  enabled = true;
  display_order = 10;
  uploaded_by = some 1;
}

-- A digest of the few texts that occur here.
abbrev pub hash : Text → String
hash raw =
    if raw == codes "r1"
    then "h1"
    else if raw == codes "r2"
    then "h2"
    else if raw == codes "a1"
    then "g1"
    else "h0"

abbrev pub portal_session : UserSession
portal_session = record {
  id = "s2";
  user_id = 2;
  created_at = 0;
  last_seen_at = 0;
  revoked_at = none;
}

abbrev pub closed_session : UserSession
closed_session = record {
  id = "s3";
  user_id = 1;
  created_at = 0;
  last_seen_at = 0;
  revoked_at = some 4;
}

abbrev pub child_session : AppSession
child_session = record {
  id = "c2";
  user_id = 2;
  slug = notes;
  created_at = 0;
  last_seen_at = 0;
  revoked_at = none;
}

abbrev pub launch : AppLaunchToken
launch = record {
  token = "lt";
  user_id = 2;
  slug = notes;
  created_at = 0;
  expires_at = 30;
  consumed_at = none;
}

abbrev pub parked : OAuthPendingAuthorization
parked = record {
  txn = "t";
  client_id = "c";
  redirect_uri = "https://c/back";
  redirect_uri_provided_explicitly = true;
  code_challenge = "x";
  scope = "mcp" ∷ [];
  state = none;
  resource = none;
  expires_at = 600;
}

abbrev pub grant : OAuthToken
grant = record {
  access_token_hash = "g1";
  refresh_token_hash = some "h1";
  client_id = "c";
  user_id = 1;
  scope = "mcp" ∷ [];
  resource = none;
  access_expires_at = 9000;
  refresh_expires_at = some 90000;
  revoked_at = none;
}

abbrev pub link : ShareLink
link = record {
  id = 1;
  token = "k1";
  app_id = 1;
  created_by = 2;
  kind = storage;
  payload = record { key = some (codes "a"); path = none };
  filename = codes "a";
  expires_at = 100;
  max_views = 2;
  view_count = 1;
  revoked_at = none;
}

abbrev pub portal : Db
portal = record {
  users = ada ∷ bob ∷ [];
  next_user_id = 3;
  settings = [];
  apps = notes_app ∷ [];
  accesses = record { user_id = 2; app_id = 1 } ∷ [];
  api_tokens = record { id = 1; token_hash = "h1"; created_by = 2; last_used_at = none } ∷ [];
  oauth_clients = [];
  pendings = parked ∷ [];
  codes =
      record {
        code_hash = "h2";
        client_id = "c";
        user_id = 1;
        redirect_uri = "https://c/back";
        redirect_uri_provided_explicitly = true;
        code_challenge = "x";
        scope = "mcp" ∷ [];
        resource = none;
        expires_at = 60;
      }
      ∷ [];
  tokens = grant ∷ [];
  user_sessions = portal_session ∷ closed_session ∷ [];
  app_sessions = child_session ∷ [];
  launch_tokens = launch ∷ [];
  schedules = [];
  shares = link ∷ [];
  login_attempts = [];
  submissions = [];
  audit = [];
}

-- A request to the host of the app, with the cookie of the app's session.
abbrev pub child_request : Credentials
child_request = record {
  app_slug = some notes;
  app_cookie = some "c2";
  session_id = none;
  authorization = none;
}

-- A request with a bearer token.
abbrev pub bearer_request : Credentials
bearer_request = record {
  app_slug = none;
  app_cookie = none;
  session_id = none;
  authorization = some (codes "Bearer r1");
}

abbrev pub split_https : String → Option UrlParts
split_https uri = some (record {
  scheme = codes "https";
  hostname = some (codes "c");
  fragment = [];
  username = none;
  password = none;
})

abbrev pub construct : String → List (String × String) → String
construct uri params = uri

abbrev pub read_code : AuthorizationCode
read_code = record {
  code = codes "r2";
  scopes = "mcp" ∷ [];
  expires_at = 60;
  client_id = "c";
  code_challenge = "x";
  redirect_uri = "https://c/back";
  redirect_uri_provided_explicitly = true;
  resource = none;
}

abbrev pub read_refresh : RefreshToken
read_refresh = record {
  token = codes "r1";
  client_id = "c";
  scopes = "mcp" ∷ [];
  expires_at = none;
}
