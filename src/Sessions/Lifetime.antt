-- ===== src/Sessions/Lifetime.antt =====
-- portal/sessions.py: when a session authenticates, over sequences of operations.
use claude_pwa_portal.Base.{
  ltb, ◌-◌, ℕ, ◌+◌, ◌≤◌, ◌<◌, String, ◌≡◌, ◌≢◌, ◌↔◌, refl, Bool, true, false, Option, none, some,
  arith, ◌==◌, String-Eq, if◌then◌else◌, is_none, inl, inr, ◌⊎◌, Bool-cases, eq_iff,
}
use claude_pwa_portal.Base.Table.{update, first-update, first-append_found}
use claude_pwa_portal.Models.{Time, seconds, UserSession, Db}
use claude_pwa_portal.Sessions.{
  expired, active_session, has_id, find_session, close_session, create_session, revoke_found,
  revoke_session, is_open_of, revoke_all_for_user, get_active_session, touch_session,
  last_seen_refresh,
}

-- A session that still authenticates: open, at most 30 days old, and idle for at most the
-- configured number of seconds.
pub record IsLive (max_age : ℕ) (now : Time) (row : UserSession) : Type 0 where
  pub open_still : row.revoked_at ≡ none
  pub young : now ≤ row.created_at + seconds 2592000
  pub in_use : now ≤ row.last_seen_at + seconds max_age

active_session-IsLive :
    (max_age : ℕ) (now : Time) (found : Option UserSession) (row : UserSession)
    → (active_session max_age now found ≡ some row) ↔ ((found ≡ some row) × IsLive max_age now row)
unfolding active_session expired
active_session-IsLive max_age now none row = (λ h. cc, λ h. cc (h.0))
active_session-IsLive max_age now (some row') row = (λ h. ground arith, λ h. ground arith)

h-given : (sid : String) → sid ≢ "" → (sid == "") ≡ false
h-given sid h = ground (arith, eq_iff sid "")

-- A nonempty cookie names an active session exactly if the row with its id is live.
pub get_active_session-IsLive :
    (max_age : ℕ) (now : Time) (sid : String) (db : Db) (row : UserSession)
    → sid ≢ ""
    → (get_active_session max_age now (some sid) db ≡ some row)
      ↔ ((find_session (some sid) db ≡ some row) × IsLive max_age now row)
unfolding get_active_session
get_active_session-IsLive max_age now sid db row h =
    rw (h-given sid h) (active_session-IsLive max_age now (find_session (some sid) db) row)

-- What the portal does to sessions: a request that a session authenticates, a login, a logout by
-- id, and the revocation of all of a user's sessions.
pub data Step (max_age : ℕ) : Db → Db → Type 0 where
  used :
      {db : Db} (now : Time) (sid : String) (row : UserSession)
      → get_active_session max_age now (some sid) db ≡ some row
      → Step max_age db (touch_session now row db)
  login :
      {db : Db} (sid : String) (now : Time) (user_id : ℕ)
      → Step max_age db (create_session sid now user_id db).1
  logout :
      {db : Db} (now : Time) (sid : String) → Step max_age db (revoke_session now (some sid) db)
  revoke_all :
      {db : Db} (now : Time) (user_id : ℕ) → Step max_age db (revoke_all_for_user now user_id db).1

pub data Reach (max_age : ℕ) (db : Db) : Db → Type 0 where
  here : Reach max_age db db
  next : {db' db'' : Db} → Reach max_age db db' → Step max_age db' db'' → Reach max_age db db''

-- The id names a row that was created at `created` and that is closed if `closed`.
pub record Holds (sid : String) (created : Time) (closed : Bool) (db : Db) : Type 0 where
  pub row : UserSession
  pub found : find_session (some sid) db ≡ some row
  pub made : row.created_at ≡ created
  pub shut : closed ≡ true → is_none row.revoked_at ≡ false

Holds-update :
    (sid : String) (created : Time) (closed : Bool) (db : Db) (p : UserSession → Bool)
    (f : UserSession → UserSession)
    → ((x : UserSession) → (f x).id ≡ x.id)
    → ((x : UserSession) → (f x).created_at ≡ x.created_at)
    → ((x : UserSession) → is_none x.revoked_at ≡ false → is_none (f x).revoked_at ≡ false)
    → Holds sid created closed db
    → Holds sid created closed (record db { user_sessions = update p f db.user_sessions })
unfolding find_session
Holds-update sid created closed db p f ids times shuts h = record {
  row = if p h.row then f h.row else h.row;
  found = rw (first-update (has_id sid) p f (λ x. rw ids refl) db.user_sessions) (rw h.found refl);
  made = ground (arith, times h.row);
  shut = ground (arith, shuts h.row);
}

revoke_found-Holds :
    (sid : String) (created : Time) (closed : Bool) (now : Time) (found : Option UserSession)
    (db : Db)
    → Holds sid created closed db
    → Holds sid created closed (revoke_found now found db)
unfolding revoke_found
revoke_found-Holds sid created closed now none db h = h
revoke_found-Holds sid created closed now (some row) db h =
    elim (Bool-cases (is_none row.revoked_at)) [
      | inl e ↦ rw e (
          Holds-update sid created closed db (has_id row.id) (close_session now) (λ x. refl)
            (λ x. refl) (λ x e. refl) h)
      | inr e ↦ rw e h
    ]

touch_session-Holds :
    (sid : String) (created : Time) (closed : Bool) (now : Time) (row : UserSession) (db : Db)
    → Holds sid created closed db
    → Holds sid created closed (touch_session now row db)
unfolding touch_session
touch_session-Holds sid created closed now row db h =
    elim (Bool-cases (ltb last_seen_refresh (now - row.last_seen_at))) [
      | inl e ↦ rw e (
          Holds-update sid created closed db (has_id row.id) (λ r. record r { last_seen_at = now })
            (λ x. refl) (λ x. refl) (λ x e. e) h)
      | inr e ↦ rw e h
    ]

Step-Holds :
    {max_age : ℕ} (sid : String) (created : Time) (closed : Bool) {db db' : Db}
    → Step max_age db db'
    → Holds sid created closed db
    → Holds sid created closed db'
unfolding find_session create_session revoke_session revoke_all_for_user
Step-Holds sid created closed (used {db = db} now s row e) h =
    touch_session-Holds sid created closed now row db h
Step-Holds sid created closed (login {db = db} s now user_id) h = record {
  row = h.row;
  found = first-append_found (has_id sid) db.user_sessions _ h.found;
  made = h.made;
  shut = h.shut;
}
Step-Holds sid created closed (logout {db = db} now s) h =
    revoke_found-Holds sid created closed now _ db h
Step-Holds sid created closed (revoke_all {db = db} now user_id) h =
    Holds-update sid created closed db (is_open_of user_id) (close_session now) (λ x. refl)
      (λ x. refl) (λ x e. refl) h

Reach-Holds :
    {max_age : ℕ} (sid : String) (created : Time) (closed : Bool) {db db' : Db}
    → Reach max_age db db'
    → Holds sid created closed db
    → Holds sid created closed db'
Reach-Holds sid created closed here h = h
Reach-Holds sid created closed (next r st) h =
    Step-Holds sid created closed st (Reach-Holds sid created closed r h)

Holds-inactive :
    (max_age : ℕ) (now : Time) (sid : String) (created : Time) (closed : Bool) (db : Db)
    → (closed ≡ true) ⊎ (created + seconds 2592000 < now)
    → Holds sid created closed db
    → get_active_session max_age now (some sid) db ≡ none
unfolding get_active_session
Holds-inactive max_age now sid created closed db dead h = elim (Bool-cases (sid == "")) [
  | inl e ↦ rw e refl
  | inr e ↦ rw e (rw h.found (unfold active_session expired in ground arith))
]

module _ (max_age : ℕ) (sid : String) (row : UserSession) {db db' : Db} (r : Reach max_age db db')
    (found : find_session (some sid) db ≡ some row) (now : Time) where
  -- A session that is closed stays closed: no sequence of requests, logins (even one that draws the
  -- same id), logouts and revocations makes its id authenticate again.
  pub closed_forever :
      is_none row.revoked_at ≡ false → get_active_session max_age now (some sid) db' ≡ none
  closed_forever h = Holds-inactive max_age now sid row.created_at true db' (inl refl) (
      Reach-Holds sid row.created_at true r
        (record { row = row; found = found; made = refl; shut = λ _. h }))

  -- Whatever is done with a session, it does not authenticate more than 30 days after its creation,
  -- however often it was used.
  pub expired_forever :
      row.created_at + seconds 2592000 < now → get_active_session max_age now (some sid) db' ≡ none
  expired_forever h = Holds-inactive max_age now sid row.created_at false db' (inr h) (
      Reach-Holds sid row.created_at false r
        (record { row = row; found = found; made = refl; shut = λ e. cc }))
