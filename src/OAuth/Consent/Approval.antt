-- ===== src/OAuth/Consent/Approval.antt =====
-- Who can turn a parked request into an authorization code, and into how many.
use claude_pwa_portal.Base.{
  ap, sym, ◌≤◌, String, Text, ◌≡◌, ◌⊎◌, inl, inr, refl, Bool, true, not, ◌&&◌, Option, none, some,
  List, arith, ltb, ◌==◌, String-Eq, Bool-cases, eq_iff,
}
use claude_pwa_portal.Base.Table.{first, delete, insert, first-delete, first_sound}
use claude_pwa_portal.Models.{Time, User, OAuthPendingAuthorization, Db}
use claude_pwa_portal.Auth.{is_admin}
use claude_pwa_portal.Security.{UrlParts, check_csrf, is_allowed_redirect_uri}
use claude_pwa_portal.Security.Csrf.{IsToken, check_csrf-IsToken}
use claude_pwa_portal.OAuth.Consent.{Response, has_txn, mint, answer, consent_submit}

module _ (urlsplit : String → Option UrlParts)
    (construct_redirect_uri : String → List (String × String) → String) (hash : Text → String)
    (now : Time) (raw_code : String) where
  -- The conditions of a parked request that an administrator's approval turns into the code that is
  -- stored.
  pub record Approved (me : User) (txn decision : String) (db db' : Db) : Type 0 where
    pub pending : OAuthPendingAuthorization
    pub found : first (has_txn txn) db.pendings ≡ some pending
    pub in_time : now ≤ pending.expires_at
    pub by_admin : is_admin me ≡ true
    pub safe : is_allowed_redirect_uri urlsplit pending.redirect_uri ≡ true
    pub approved : decision ≡ "approve"
    pub minted : db'.codes ≡ insert (mint hash now raw_code me pending) db.codes
    pub dropped : db'.pendings ≡ delete (has_txn pending.txn) db.pendings

  approves : User → OAuthPendingAuthorization → String → Bool
  approves me pending decision =
      not (ltb pending.expires_at now)
      && is_admin me
      && is_allowed_redirect_uri urlsplit pending.redirect_uri
      && decision == "approve"

  answer-Approved :
      (me : User) (txn decision : String) (found : Option OAuthPendingAuthorization) (db : Db)
      {r : Response} {db' : Db}
      → first (has_txn txn) db.pendings ≡ found
      → answer urlsplit construct_redirect_uri hash now raw_code me decision found db ≡ (r, db')
      → (db'.codes ≡ db.codes) ⊎ Approved me txn decision db db'
  unfolding answer mint
  answer-Approved me txn decision none db f e = inl (ap (λ (x : Response × Db). x.1.codes) (sym e))
  answer-Approved me txn decision (some pending) db {r} {db'} f e =
      elim (Bool-cases (approves me pending decision)) [
        | inl good ↦ inr (record {
          pending = pending;
          found = f;
          in_time = unfold approves in ground arith;
          by_admin = unfold approves in ground arith;
          safe = unfold approves in ground arith;
          approved = unfold approves in ground (arith, eq_iff decision "approve");
          minted = unfold approves in ground arith;
          dropped = unfold approves in ground arith;
        })
        | inr bad ↦ inl (unfold approves in ground arith)
      ]

  -- An authorization code is stored only when an administrator is signed in and, on the portal's own
  -- origin and with the CSRF token that the session holds, which is not empty, approves a parked
  -- request that has not expired and whose redirect address is allowed; then it is one code, bound to
  -- that request and administrator, and the request is gone. Otherwise, also where nobody is signed
  -- in, the table of codes is as it was.
  pub consent_submit-Approved :
      (app_slug : Option Text) (user : Option User) (expected : Option String)
      (txn decision csrf : String) (db : Db) {r : Response} {db' : Db}
      → consent_submit urlsplit construct_redirect_uri hash now raw_code app_slug user expected txn
          decision csrf db
        ≡ (r, db')
      → (db'.codes ≡ db.codes)
        ⊎ ((me : User) × (user ≡ some me)
            × (app_slug ≡ none)
            × IsToken expected csrf
            × Approved me txn decision db db')
  unfolding consent_submit
  consent_submit-Approved (some slug) none expected txn decision csrf db e =
      inl (ap (λ (x : Response × Db). x.1.codes) (sym e))
  consent_submit-Approved none none expected txn decision csrf db e =
      inl (ap (λ (x : Response × Db). x.1.codes) (sym e))
  consent_submit-Approved (some slug) (some me) expected txn decision csrf db e =
      inl (ap (λ (x : Response × Db). x.1.codes) (sym e))
  consent_submit-Approved none (some me) expected txn decision csrf db {r} {db'} e =
      elim (Bool-cases (check_csrf expected csrf)) [
        | inr bad ↦
            inl (ap (λ (x : Response × Db). x.1.codes) (sym (rw (bad, consent_submit) at e)))
        | inl good ↦
            elim (answer-Approved me txn decision (first (has_txn txn) db.pendings) db refl
              (rw (good, consent_submit) at e)) [
                | inl same ↦ inl same
                | inr a ↦ inr (me, refl, refl, check_csrf-IsToken expected csrf good, a)
              ]
      ]

module _ (urlsplit : String → Option UrlParts)
    (construct_redirect_uri : String → List (String × String) → String) (hash : Text → String) where
  answer_gone :
      (now : Time) (raw_code : String) (me : User) (decision : String)
      (found : Option OAuthPendingAuthorization) (db : Db)
      → found ≡ none
      → (answer urlsplit construct_redirect_uri hash now raw_code me decision found db).1 ≡ db
  unfolding answer
  answer_gone now raw_code me decision none db e = refl
  answer_gone now raw_code me decision (some p) db e = absurd (cc)

  consent_gone :
      (now : Time) (raw_code : String) (app_slug : Option Text) (user : Option User)
      (expected : Option String) (txn decision csrf : String) (db : Db)
      → first (has_txn txn) db.pendings ≡ none
      → (consent_submit urlsplit construct_redirect_uri hash now raw_code app_slug user expected txn
          decision csrf db).1
        ≡ db
  unfolding consent_submit
  consent_gone now raw_code app_slug none expected txn decision csrf db e = ground arith
  consent_gone now raw_code app_slug (some me) expected txn decision csrf db e =
      ground (arith, answer_gone now raw_code me decision (first (has_txn txn) db.pendings) db)

  -- A parked request that was approved is spent: every later answer to it, by anyone, changes nothing.
  pub consent_once :
      (now later : Time) (raw_code raw_code' : String) (me : User) (txn decision : String)
      (db db' : Db)
      → Approved urlsplit construct_redirect_uri hash now raw_code me txn decision db db'
      → (app_slug : Option Text) (user : Option User) (expected : Option String)
        (decision' csrf : String)
      → (consent_submit urlsplit construct_redirect_uri hash later raw_code' app_slug user expected
          txn decision' csrf db').1
        ≡ db'
  consent_once now later raw_code raw_code' me txn decision db db' a app_slug user expected
        decision' csrf =
      consent_gone later raw_code' app_slug user expected txn decision' csrf db' (
        rw a.dropped (
          first-delete (has_txn txn) (has_txn a.pending.txn)
            (λ x h. ground (
              arith,
              eq_iff x.txn txn,
              eq_iff a.pending.txn txn,
              eq_iff x.txn a.pending.txn,
              first_sound (has_txn txn) db.pendings {x = a.pending} a.found,
            ))
            db.pendings))
