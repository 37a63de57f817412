-- ===== src/OAuth/Pending.antt =====
-- portal/oauth.py, `authorize`: an anonymous request is parked until an administrator consents. Each
-- client, and the table as a whole, holds a bounded number of parked requests: at the bound the
-- oldest go. `ORDER BY` is a stable sort here; SQL leaves the order of equal times open. `base` is
-- `issuer_url().rstrip('/')`, and `txn` what `_gen` draws. Lengths count characters.
pub mod Bounds
use Prim.Native.String.{count as str_length, ◌++◌ as ◌<>◌}
use claude_pwa_portal.Base.{
  ℕ, zero, suc, ◌+◌, ◌-◌, ◌*◌, String, Bool, true, false, not, ◌&&◌, ◌||◌, Option, none, some,
  Result, ok, err, ltb, leb, ◌==◌, String-Eq, if◌then◌else◌, List, [], ◌∷◌, map, contains,
}
use claude_pwa_portal.Base.Table.{select, delete, count, insert}
use claude_pwa_portal.Models.{Time, seconds, OAuthPendingAuthorization, Db}
use claude_pwa_portal.OAuth.Tokens.{or_scope}

abbrev pub Pending : Type 0
Pending = OAuthPendingAuthorization

-- `PENDING_TTL`, `_MAX_STATE_LEN`, `_MAX_RESOURCE_LEN`, `_MAX_PENDING_PER_CLIENT`, `_MAX_LIVE_PENDING`
abbrev pub pending_ttl : Time
pending_ttl = seconds (15 * 60)

abbrev pub max_state_len : ℕ
max_state_len = 512

abbrev pub max_resource_len : ℕ
max_resource_len = 512

abbrev pub max_pending_per_client : ℕ
max_pending_per_client = 10

abbrev pub max_live_pending : ℕ
max_live_pending = 500

-- `AuthorizationParams` of the SDK.
pub record AuthorizationParams : Type 0 where
  pub state : Option String
  pub scopes : List String
  pub code_challenge : String
  pub redirect_uri : String
  pub redirect_uri_provided_explicitly : Bool
  pub resource : Option String

-- `AuthorizeError("invalid_request", …)`
pub data AuthorizeError : Type 0 where
  invalid_request : AuthorizeError

-- `len(value or "")`
abbrev optional_length : Option String → ℕ
optional_length none = 0
optional_length (some s) = str_length s

unfoldable pub in_range : AuthorizationParams → Bool
in_range params =
    leb 43 (str_length params.code_challenge)
    && leb (str_length params.code_challenge) 128
    && leb (optional_length params.state) max_state_len
    && leb (optional_length params.resource) max_resource_len

-- `ORDER BY expires_at`
insert_by_expiry : Pending → List Pending → List Pending
insert_by_expiry row [] = row ∷ []
insert_by_expiry row (x ∷ xs) =
    if leb row.expires_at x.expires_at then row ∷ x ∷ xs else x ∷ insert_by_expiry row xs

order_by_expiry : List Pending → List Pending
unfolding insert_by_expiry
order_by_expiry [] = []
order_by_expiry (x ∷ xs) = insert_by_expiry x (order_by_expiry xs)

-- `LIMIT n`
limit : ℕ → List Pending → List Pending
limit zero xs = []
limit (suc n) [] = []
limit (suc n) (x ∷ xs) = x ∷ limit n xs

-- The `txn` of the `n` oldest rows among those of the filter.
oldest : (Pending → Bool) → ℕ → List Pending → List String
unfolding order_by_expiry limit
oldest p n rows = map (λ row. row.txn) (limit n (order_by_expiry (select p rows)))

-- One round of the loop: room for one more row under the cap.
make_room : (Pending → Bool) → ℕ → List Pending → List Pending
unfolding oldest
make_room p cap rows =
    let live = count p rows in
    if leb cap live
    then delete (λ row. contains (oldest p (live - cap + 1) rows) row.txn) rows
    else rows

abbrev pub of_client : String → Pending → Bool
of_client client_id row = row.client_id == client_id

abbrev pub every : Pending → Bool
every row = true

park : Time → String → String → AuthorizationParams → List Pending → List Pending
unfolding make_room
park now txn client_id params rows =
    let fresh = delete (λ row. ltb row.expires_at now) rows in
    let mine = make_room (of_client client_id) max_pending_per_client fresh in
    let room = make_room every max_live_pending mine in
    let row : Pending = record {
      txn = txn;
      client_id = client_id;
      redirect_uri = params.redirect_uri;
      redirect_uri_provided_explicitly = params.redirect_uri_provided_explicitly;
      code_challenge = params.code_challenge;
      scope = or_scope params.scopes;
      state = params.state;
      resource = params.resource;
      expires_at = now + pending_ttl;
    } in
    insert row room

-- The result is the address of the consent page.
unfoldable pub authorize :
    Time → String → String → String → AuthorizationParams → Db → Result AuthorizeError String × Db
unfolding park in_range
authorize now base txn client_id params db =
    if not (in_range params) then (err invalid_request, db) else (
      ok (base <> ("/oauth/consent?txn=" <> txn)),
      record db { pendings = park now txn client_id params db.pendings },
    )
