-- ===== src/Telegram/Linking.antt =====
-- TelegramService: createLinkToken, redeem, unlink, notifyUser with forgetIfUnreachable, and status.
use Prim.Native.Char.{code}
use itc_sharing_backend.Base.{
  ℕ, ◌+◌, ◌*◌, Bool, true, false, not, ◌&&◌, ◌||◌, String, Option, none, some, List, [], ◌∷◌, ◌==◌,
  ltb, leb, any, if◌then◌else◌, same_text, M, pure, get, modify, guard, service_unavailable, Orm,
  ◌>>=◌, ◌>>◌, after,
}
use itc_sharing_backend.Documents.Audience.{is_set, same_id}
use itc_sharing_backend.Storage.Refs.{is_alphanumeric}

pub record LinkToken : Type 0 where
  pub user_id : ℕ
  pub token_hash : String
  pub expires_at : ℕ
  pub used_at : Option ℕ

-- The columns of `users` that the service reads and writes. Chats are numbered.
pub record Contact : Type 0 where
  pub id : ℕ
  pub telegram_chat_id : Option ℕ
  pub telegram_linked_at : Option ℕ

pub record Telegram : Type 0 where
  pub users : List Contact
  pub tokens : List LinkToken

pub data LinkResult : Type 0 where
  linked already_elsewhere invalid : LinkResult

abbrev pub put_contacts : List Contact → Telegram → Telegram
put_contacts us s = record s { users = us }

abbrev pub put_tokens : List LinkToken → Telegram → Telegram
put_tokens ts s = record s { tokens = ts }

-- TOKEN_TTL_MS
abbrev pub token_ttl_ms : ℕ
token_ttl_ms = 10 * 60 * 1000

-- A character of TOKEN_SHAPE.
abbrev is_token_char : ℕ → Bool
is_token_char n = is_alphanumeric n || (leb b'A' n && leb n b'Z') || n == b'_' || n == b'-'

unfoldable pub are_token_chars : String → Bool
are_token_chars String.[] = true
are_token_chars (String.◌∷◌ c s) = is_token_char (code c) && are_token_chars s

unfoldable pub size : String → ℕ
size String.[] = 0
size (String.◌∷◌ c s) = 1 + size s

unfoldable pub has_token_shape : String → Bool
has_token_shape raw = are_token_chars raw && (leb 16 (size raw) && leb (size raw) 128)

abbrev pub outstanding : ℕ → LinkToken → Bool
outstanding user_id t = t.user_id == user_id && not (is_set t.used_at)

-- A token that can be redeemed: the condition of the update of `redeem`.
abbrev pub is_live : String → ℕ → LinkToken → Bool
is_live hash now t = same_text t.token_hash hash && (not (is_set t.used_at) && ltb now t.expires_at)

abbrev pub spend : ℕ → LinkToken → LinkToken
spend now t = record t { used_at = some now }

abbrev pub has_chat : ℕ → Contact → Bool
has_chat chat_id u = same_id u.telegram_chat_id chat_id

abbrev pub connect : ℕ → ℕ → Contact → Contact
connect now chat_id u = record u { telegram_chat_id = some chat_id; telegram_linked_at = some now }

abbrev pub disconnect : Contact → Contact
disconnect u = record u { telegram_chat_id = none; telegram_linked_at = none }

module _ (db : Orm) (sha256 : String → String) where
  -- `raw` is what was drawn; the row needs its user, and a hash that no row has.
  unfoldable pub create_link_token : Bool → ℕ → ℕ → String → M Telegram String
  create_link_token is_configured now user_id raw = do
    guard is_configured (service_unavailable "Telegram notifications are not available right now")
    modify (λ d. put_tokens (db.update (outstanding user_id) (spend now) d.tokens) d)
    s ← get
    guard
        (any (λ (u : Contact). u.id == user_id) s.users
          && not (any (λ (t : LinkToken). same_text t.token_hash (sha256 raw)) s.tokens))
        (service_unavailable "Could not start Telegram linking. Please try again.")
    modify (λ d.
        put_tokens
          (record {
            user_id = user_id;
            token_hash = sha256 raw;
            expires_at = now + token_ttl_ms;
            used_at = none;
          }
            ∷ d.tokens)
          d)
    pure raw

  -- The link of the user whose token was spent, under the unique index of chats.
  abbrev pub link_user : ℕ → ℕ → List LinkToken → M Telegram LinkResult
  link_user now chat_id [] = pure invalid
  link_user now chat_id (t ∷ ts) = do
    s ← get
    modify (λ d.
        if any (λ (u : Contact). has_chat chat_id u && not (u.id == t.user_id)) d.users
        then d
        else put_contacts
            (db.update (λ (u : Contact). u.id == t.user_id) (connect now chat_id) d.users) d)
    pure (
        if any (λ (u : Contact). has_chat chat_id u && not (u.id == t.user_id)) s.users
        then already_elsewhere
        else linked)

  abbrev pub redeem_shaped : Bool → ℕ → String → ℕ → M Telegram LinkResult
  redeem_shaped false now raw chat_id = pure invalid
  redeem_shaped true now raw chat_id = do
    s ← get
    let spent = db.find (is_live (sha256 raw) now) s.tokens
    modify (λ d. put_tokens (db.update (is_live (sha256 raw) now) (spend now) d.tokens) d)
    link_user now chat_id spent

  unfoldable pub redeem : ℕ → String → ℕ → M Telegram LinkResult
  redeem now raw chat_id = redeem_shaped (has_token_shape raw) now raw chat_id

  unfoldable pub unlink : ℕ → ℕ → M Telegram (Unit {0})
  unlink now user_id = do
    modify (λ d. put_contacts (db.update (λ (u : Contact). u.id == user_id) disconnect d.users) d)
    modify (λ d. put_tokens (db.update (outstanding user_id) (spend now) d.tokens) d)

  -- `sent` and `reachable` are the answers of the messenger.
  abbrev pub deliver : Bool → Bool → Option ℕ → M Telegram Bool
  deliver sent reachable none = pure false
  deliver sent reachable (some chat_id) = do
    modify (λ d.
        if sent || reachable
        then d
        else put_contacts (db.update (has_chat chat_id) disconnect d.users) d)
    pure sent

  abbrev chat_of : Option Contact → Option ℕ
  chat_of none = none
  chat_of (some u) = u.telegram_chat_id

  unfoldable pub notify_user : Bool → ℕ → Bool → Bool → M Telegram Bool
  notify_user is_configured user_id sent reachable = do
    s ← get
    deliver sent reachable (
        if is_configured
        then chat_of (db.find_one (λ (u : Contact). u.id == user_id) s.users)
        else none)

-- The calls; `start` is a message of the chat with the secret of a link.
pub data LinkCall : Type 0 where
  create : (is_configured : Bool) (now user_id : ℕ) (raw : String) → LinkCall
  start : (now : ℕ) (raw : String) (chat_id : ℕ) → LinkCall
  leave : (now user_id : ℕ) → LinkCall
  notify : (is_configured : Bool) (user_id : ℕ) (sent reachable : Bool) → LinkCall

module _ (db : Orm) (sha256 : String → String) where
  unfoldable pub link_step : LinkCall → Telegram → Telegram
  link_step (create c now u raw) s = after (create_link_token db sha256 c now u raw s)
  link_step (start now raw chat) s = after (redeem db sha256 now raw chat s)
  link_step (leave now u) s = after (unlink db sha256 now u s)
  link_step (notify c u sent reachable) s = after (notify_user db sha256 c u sent reachable s)

  unfoldable pub link_run : List LinkCall → Telegram → Telegram
  link_run [] s = s
  link_run (c ∷ cs) s = link_run cs (link_step c s)
