-- ===== src/Auth/History.antt =====
-- The calls of AuthController that change rows, and their histories.
use itc_sharing_backend.Base.{String, Option, List, [], ◌∷◌, Orm, after}
use itc_sharing_backend.Auth.Types.{Auth, Platform, Draw}
use itc_sharing_backend.Auth.Sessions.{refresh, logout}
use itc_sharing_backend.Auth.Codes.{
  check_reset_code, verify_email_code, resend_verification, forgot_password, reset_password,
}
use itc_sharing_backend.Auth.Accounts.{
  RegisterDto, GoogleAnswer, register, login, complete_google_login,
}
use itc_sharing_backend.Auth.Entry.{Sound, IsFresh, login-Sound, register-Sound, google-Sound}
use itc_sharing_backend.Auth.Upkeep.{
  resend-Sound, forgot-Sound, check-Sound, verify-Sound, reset-Sound, refresh-Sound, logout-Sound,
}

pub data Call : Type 0 where
  registers : RegisterDto → Call
  logs_in : String → String → Call
  enters_by_google : GoogleAnswer → Call
  refreshes logs_out : Option String → Call
  resends forgets : String → Call
  verifies checks : String → String → Call
  resets : String → String → String → Call

module _ (db : Orm) (p : Platform) where
  unfoldable pub step : Draw → Call → Auth → Auth
  step draw (registers dto) s = after (register db p draw dto s)
  step draw (logs_in email password) s = after (login db p draw email password s)
  step draw (enters_by_google answer) s = after (complete_google_login db p draw answer s)
  step draw (refreshes raw) s = after (refresh db p draw raw s)
  step draw (logs_out raw) s = after (logout db p raw s)
  step draw (resends email) s = after (resend_verification db p draw email s)
  step draw (forgets email) s = after (forgot_password db p draw email s)
  step draw (verifies email code) s = after (verify_email_code db p draw email code s)
  step draw (checks email code) s = after (check_reset_code db p draw email code s)
  step draw (resets email code password) s = after (reset_password db p draw email code password s)

  unfoldable pub run : List (Draw × Call) → Auth → Auth
  run [] s = s
  run ((draw, c) ∷ cs) s = run cs (step draw c s)

module _ (db : Orm) (p : Platform) (draw : Draw) (s : Auth) (h : Sound p s)
    (fresh : IsFresh draw s) where
  pub step-Sound : (c : Call) → Sound p (step db p draw c s)
  unfolding step
  step-Sound (registers dto) = register-Sound db p draw s h fresh dto
  step-Sound (logs_in email password) = login-Sound db p draw s h fresh email password
  step-Sound (enters_by_google a) = google-Sound db p draw s h fresh a
  step-Sound (refreshes raw) = refresh-Sound db p draw s h fresh raw
  step-Sound (logs_out raw) = logout-Sound db p draw s h fresh raw
  step-Sound (resends email) = resend-Sound db p draw s h fresh email
  step-Sound (forgets email) = forgot-Sound db p draw s h fresh email
  step-Sound (verifies email code) = verify-Sound db p draw s h fresh email code
  step-Sound (checks email code) = check-Sound db p draw s h fresh email code
  step-Sound (resets email code password) = reset-Sound db p draw s h fresh email code password

module _ (db : Orm) (p : Platform) where
  -- What each call drew is new where it is used.
  abbrev pub AllFresh : List (Draw × Call) → Auth → Type 0
  AllFresh [] s = Unit
  AllFresh ((draw, c) ∷ cs) s = IsFresh draw s × AllFresh cs (step db p draw c s)

  -- After any history of the calls of AuthController, each with identifiers that were new when it
  -- ran, an account has one live code of a purpose at most, no code has more than five counted
  -- attempts, code identifiers are unique, each refresh token verifies only for the user of its
  -- row, and the tokens of a family are all of one user, if this held at the start.
  pub run-Sound :
      (cs : List (Draw × Call)) (s : Auth) → AllFresh cs s → Sound p s → Sound p (run db p cs s)
  unfolding run
  run-Sound [] s f h = h
  run-Sound ((draw, c) ∷ cs) s f h = run-Sound cs _ f.1 (step-Sound db p draw s h f.0 c)
