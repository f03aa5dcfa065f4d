-- ===== src/Auth/Tests.antt =====
-- A platform to run on, tests of the flows, and the theorems at inputs that meet their hypotheses.
use Prim.Native.Char.{code}
use text.Mathlib.TextPositions.{eq_refl}
use itc_sharing_backend.Base.{
  ℕ, zero, suc, ◌≡◌, refl, sym, ap, ◌∙◌, true, String, Option, none, some, List, [], ◌∷◌, ◌==◌,
  arith, count, done, fail, after, if◌then◌else◌, here, same_text, ◌>>=◌, ◌>>◌, pure, get, modify,
  guard, expect, bad_request, unauthorized, trim, Holds, ◌+◌, ◌≤◌, count-le-length, false, is_space,
  trim_start, trim_end,
}
use itc_sharing_backend.Samples.{list_orm}
use itc_sharing_backend.Auth.Sessions.{
  refresh_claim, refresh, logout, reuse_grace_ms, revoked, has_hash, refresh_lookup, settle_claim,
  refresh_finish, create_refresh_token, insert_refresh,
}
use itc_sharing_backend.Auth.Codes.{
  find_by_email, check_code, redeem_code, reset_password, forgot_password, never, spend_row,
  is_live,
}
use itc_sharing_backend.Auth.Live.{Codes}
use itc_sharing_backend.Auth.Entry.{Sound}
use itc_sharing_backend.Auth.Replay.{refresh_claim_race, IsReplayed, refresh_replay}
use itc_sharing_backend.Auth.Logout.{IsRefused, refresh-after-logout}
use itc_sharing_backend.Auth.Redeem.{redeem_code-Holds, IsRedeemed}
use itc_sharing_backend.Auth.Flows.{reset_password-Holds, HasReset, answer, forgot_password_uniform}
use itc_sharing_backend.Auth.Guessing.{IsAsked, guesses, guesses-lock}
use itc_sharing_backend.Auth.History.{Call, run, AllFresh, step, run-Sound}
use itc_sharing_backend.Auth.Accounts.{RegisterDto, login, register, bad_login}
use itc_sharing_backend.Auth.SignIn.{IsSignedIn, login-Holds}
use itc_sharing_backend.Auth.Typed.{login-register}
use itc_sharing_backend.Auth.Types.{
  Auth, User, EmailToken, RefreshToken, Purpose, reset, Platform, Draw, is_banned,
}

abbrev tally : ℕ → String → String
tally zero t = t
tally (suc n) t = String.◌∷◌ "a" (tally n t)

abbrev read : String → ℕ
read String.[] = 0
read (String.◌∷◌ c t) = let rest = read t in if code c == 97 then suc rest else 0

read-tally : (n : ℕ) (t : String) → read (tally n (String.◌∷◌ "." t)) ≡ n
read-tally zero t = refl
read-tally (suc n) t = ap suc (read-tally n t)

abbrev sign : ℕ → ℕ → ℕ → String
sign sub jti at = tally sub (String.◌∷◌ "." (tally jti ""))

sign-verify :
    (sub jti at now : ℕ) (raw : String) (u : ℕ)
    → raw ≡ sign sub jti at
    → some (read raw) ≡ some u
    → u ≡ sub
sign-verify sub jti at now raw u h e =
    let back : read raw ≡ sub = ap read h ∙ read-tally sub (tally jti "") in
    let same : read raw ≡ u = cc in sym same ∙ back

abbrev platform : Platform
platform = record {
  to_lower = λ w. w;
  sql_lower = λ w. w;
  bcrypt_hash = λ salt w. w;
  bcrypt_compare = same_text;
  bcrypt_compare_hash = λ salt w. eq_refl w;
  sha256 = λ w. w;
  sign_access = λ sub email at. email;
  sign_refresh = sign;
  verify_refresh = λ now raw. some (read raw);
  verify_of_sign = sign-verify;
  refresh_ttl_ms = 604800000;
  reuse_grace_seconds = some 10;
}

abbrev draw_at : ℕ → ℕ → Draw
draw_at now n = record {
  now = now;
  salt = n;
  code = 42;
  row_id = 100 + n;
  jti = n;
  session_id = 200 + n;
  family = 300 + n;
}

abbrev ann : Option ℕ → User
ann verified_at = record {
  id = 1;
  first_name = "Ann";
  last_name = "Sok";
  email = "ann@itc.edu.kh";
  password_hash = some "old secret";
  google_id = none;
  email_verified_at = verified_at;
}

abbrev mailed : Purpose → ℕ → EmailToken
mailed purpose attempts = record {
  id = 5;
  user_id = 1;
  purpose = purpose;
  token_hash = "000042";
  attempts = attempts;
  expires_at = 180000;
  consumed_at = none;
}

abbrev session : Option ℕ → RefreshToken
session consumed_at = record {
  id = 7;
  user_id = 1;
  token_hash = sign 1 3 50;
  family_id = 9;
  consumed_at = consumed_at;
  expires_at = 604800050;
}

abbrev state : Option ℕ → List EmailToken → List RefreshToken → Auth
state verified_at codes sessions = record {
  users = ann verified_at ∷ [];
  bans = [];
  email_tokens = codes;
  refresh_tokens = sessions;
  mails = [];
}

unique_session :
    (at : Option ℕ) (x : ℕ) → count (λ (r : RefreshToken). r.id == x) (session at ∷ []) ≤ 1
unique_session at x = ground arith

refresh_claim_race_example :
    (refresh_claim list_orm platform 60 7 (state (some 1) [] (session none ∷ []))
      ≡ done true (state (some 1) [] (session (some 60) ∷ [])))
    × (refresh_claim list_orm platform 61 7 (state (some 1) [] (session (some 60) ∷ []))
        ≡ done false (state (some 1) [] (session (some 60) ∷ [])))
refresh_claim_race_example =
    refresh_claim_race list_orm platform (state (some 1) [] (session none ∷ [])) 7 60 61 refl

replayed :
    IsReplayed list_orm platform
      (draw_at 20000 1)
      (state (some 1) [] (session (some 60) ∷ []))
      (sign 1 3 50)
      60
      (session (some 60))
unfolding reuse_grace_ms
replayed = record {
  there = refl;
  sub = 1;
  valid = refl;
  found = refl;
  consumed = refl;
  late = omega arith;
  unique = unique_session (some 60) 7;
}

refresh_replay_example :
    refresh list_orm platform
      (draw_at 20000 1)
      (some (sign 1 3 50))
      (state (some 1) [] (session (some 60) ∷ []))
    ≡ fail (unauthorized revoked) (state (some 1) [] [])
refresh_replay_example =
    refresh_replay list_orm platform (draw_at 20000 1) (state (some 1) [] (session (some 60) ∷ []))
      replayed

refresh-after-logout_example :
    IsRefused
      (after
        (logout list_orm platform (some (sign 1 3 50)) (state (some 1) [] (session none ∷ []))))
      (refresh list_orm platform (draw_at 70 1) (some (sign 1 3 50)) (
        after
          (logout list_orm platform (some (sign 1 3 50)) (state (some 1) [] (session none ∷ [])))))
refresh-after-logout_example =
    refresh-after-logout list_orm platform (state (some 1) [] (session none ∷ [])) (draw_at 70 1)
      (some (sign 1 3 50)) (λ raw h. count-le-length (has_hash raw) (session none ∷ []))

Codes-of : (purpose : Purpose) (n : ℕ) → n ≤ 5 → Codes (mailed purpose n ∷ [])
Codes-of purpose n below = record {
  unique = λ x. count-le-length (λ (r : EmailToken). r.id == x) (mailed purpose n ∷ []);
  single = λ u q. count-le-length (is_live u q) (mailed purpose n ∷ []);
  capped = (below, tt);
}

asked :
    IsAsked list_orm platform " ann@itc.edu.kh" reset never
      (ann (some 1))
      (mailed reset 3)
      (state (some 1) (mailed reset 3 ∷ []) [])
unfolding find_by_email is_banned trim trim_start trim_end is_space
asked = record {
  account = refl;
  wanted = refl;
  free = refl;
  occurs = here;
  live = refl;
  codes = Codes-of reset 3 (omega arith);
}

abbrev wrong_twice : List (Draw × String)
wrong_twice = (draw_at 100 1, "111111") ∷ (draw_at 200 2, "222222") ∷ []

guesses-lock_example :
    check_code list_orm platform (draw_at 300 3) " ann@itc.edu.kh" "000042" reset never (
      guesses list_orm platform " ann@itc.edu.kh" reset never wrong_twice
        (state (some 1) (mailed reset 3 ∷ []) []))
    ≡ fail (bad_request "Too many incorrect codes. Ask for a new one.") (
        spend_row list_orm platform 300 5 (
          guesses list_orm platform " ann@itc.edu.kh" reset never wrong_twice
            (state (some 1) (mailed reset 3 ∷ []) [])))
guesses-lock_example =
    guesses-lock list_orm platform " ann@itc.edu.kh" reset never wrong_twice (ann (some 1))
      (mailed reset 3) (state (some 1) (mailed reset 3 ∷ []) []) asked
      ((omega arith, refl), ((omega arith, refl), tt)) refl (draw_at 300 3) "000042" (omega arith)

redeem_code-Holds_example :
    Holds
      (IsRedeemed list_orm platform
        (draw_at 300 3)
        (state (some 1) (mailed reset 3 ∷ []) [])
        "ann@itc.edu.kh"
        "000042"
        reset
        never)
      (redeem_code list_orm platform
        (draw_at 300 3)
        "ann@itc.edu.kh"
        "000042"
        reset
        never
        (state (some 1) (mailed reset 3 ∷ []) []))
redeem_code-Holds_example =
    redeem_code-Holds list_orm platform (draw_at 300 3) (state (some 1) (mailed reset 3 ∷ []) [])
      "ann@itc.edu.kh" "000042" reset never

reset_password-Holds_example :
    Holds
      (λ _ s'.
        HasReset list_orm platform
          (draw_at 300 3)
          (state (some 1) (mailed reset 3 ∷ []) (session none ∷ []))
          "ann@itc.edu.kh"
          "000042"
          "new secret"
          s')
      (reset_password list_orm platform
        (draw_at 300 3)
        "ann@itc.edu.kh"
        "000042"
        "new secret"
        (state (some 1) (mailed reset 3 ∷ []) (session none ∷ [])))
reset_password-Holds_example =
    reset_password-Holds list_orm platform (draw_at 300 3)
      (state (some 1) (mailed reset 3 ∷ []) (session none ∷ [])) "ann@itc.edu.kh" "000042"
      "new secret"

forgot_password_uniform_example :
    answer list_orm platform
      (draw_at 300 3)
      (state (some 1) [] [])
      (forgot_password list_orm platform (draw_at 300 3) "ann@itc.edu.kh" (state (some 1) [] []))
    ≡ answer list_orm platform (draw_at 300 3) (state (some 1) [] []) (
        forgot_password list_orm platform
          (draw_at 300 3)
          "nobody@itc.edu.kh"
          (state (some 1) [] []))
forgot_password_uniform_example =
    forgot_password_uniform list_orm platform (draw_at 300 3) (state (some 1) [] [])
      "ann@itc.edu.kh" "nobody@itc.edu.kh" refl

abbrev signed_in : Auth
signed_in = state (some 1) (mailed reset 3 ∷ []) (session none ∷ [])

bound : (raw : String) (now u : ℕ) → raw ≡ sign 1 3 50 → some (read raw) ≡ some u → u ≡ 1
bound raw now u h e = sign-verify 1 3 50 now raw u h e

signed_in-Sound : Sound platform signed_in
signed_in-Sound = record {
  owned = record { bound = (bound, tt); owner = λ f. 1; owned = (refl, tt) };
  codes = Codes-of reset 3 (omega arith);
}

abbrev two_calls : List (Draw × Call)
two_calls =
    (draw_at 100 1, Call.refreshes (some (sign 1 3 50)))
    ∷ (draw_at 200 2, Call.forgets "ann@itc.edu.kh")
    ∷ []

two_calls-AllFresh : AllFresh list_orm platform two_calls signed_in
unfolding step refresh refresh_lookup refresh_claim settle_claim refresh_finish create_refresh_token
    insert_refresh is_banned ◌>>=◌ ◌>>◌ pure get modify guard expect
two_calls-AllFresh = ((refl, refl), ((refl, refl), tt))

run-Sound_example : Sound platform (run list_orm platform two_calls signed_in)
run-Sound_example =
    run-Sound list_orm platform two_calls signed_in two_calls-AllFresh signed_in-Sound

login-Holds_example :
    Holds
      (IsSignedIn list_orm platform
        (draw_at 300 3)
        (state (some 1) [] [])
        "ann@itc.edu.kh"
        "old secret")
      (login list_orm platform (draw_at 300 3) "ann@itc.edu.kh" "old secret" (state (some 1) [] []))
login-Holds_example =
    login-Holds list_orm platform (draw_at 300 3) (state (some 1) [] []) "ann@itc.edu.kh"
      "old secret"

-- An address typed with a space before it, which is stored without.
abbrev typed : RegisterDto
typed = record {
  first_name = "Bob";
  last_name = "Chan";
  email = " bob@itc.edu.kh";
  password = "secret word";
}

login-register_example :
    Holds
      (λ _ s'.
        login list_orm platform (draw_at 400 4) " bob@itc.edu.kh" "secret word" s'
        ≡ fail bad_login s')
      (register list_orm platform (draw_at 300 3) typed (state (some 1) [] []))
unfolding trim trim_start trim_end is_space
login-register_example =
    login-register list_orm platform (draw_at 300 3) (draw_at 400 4) typed "secret word"
      (state (some 1) [] []) refl refl
