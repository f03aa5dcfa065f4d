-- ===== src/Telegram/Tests.antt =====
-- Accounts and chats to run on, and the theorems at inputs that meet their hypotheses.
use itc_sharing_backend.Base.{
  ◌≡◌, refl, true, String, none, some, List, [], ◌∷◌, arith, ◌⊎◌, after, done, ◌>>=◌, ◌>>◌, get,
  modify, guard, pure,
}
use itc_sharing_backend.Samples.{list_orm}
use itc_sharing_backend.Telegram.Linking.{
  Telegram, invalid, LinkCall, create, start, has_token_shape, are_token_chars, size,
  create_link_token, redeem, link_step, link_run,
}
use itc_sharing_backend.Telegram.Asked.{Reaches, Asked, link_run-Asked}
use itc_sharing_backend.Telegram.Once.{redeem_once}

abbrev two_accounts : Telegram
two_accounts = record {
  users =
      record { id = 1; telegram_chat_id = none; telegram_linked_at = none }
      ∷ record { id = 2; telegram_chat_id = some 70; telegram_linked_at = some 3 }
      ∷ [];
  tokens = [];
}

abbrev secret : String
secret = "abcdefghijklmnop"

abbrev messages : List LinkCall
messages = create true 10 1 secret ∷ start 20 secret 80 ∷ start 21 secret 90 ∷ []

reached : Reaches 1 80 (link_run list_orm (λ s. s) messages two_accounts)
unfolding link_run link_step create_link_token redeem has_token_shape are_token_chars size ◌>>=◌
    ◌>>◌ get modify guard pure
reached = refl

link_run-Asked_example :
    Reaches 1 80 two_accounts ⊎ Asked list_orm (λ s. s) messages two_accounts 1 80
link_run-Asked_example = link_run-Asked list_orm (λ s. s) messages two_accounts 1 80 reached

abbrev with_link : Telegram
with_link = record {
  users = two_accounts.users;
  tokens = record { user_id = 1; token_hash = secret; expires_at = 600; used_at = none } ∷ [];
}

redeem_once_example :
    redeem list_orm (λ s. s) 30 secret 90 (after (redeem list_orm (λ s. s) 20 secret 80 with_link))
    ≡ done invalid (after (redeem list_orm (λ s. s) 20 secret 80 with_link))
redeem_once_example = redeem_once list_orm (λ s. s) 20 30 secret 80 90 with_link (omega arith)
