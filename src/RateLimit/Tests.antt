-- ===== src/RateLimit/Tests.antt =====
-- The upload budget and the request counter on concrete calls, and their theorems at inputs
-- that meet their hypotheses.
use itc_sharing_backend.Base.{
  true, ◌+◌, ◌≡◌, ◌≤◌, refl, Option, none, some, List, [], ◌∷◌, arith, ◌==◌, if◌then◌else◌,
}
use itc_sharing_backend.RateLimit.Redis.{Key, quota, Entry}
use itc_sharing_backend.RateLimit.Quota.{
  prune, Window, Windows, consume_locally, consume_window, consume_shared, store_window,
}
use itc_sharing_backend.RateLimit.Agreement.{IsSynchronous, consume_agrees}
use itc_sharing_backend.RateLimit.Scripts.{both, IsCounting}
use itc_sharing_backend.RateLimit.Ceiling.{Upload, accepted, accepted-le}
use itc_sharing_backend.RateLimit.Throttle.{increment_script, bound_hits, judge}
use itc_sharing_backend.RateLimit.Counter.{counting, idle, is_idle, Follows, increment-Follows}
use itc_sharing_backend.RateLimit.Window.{admitted, admitted-le}
use itc_sharing_backend.RateLimit.Pruning.{consume_locally-prune}
use itc_sharing_backend.RateLimit.Store.{memory_redis}

abbrev opened : Window
opened = record { bytes = 60; reset_at = 1000 }

abbrev windows : Windows
windows user = if user == 4 then some opened else none

abbrev keys : Key → Option Entry
keys (quota user) = if user == 4 then some (record { value = 60; expires_at = some 1000 }) else none
keys _ = none

abbrev uploads : List Upload
uploads =
    record { at = 10; user = 4; bytes = 30 }
    ∷ record { at = 20; user = 5; bytes = 90 }
    ∷ record { at = 30; user = 4; bytes = 30 }
    ∷ record { at = 40; user = 4; bytes = 10 }
    ∷ []

-- The third upload of these does not fit; the last one does.
accepted_uploads : accepted 100 5000 4 uploads windows ≡ 40
unfolding accepted consume_locally consume_window store_window
accepted_uploads = refl

accepted-le_example : 60 + accepted 100 5000 4 uploads windows ≤ 100
accepted-le_example =
    accepted-le 100 5000 4 uploads opened windows refl (omega arith)
      (omega arith, (omega arith, (omega arith, (omega arith, tt))))

consume_agrees_example :
    ((consume_locally 100 5000 10 4 30 windows).0
      ≡ (consume_shared memory_redis 100 5000 10 4 30 keys).0)
    × (IsCounting (memory_redis.view keys (quota 4) 10)
        → IsSynchronous memory_redis 100 5000 10 4 30 keys windows
            (consume_shared memory_redis 100 5000 10 4 30 keys).1
            (consume_locally 100 5000 10 4 30 windows).1)
consume_agrees_example =
    consume_agrees memory_redis 100 5000 10 4 30 keys windows (omega arith)
      (both 60 1000 (omega arith))

abbrev no_keys : Key → Option Entry
no_keys k = none

-- Five requests against a limit of three.
three_of_five : admitted memory_redis 1 60000 3 (0 ∷ 10 ∷ 20 ∷ 30 ∷ 40 ∷ []) no_keys ≡ 3
unfolding admitted increment_script bound_hits judge
three_of_five = refl

admitted-le_example : admitted memory_redis 1 60000 3 (0 ∷ 10 ∷ 20 ∷ 30 ∷ 40 ∷ []) no_keys ≤ 3
admitted-le_example =
    admitted-le memory_redis 1 60000 3 0 (10 ∷ 20 ∷ 30 ∷ 40 ∷ []) no_keys (omega arith) refl refl
      (omega arith, (omega arith, (omega arith, (omega arith, tt))))
      (omega arith, (omega arith, (omega arith, (omega arith, tt))))

increment-Follows_example :
    Follows memory_redis 1 60000 3 5
      (omega arith)
      true
      (counting 1 60005)
      (increment_script memory_redis 5 1 60000 3 60000 no_keys)
increment-Follows_example =
    increment-Follows memory_redis 1 60000 3 5 (omega arith) no_keys idle (is_idle refl refl)

consume_locally-prune_example :
    (consume_locally 100 5000 1200 4 30 (prune 1100 windows)).0
    ≡ (consume_locally 100 5000 1200 4 30 windows).0
consume_locally-prune_example = consume_locally-prune 100 5000 1100 1200 4 30 windows (omega arith)
