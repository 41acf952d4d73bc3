-- ===== src/StatusService/Friends.antt =====
-- The cached list of friends of Services/StatusServer/status_service_impl.cpp.
use qt_web_server_chat.Base.{
  ◌≡◌, refl, ap, String, some, List, [], ◌∷◌, arith, ℤ, to_string, IsInt32, stoi-to_string, done,
}
use qt_web_server_chat.RedisManager.{Hiredis, RedisManager, zrange}
use qt_web_server_chat.StatusService.{friends_key, valid_ids, occupied, get_cached_friends_list}

-- The members that cacheFriendsList writes.
abbrev pub members : List ℤ → List String
members [] = []
members (id ∷ ids) = to_string id ∷ members ids

abbrev pub AllInt32 : List ℤ → Type 0
AllInt32 [] = Unit {0}
AllInt32 (id ∷ ids) = IsInt32 id × AllInt32 ids

valid_ids-members : (ids : List ℤ) → AllInt32 ids → valid_ids (members ids) ≡ ids
unfolding valid_ids
valid_ids-members [] h = refl
valid_ids-members (id ∷ ids) h = ground (arith, stoi-to_string id h.0, valid_ids-members ids h.1)

-- If Redis answers ZRANGE with the members that were written for a list of friends, whose ids are
-- 32-bit integers, getCachedFriendsList returns that list; an empty list counts as not cached.
pub get_cached_friends_list-members :
    {Net : Type 0} (hiredis : Hiredis Net) (user_id : ℤ) (ids : List ℤ) (r r' : RedisManager Net)
    → AllInt32 ids
    → zrange hiredis (friends_key user_id) "0" "-1" r ≡ done (some (members ids)) r'
    → get_cached_friends_list hiredis user_id r ≡ done (occupied ids) r'
unfolding get_cached_friends_list
get_cached_friends_list-members hiredis user_id ids r r' h read =
    rw read (ap (λ found. done (occupied found) r') (valid_ids-members ids h))
