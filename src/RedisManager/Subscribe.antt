-- ===== src/RedisManager/Subscribe.antt =====
-- subscribe of Services/utils/redis_manager.cpp, until redisGetReply fails, which leaves the pointer
-- to the reply as it was. While it does not fail, the call does not come back.
use Prim.Native.String.{◌++◌}
use mathlib.Core.List
use qt_web_server_chat.Base.{
  ℕ, String, Bool, false, Option, none, some, List, [], ◌∷◌, ◌==◌, if◌then◌else◌, Exec, pure, ◌>>=◌,
  ◌>>◌,
}
use qt_web_server_chat.RedisManager.{Hiredis, RedisManager, get_connection, return_connection}

-- A reply of redisGetReply: an array, whose elements are `none` where they are no strings, or
-- another.
pub data Pushed : Type 0 where
  array : List (Option String) → Pushed
  other : Pushed

-- redisAppendCommand, with `true` for REDIS_OK, and the replies of the successive calls of
-- redisGetReply before the first that fails.
pub record Subscriptions (Net : Type 0) : Type 0 where
  pub append_command : ℕ → String → Net → Bool × Net
  pub get_replies : ℕ → Net → List Pushed × Net

-- The channel and the text of a message; other replies, as those to the command itself, have none.
abbrev pub message_of : Pushed → List (String × String)
message_of (array (some type ∷ some channel ∷ some message ∷ rest)) =
    if type == "message" then (channel, message) ∷ [] else []
message_of _ = []

-- The calls of the callback, if there is one.
unfoldable pub deliveries : Bool → List Pushed → List (String × String)
deliveries callback [] = []
deliveries callback (p ∷ ps) =
    let rest = deliveries callback ps in if callback then List.◌++◌ (message_of p) rest else rest

-- The pointer `reply` and what it points to.
pub data Pointer : Type 0 where
  uninitialised freed : Pointer
  live : Pushed → Pointer

-- What a call comes to: its answer, or undefined behaviour.
pub data Ended : Type 0 where
  answers : Bool → Ended
  undefined : Ended

-- A round of the loop: redisGetReply sets the pointer, and the end of the round frees the reply.
unfoldable pub set_reply : Pushed → Pointer → Pointer
set_reply r p = live r

unfoldable pub free_reply : Pointer → Pointer
free_reply uninitialised = uninitialised
free_reply freed = freed
free_reply (live r) = freed

unfoldable pub after_rounds : Pointer → List Pushed → Pointer
unfolding set_reply free_reply
after_rounds p [] = p
after_rounds p (r ∷ rs) = after_rounds (free_reply (set_reply r p)) rs

-- `if (reply) freeReplyObject(reply); ...; return false;`: to read an uninitialised pointer, or to
-- free a reply again, is undefined.
unfoldable pub after_failure : Pointer → Ended
after_failure uninitialised = undefined
after_failure freed = undefined
after_failure (live r) = answers false

-- The text of the command.
unfoldable pub append_channels : String → List String → String
append_channels command [] = command
append_channels command (channel ∷ channels) =
    append_channels (command ++ (" " ++ channel)) channels

module _ {Net : Type 0} (hiredis : Hiredis Net) (subscriptions : Subscriptions Net) where
  -- After the failure of redisGetReply; what is undefined has no state of its own.
  unfoldable pub close_loop :
      ℕ → Ended → List (String × String) → Exec (RedisManager Net) (Ended × List (String × String))
  unfolding return_connection
  close_loop ctx undefined delivered = pure (undefined, delivered)
  close_loop ctx (answers a) delivered =
      return_connection hiredis ctx >> pure (answers a, delivered)

  -- From the command on, with a connection.
  unfoldable pub listen :
      List String → Bool → ℕ → Exec (RedisManager Net) (Ended × List (String × String))
  unfolding return_connection deliveries append_channels after_rounds after_failure close_loop
  listen channels callback ctx s =
      let (sent, net) =
        subscriptions.append_command ctx (append_channels "SUBSCRIBE" channels) s.net in
      let (replies, after) = subscriptions.get_replies ctx net in
      if sent
      then close_loop ctx (after_failure (after_rounds uninitialised replies))
          (deliveries callback replies) (record s { net = after })
      else (return_connection hiredis ctx >> pure (answers false, [])) (record s { net = net })

  -- The answer, and the calls of the callback.
  unfoldable pub subscribe :
      List String → Bool → Exec (RedisManager Net) (Ended × List (String × String))
  unfolding get_connection listen
  subscribe [] callback = pure (answers false, [])
  subscribe (channel ∷ channels) callback = get_connection hiredis >>= λ ctx. elim ctx [
    | none ↦ pure (answers false, [])
    | some c ↦ listen (channel ∷ channels) callback c
  ]
