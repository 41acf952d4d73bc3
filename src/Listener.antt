-- ===== src/Listener.antt =====
-- Services/GateServer/listener.cpp. The acceptor and its error codes are Boost.Asio's: its calls are
-- parameters. `pending` counts the operations that async_accept began and whose handler has not run,
-- which cancel leaves to their handler; `sessions` and `reports` are the sockets whose sessions have
-- begun to read and the lines on stderr, oldest first.
use mathlib.Core.List
use qt_web_server_chat.Base.{
  ℕ, ◌+◌, ◌-◌, ◌⊎◌, inl, inr, String, Bool, true, false, Option, none, some, List, [], ◌∷◌,
  if◌then◌else◌, Exec, pure, throw, ◌>>◌,
}
pub mod Accepting
mod Tests

pub data ErrorCode : Type 0 where
  operation_aborted : ErrorCode
  other_error : String → ErrorCode

-- An accepted socket, with what its remote_endpoint gives, or `none` where it throws.
abbrev pub Accepted : Type 0 → Type 0
Accepted Socket = Socket × Option String

-- The calls that can fail give the error, if there is one.
pub record Acceptor (Net : Type 0) : Type 0 where
  pub open_acceptor : String → ℕ → Net → Option ErrorCode × Net
  pub set_reuse_address : Net → Option ErrorCode × Net
  pub bind : String → ℕ → Net → Option ErrorCode × Net
  pub listen : Net → Option ErrorCode × Net
  pub cancel : Net → Net
  pub close : Net → Net

pub record Listener (Net Socket : Type 0) : Type 0 where
  pub net : Net
  pub accepting : Bool
  pub address : String
  pub port : ℕ
  pub pending : ℕ
  pub sessions : List Socket
  pub reports : List (String × String)

module _ {Net Socket : Type 0} where
  unfoldable pub fail : ErrorCode → String → Listener Net Socket → Listener Net Socket
  fail operation_aborted what l = l
  fail (other_error message) what l = record l {
    reports = List.◌++◌ l.reports ((what, message) ∷ []);
  }

  -- A call of the constructor, which returns if the call fails.
  unfoldable pub attempt :
      String
      → (Net → Option ErrorCode × Net)
      → (Listener Net Socket → Listener Net Socket)
      → Listener Net Socket
      → Listener Net Socket
  unfolding fail
  attempt what call next l =
      let (ec, net) = call l.net in
      elim ec [
        | none ↦ next (record l { net = net })
        | some e ↦ fail e what (record l { net = net })
      ]

  unfoldable pub construct : Acceptor Net → String → ℕ → Net → Listener Net Socket
  unfolding attempt
  construct acceptor address port net =
      attempt "open" (acceptor.open_acceptor address port)
        (attempt "set_option" acceptor.set_reuse_address
          (attempt "bind" (acceptor.bind address port) (attempt "listen" acceptor.listen (λ l. l))))
        (record {
          net = net;
          accepting = false;
          address = address;
          port = port;
          pending = 0;
          sessions = [];
          reports = [];
        })

  unfoldable pub do_accept : Listener Net Socket → Listener Net Socket
  do_accept l = if l.accepting then record l { pending = l.pending + 1 } else l

  unfoldable pub run : Listener Net Socket → Listener Net Socket
  unfolding do_accept
  run l = do_accept (record l { accepting = true })

  unfoldable pub stop : Acceptor Net → Listener Net Socket → Listener Net Socket
  stop acceptor l = record l { accepting = false; net = acceptor.close (acceptor.cancel l.net) }

  -- What the handler of async_accept does with its error code, or else with its socket: the run of
  -- the HTTP session throws where remote_endpoint does, and else begins to read.
  unfoldable pub take : ErrorCode ⊎ Accepted Socket → Exec (Listener Net Socket) (Unit {0})
  unfolding fail
  take (inl operation_aborted) l = pure tt l
  take (inl (other_error message)) l = pure tt (fail (other_error message) "accept" l)
  take (inr (socket, none)) l = throw l
  take (inr (socket, some ep)) l =
      pure tt (record l { sessions = List.◌++◌ l.sessions (socket ∷ []) })

  -- The end of the handler.
  unfoldable pub accept_more : Exec (Listener Net Socket) (Unit {0})
  unfolding do_accept
  accept_more l = pure tt (if l.accepting then do_accept l else l)

  -- The handler of async_accept.
  unfoldable pub on_accept : ErrorCode ⊎ Accepted Socket → Exec (Listener Net Socket) (Unit {0})
  unfolding take accept_more
  on_accept result l = (take result >> accept_more) (record l { pending = l.pending - 1 })
