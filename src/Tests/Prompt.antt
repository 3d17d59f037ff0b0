-- ===== src/Tests/Prompt.antt =====
-- The command `w` on an endpoint with an empty queue of requests.
use omnixtend_c.Base.{◌≡◌, refl, arith, false, none, [], ◌∷◌, ok, pos}
use omnixtend_c.TlMsg.{TlMsg}
use omnixtend_c.CircularQueue.{CircularQueue}
use omnixtend_c.CircularQueue.Contents.{IsValid, contents}
use omnixtend_c.Connection.{is_conn}
use omnixtend_c.Loop.{write_message}
use omnixtend_c.Commands.{returns, handle_user_input}
use omnixtend_c.Commands.Queued.{write_command_lem}
use omnixtend_c.Tests.Data.{endpoint}
use omnixtend_c.Tests.Requests.{empty_queue-IsValid}

write_command_lem_example :
    (b : CircularQueue TlMsg) × (handle_user_input false [] endpoint none 119 64 (pos 7) (pos 2) 1 1
      ≡ ok (returns 0 (record endpoint { message_buffer = b }) none))
    × IsValid b
    × (contents b ≡ write_message 64 7 ∷ write_message 64 7 ∷ [])
unfolding is_conn
write_command_lem_example =
    write_command_lem false [] endpoint none 64 7 2 1 1 refl empty_queue-IsValid (omega arith)
      (omega arith) (omega arith) (omega arith)
