-- ===== src/Tests/Programs.antt =====
-- The echo server and its client on a socket of src/socket_impl.cpp, at concrete inputs.
use fiberio.Base.{◌≡◌, refl, Option, none, some, Text, codes, []}
use fiberio.Base.Int.{pos}
use fiberio.Errors.{Result, check_uv_status, err, socket_closed_error}
use fiberio.Duplex.{Duplex}
use fiberio.Echo.{serve, rounds, run_client, num_iterations}
use fiberio.Echo.Conversation.{Exchanged, rounds-serve}
use fiberio.Socket.{read_exactly}
use fiberio.Echo.Server.{Echoed, serve-Echoed}
use fiberio.Echo.Client.{letters, Answered, run_client-Answered}
use fiberio.SocketImpl.Call.Writing.{Line, call_write, call_close}
use fiberio.SocketImpl.Call.ImplementsDuplex.{line}
use fiberio.SocketImpl.Call.Implements.{socket_reader}
use fiberio.SocketImpl.{
  read, read_loop, read_finish, read_done, write, write_done, close, shutdown_done,
}
use fiberio.SocketImpl.Call.{call, woken}
use fiberio.Tests.Network.{linux, wire}

-- A connection on which "hello" comes and each write succeeds.
abbrev greeting : Line
greeting = record {
  wire = wire;
  sent = [];
  write_answers = λ turn. record { start = pos 0; written = pos 0; gone = 0 };
  writes = 0;
}

abbrev socket : Duplex Line
socket = line linux 104 4094 refl

serve-Echoed_example :
    Echoed socket.reader.coming socket.sent [] (codes "hello") (serve socket greeting)
unfolding line socket_reader
serve-Echoed_example = serve-Echoed socket greeting refl

run_client-Answered_example :
    Answered socket.reader.coming socket.sent num_iterations greeting
      (run_client socket (call_close linux 104) greeting)
unfolding line socket_reader call_close
run_client-Answered_example =
    run_client-Answered socket (call_close linux 104) (λ l. (refl, refl)) greeting

-- The whole text is sent back, and then the write of nothing throws.
abbrev echoed : Option (Result (Unit {0}) × Line) → Option (Result (Unit {0}) × Text)
echoed none = none
echoed (some (r, l)) = some (r, l.sent)

echoed-serve : echoed (serve socket greeting) ≡ some (err socket_closed_error, codes "hello")
unfolding serve line socket_reader call call_write read read_loop read_finish read_done woken write
    write_done close shutdown_done check_uv_status
echoed-serve = refl

-- The two ends of one connection: as many letters come to each as the other sends.
abbrev with_letters : Line
with_letters = record greeting { wire = record wire { coming = letters 2 } }

abbrev after : Option (Result (Unit {0}) × Line) → Line
after none = greeting
after (some (_, l)) = l

abbrev client_end : Line
client_end = after (rounds socket (call_close linux 104) 2 with_letters)

abbrev server_end : Line
server_end = after (serve socket with_letters)

rounds-serve_example :
    Exchanged 2
      (socket.reader.coming with_letters)
      (socket.reader.coming client_end)
      (socket.sent server_end)
      (socket.reader.coming server_end)
unfolding rounds serve line socket_reader call call_close call_write read read_loop read_finish
    read_done woken write write_done close shutdown_done check_uv_status read_exactly
rounds-serve_example =
    rounds-serve socket socket (call_close linux 104) (λ l. (refl, refl)) 2 with_letters client_end
      with_letters server_end (err socket_closed_error) [] [] refl refl refl refl refl refl refl
