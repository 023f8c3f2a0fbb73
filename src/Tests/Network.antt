-- ===== src/Tests/Network.antt =====
-- The sockets and their users, on Linux's status codes.
use fiberio.Base.{zero, suc, ℕ, none, ◌≤◌, ◌≡◌, refl, true, codes, arith, ◌==◌, if◌then◌else◌}
use fiberio.Base.Int.{ℤ, pos, negsuc}
use fiberio.Errors.{uv_error, Uv, check_uv_status}
use fiberio.SocketImpl.{
  new, idle, read_wait, shutdown_wait, user, read, read_loop, read_finish, read_done, close,
  close_returns, shutdown_done,
}
use fiberio.SocketImpl.System.{
  call_close, end_shutdown, System, put, wake, call_read, on_read, Reach, start, later,
}
use fiberio.SocketImpl.System.Invariant.{OneReader, Reach-OneReader}
use fiberio.SocketImpl.System.Thrown.{Told, Reach-Told}
use fiberio.SocketImpl.System.Sized.{read_loop-le}
use fiberio.SocketImpl.System.Wakeup.{Unreported, in_close, failed_close-Stuck}
use fiberio.Socket.{read_exactly, read_string, read_string_exactly}
use fiberio.Socket.Order.{Delivered, read_exactly-Delivered}
use fiberio.SocketDevice.Order.{Transferred, device_read-Transferred}
use fiberio.Socket.Strings.{read_string-read}
use fiberio.SocketImpl.System.Awake.{Served, Reach-Served}
use fiberio.Socket.Exactly.{Filled, read_exactly-Filled}
use fiberio.SocketDevice.{device_read}
use fiberio.Tests.Stream.{Stream, stream}
use fiberio.SocketImpl.Call.{Wire, call}
use fiberio.SocketImpl.Call.Contract.{Kept, call-Kept}
use fiberio.SocketImpl.Session.{Session, Move}
use fiberio.SocketImpl.System.Refines.{Refines, Step-Refines}
use fiberio.SocketImpl.System.Ended.{Ended, is_result, here, end_close-Ended}

abbrev pub linux : Uv
linux = record {
  uv_enotconn = negsuc 106;
  uv_ebadf = negsuc 8;
  uv_eai_addrfamily = negsuc 2999;
  uv_eof = negsuc 4094;
  uv_err_name = λ status. codes "EPIPE";
  uv_strerror = λ status. codes "broken pipe";
}

-- Fiber 0 has called `read` with a buffer of ten bytes.
abbrev reading : System
reading = put (record { socket = new; pc = λ _. idle }) 0 (read linux 1 10 (pos 0) (pos 0) new)

reading-Reach : Reach linux reading
reading-Reach = later start (call_read 0 1 10 (pos 0) (pos 0) refl)

Reach-OneReader_example : OneReader reading
Reach-OneReader_example = Reach-OneReader reading-Reach

-- Fiber 1 calls `read` while fiber 0 does, and is refused.
Reach-Told_example : Told linux (put reading 1 (read linux 2 10 (pos 0) (pos 0) reading.socket))
unfolding read read_loop check_uv_status
Reach-Told_example = Reach-Told (later reading-Reach (call_read 1 2 10 (pos 0) (pos 0) refl))

-- Four bytes have come.
abbrev filled : System
filled = record { socket = read_done linux (pos 4) reading.socket; pc = λ j. wake (reading.pc j) }

filled-Reach : Reach linux filled
unfolding read read_loop check_uv_status
filled-Reach = later reading-Reach (on_read (pos 4) refl (omega arith))

read_loop-le_example : 4 ≤ 10
unfolding read read_loop read_finish read_done check_uv_status
read_loop-le_example =
    read_loop-le {uv = linux} {s = filled} 0 10 4 (pos 0) filled-Reach (omega arith) refl refl

-- Fiber 0 sleeps in `read` while fiber 1 is in the shutdown of `close`.
abbrev closing : System
closing = record {
  socket = record { closed = true; reading = true; buf = 1; len = pos 10; active = true };
  pc = λ j. if j == 0 then read_wait true 10 else if j == 1 then shutdown_wait user else idle;
}

only_one : (k : ℕ) → in_close (closing.pc k) ≡ (k == 1)
only_one zero = refl
only_one (suc zero) = refl
only_one (suc (suc k)) = ground arith

-- The shutdown fails, and fiber 2 closes the socket once more.
abbrev failed : System
failed = put closing 1 (shutdown_done linux user (negsuc 31) closing.socket)

abbrev shut : System
shut = put failed 2 (close linux user (pos 0) failed.socket)

shut-Unreported : Unreported linux failed shut
unfolding check_uv_status
shut-Unreported = Unreported.next Unreported.here (call_close 2 (pos 0) refl) refl

failed_close-Stuck_example : (shut.pc 0 ≡ read_wait true 10) × (shut.socket.closed ≡ true)
unfolding check_uv_status
failed_close-Stuck_example =
    failed_close-Stuck closing 0 1 10 (uv_error (negsuc 31)) (negsuc 31) refl refl refl only_one
      refl (λ h. cc h) shut-Unreported

-- Fiber 1 closes the socket while fiber 0 reads, and is told that the shutdown is done.
abbrev shut_down : System
shut_down =
    put (put reading 1 (close linux user (pos 0) reading.socket)) 1
      (shutdown_done linux user (pos 0) (close linux user (pos 0) reading.socket).0)

shut_down-Reach : Reach linux shut_down
unfolding read read_loop close check_uv_status
shut_down-Reach =
    later (later reading-Reach (call_close 1 (pos 0) refl)) (end_shutdown 1 user (pos 0) refl)

-- The handle is closed, and the reader is awake.
abbrev closed_handle : System
closed_handle =
    put (record shut_down { pc = λ j. wake (shut_down.pc j) }) 1
      (close_returns user shut_down.socket)

end_close-Ended_example :
    Ended closed_handle
    × ((size : ℕ) (status : ℤ)
        → is_result (read_loop linux status size closed_handle.socket).1 ≡ true)
unfolding close shutdown_done check_uv_status
end_close-Ended_example = end_close-Ended 1 user shut_down-Reach refl here

abbrev hello : Stream
hello = record { coming = codes "hello"; up = true }

read_exactly-Filled_example : Filled 3 (read_exactly stream 3 hello)
read_exactly-Filled_example = read_exactly-Filled stream 3 hello

Reach-Served_example : Served reading
Reach-Served_example = Reach-Served reading-Reach

read_exactly-Delivered_example :
    Delivered stream.coming (stream.coming hello) (read_exactly stream 3 hello)
read_exactly-Delivered_example = read_exactly-Delivered stream 3 hello

device_read-Transferred_example :
    Transferred stream.is_open stream.coming 9 (stream.coming hello) (device_read stream 9 hello)
device_read-Transferred_example = device_read-Transferred stream 9 hello

read_string-read_example :
    (read_string stream 9 hello ≡ stream.read 9 hello)
    × (read_string_exactly stream 9 hello ≡ read_exactly stream 9 hello)
read_string-read_example = read_string-read stream 9 hello

-- A new socket to which "hello" comes, three bytes at a time.
abbrev pub wire : Wire
wire = record {
  socket = new;
  coming = codes "hello";
  answers = λ turn. record {
    start = pos 0;
    failure = none;
    more = 2;
    shutdown = pos 0;
    shut_down = pos 0;
  };
  turn = 0;
}

call-Kept_example : Kept 10 wire (call linux 104 10 wire)
call-Kept_example = call-Kept linux 104 4094 refl 10 wire

abbrev unread : System
unread = record { socket = new; pc = λ _. idle }

abbrev free : Session
free = record { open_ = true; holder = none }

unread-Refines : Refines unread free
unread-Refines = record { opened = refl; held = λ i. refl }

Step-Refines_example : (b : Session) × Move free b × Refines reading b
Step-Refines_example = Step-Refines start unread-Refines (call_read 0 1 10 (pos 0) (pos 0) refl)
