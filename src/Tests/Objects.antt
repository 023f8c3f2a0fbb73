-- ===== src/Tests/Objects.antt =====
-- The socket objects and the loop of a thread at concrete inputs.
use fiberio.Base.{ℕ, ◌&&◌, get_elem?, ◌≡◌, refl, false, List, [], ◌∷◌, some, if◌then◌else◌, ◌==◌}
use fiberio.Base.Int.{pos}
use fiberio.SocketImpl.{SocketImpl, new}
use fiberio.Handles.{
  Impl, owns, live, dead, Store, Op, construct, copy, copy_assign, step, run, release,
  handle_is_open,
}
use fiberio.Handles.Written.{Owned}
use fiberio.Handles.Owned.{run-no_objects-Owned}
use fiberio.Handles.Copies.{Closed, copy-socket_close}
use fiberio.Handles.Device.{device_close_all, device_close_all-shared}
use fiberio.SocketDevice.{Mode, mode_in, mode_out}
use fiberio.SocketDevice.Reading.{names_in, names_out, fresh, close_all}
use fiberio.Handles.Sockets.{sockets, close-closes}
use fiberio.ThreadLoop.{loop, timer, destruct, get_all}
use fiberio.ThreadLoop
use fiberio.ThreadLoop.Lifetime.{life, destruct-get_all}
use fiberio.Tests.Network.{linux}

abbrev posix : Impl SocketImpl
posix = sockets linux (pos 0)

-- A socket, a copy of it and another one, which the copy is then assigned to.
abbrev copied : List (Op SocketImpl)
copied = construct ∷ copy 0 ∷ construct ∷ copy_assign 2 1 ∷ []

abbrev closed_socket : SocketImpl
closed_socket = posix.close new

-- The second implementation has lost its only owner.
abbrev three : Store SocketImpl
three = record {
  handles = owns 0 ∷ owns 0 ∷ owns 0 ∷ [];
  cells = live new ∷ dead closed_socket ∷ [];
}

run-no_objects-Owned_example : Owned posix three
unfolding run step release
run-no_objects-Owned_example =
    run-no_objects-Owned posix (close-closes linux (pos 0)) copied three refl

copy-socket_close_example :
    (t : Store SocketImpl) × (step posix (copy 0) three ≡ some t)
    × Closed linux (pos 0) three t 0 0 0
    × Closed linux (pos 0) three t 0 0 3
unfolding run step release
copy-socket_close_example = copy-socket_close linux (pos 0) copied three 0 0 refl refl

-- The streams of the first of the three objects close its two directions.
abbrev directions : List Mode
directions = mode_in ∷ mode_out ∷ []

device_close_all-shared_example :
    (t : Store SocketImpl) × (device_close_all posix 0 directions (fresh, three)
      ≡ some (close_all directions fresh, t))
    × ((j m : ℕ)
        → get_elem? three.handles j ≡ some (owns m)
        → handle_is_open posix j t ≡ (
            if (0 == m) && (names_in directions && names_out directions)
            then some false
            else handle_is_open posix j three))
unfolding run step release
device_close_all-shared_example =
    device_close_all-shared posix (close-closes linux (pos 0)) copied three 0 0 directions refl refl

destruct-get_all_example :
    (destruct (get_all (loop ∷ timer ∷ []) fiberio.ThreadLoop.new)).calls ≡ life (loop ∷ timer ∷ [])
destruct-get_all_example = destruct-get_all (loop ∷ timer ∷ [])
