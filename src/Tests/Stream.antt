-- ===== src/Tests/Stream.antt =====
-- The stream at a concrete reactor: what it reads are the datagrams of a list.
use neli.Base.{ℕ, refl, none, List, [], ◌∷◌, ◌++◌, length}
use neli.Outcome.{Result, ok, pure}
use neli.Err.{IoError}
use neli.Nl.Laws.{uint_laws}
use neli.Nlmsghdr.RoundTrip.{empty_laws}
use neli.Socket.Messages.Receive.Queue.{frames}
use neli.Socket.Stream.{Reactor, Poll, pending, ready, StreamHost}
use neli.Socket.Stream.Waiting.{Delivers, poll_next-Delivers}
use neli.Tests.Little.{little, linux}
use neli.Tests.Socket.{replay, two, numbered, numbered_3-IsValid, numbered_4-IsValid}

abbrev polled : List (List ℕ) → Poll (Result IoError (ℕ × List ℕ)) × List (List ℕ)
polled [] = (pending, [])
polled (xs ∷ w) = (ready (ok (length xs, xs ++ (0 ∷ []))), w)

abbrev reactor : Reactor replay
reactor = record {
  PollEvented = Unit;
  wrap = λ socket. pure tt;
  poll_read = λ len evented w. polled w;
}

abbrev stream : StreamHost reactor
stream = record {
  socket = record { socket = tt; buffer = none };
  world = frames (uint_laws 2) empty_laws two ∷ [];
}

-- Nothing arrives before the last datagram.
abbrev delayed : List (List ℕ) → Poll (Result IoError (ℕ × List ℕ)) × List (List ℕ)
delayed [] = (pending, [])
delayed (xs ∷ []) = (ready (ok (length xs, xs ++ [])), [])
delayed (xs ∷ ys ∷ w) = (pending, ys ∷ w)

abbrev slow : Reactor replay
slow = record {
  PollEvented = Unit;
  wrap = λ socket. pure tt;
  poll_read = λ len evented w. delayed w;
}

abbrev datagram : List ℕ
datagram = frames (uint_laws 2) empty_laws two

abbrev waiting : StreamHost slow
waiting = record { socket = record { socket = tt; buffer = none }; world = [] ∷ [] ∷ datagram ∷ [] }

poll_next-Delivers_example : Delivers slow (uint_laws 2) empty_laws 2 waiting two (datagram ∷ []) []
poll_next-Delivers_example =
    poll_next-Delivers slow (uint_laws 2) empty_laws 2 waiting (numbered 3 7) (numbered 4 7 ∷ []) []
      (datagram ∷ []) [] refl (numbered_3-IsValid, (numbered_4-IsValid, tt))
      ([] ∷ datagram ∷ [], refl, (datagram ∷ [], refl, refl)) refl
