-- ===== src/Examples.antt =====
-- The programs of examples/. A program runs on a `Session`: the socket and the world, and what it has
-- printed, a list of the pieces that its `print!` and `println!` calls format. The text of a piece
-- (`Display` and `Debug` of the standard library) is not spelled out.
pub mod RouteList
pub mod CtrlList
pub mod GenlStream
pub mod Nflog
pub mod NestedAttributes
use neli.Base.{List, [], ◌∷◌, ◌++◌}
use neli.Outcome.{Result, Exec, ok, err, panic, out_of_fuel, map_err, modify}
use neli.Err.{IoError, NlError, nl_of_io}
use neli.Buffering.{Buffering}
use neli.Kernel.{Kernel}
use neli.Socket.{NlSocket, Host, Method, Sys, drop_socket}

-- `Result::unwrap` of a call
abbrev pub unwrapped : {E F A : Type 0} → Result E A → Result F A
unwrapped (ok a) = ok a
unwrapped (err e) = panic
unwrapped panic = panic
unwrapped out_of_fuel = out_of_fuel

module _ ⦃b : Buffering⦄ (k : Kernel) (L : Type 0) where
  pub record Session : Type 0 where
    pub host : Host k
    pub printed : List L

  abbrev pub Program : Type 0 → Type 0
  Program A = Exec Session NlError A

  -- What a program leaves: the world, and what was printed.
  pub record Left : Type 0 where
    pub world : k.World
    pub printed : List L

module _ ⦃b : Buffering⦄ (k : Kernel) {L : Type 0} where
  abbrev pub on_socket : {A : Type 0} → Method k NlError A → Program k L A
  on_socket m s = let (r, h) = m s.host in (r, record s { host = h })

  abbrev pub on_socket_unwrapped : {A : Type 0} → Method k NlError A → Program k L A
  on_socket_unwrapped m s = let (r, h) = m s.host in (unwrapped r, record s { host = h })

  abbrev pub print : List L → Program k L Unit
  print pieces = modify (λ s. record s { printed = s.printed ++ pieces })

  abbrev dropped : Session k L → Left k L
  dropped s = record { world = drop_socket k s.host.socket s.host.world; printed = s.printed }

  -- The socket is dropped, and so closed, however the program ends.
  abbrev closed : Result NlError Unit × Session k L → Result NlError Unit × Left k L
  closed (out_of_fuel, s) = (out_of_fuel, record { world = s.host.world; printed = s.printed })
  closed (panic, s) = (panic, dropped s)
  closed (err e, s) = (err e, dropped s)
  closed (ok u, s) = (ok u, dropped s)

  abbrev started :
      Program k L Unit → Result NlError NlSocket → k.World → Result NlError Unit × Left k L
  started body (ok s) w =
      closed (body (record { host = record { socket = s; world = w }; printed = [] }))
  started body (err e) w = (err e, record { world = w; printed = [] })
  started body panic w = (panic, record { world = w; printed = [] })
  started body out_of_fuel w = (out_of_fuel, record { world = w; printed = [] })

  -- `let mut socket = NlSocket::connect(…)?` and what follows
  pub with_socket : Sys k NlSocket → Program k L Unit → k.World → Result NlError Unit × Left k L
  with_socket connect body w = let (r, w') = connect w in started body (map_err nl_of_io r) w'

  -- `let mut socket = NlSocket::connect(…).unwrap()` and what follows
  pub with_socket_unwrapped :
      Sys k NlSocket → Program k L Unit → k.World → Result NlError Unit × Left k L
  with_socket_unwrapped connect body w = let (r, w') = connect w in started body (unwrapped r) w'
