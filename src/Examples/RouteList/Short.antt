-- ===== src/Examples/RouteList/Short.antt =====
-- examples/route-list.rs on a message too short for a route, such as the one that ends a dump of the
-- kernel: a header and the four bytes of a number.
use neli.Base.{ℕ, suc, ◌<◌, ◌≡◌, refl, inl, inr, Option, none, some, List, length}
use neli.Outcome.{Result, ok, err, ◌>>=◌}
use neli.Err.{NlError, nl_of_de}
use neli.Buffering.{Libc, Buffering, All, IsByte}
use neli.Nl.Ends.{Ended, Nothing}
use neli.Nl.Uint.{u16}
use neli.Nlmsghdr
use neli.Nlmsghdr.Short.{nlmsghdr_short_payload}
use neli.Rtnl.Route.Short.{rtmsg_short}
use neli.Rtnl.Route.{rtmsg}
use neli.Kernel.{Kernel}
use neli.Socket.{Host}
use neli.Socket.Messages.{recv_nl}
use neli.Examples.{Session}
use neli.Examples.RouteList.{Piece, listen}

module _ ⦃b : Buffering⦄ (k : Kernel) where
  -- How a run of the program ends: its result, and what it has printed.
  pub record Lists (q : Result NlError Unit × Session k Piece) (result : Result NlError Unit)
      (printed : List Piece) : Type 0 where
    pub same_result : q.0 ≡ result
    pub same_printed : q.1.printed ≡ printed

module _ ⦃c : Libc⦄ ⦃b : Buffering⦄ (k : Kernel) where
  refused :
      (h : Host k) (front rest : List ℕ) (hint : Option ℕ)
      → h.socket.buffer ≡ some (b.reader front rest hint)
      → Ended Nothing (Nlmsghdr.deserialize u16 rtmsg (b.reader front rest hint))
      → (e : _) × ((recv_nl k u16 rtmsg none h).0 ≡ err e)
  unfolding recv_nl ◌>>=◌
  refused h front rest hint held (inl (e, failed)) = (nl_of_de e, rw (held, failed) refl)
  refused h front rest hint held (inr l) = absurd l.holds

  -- Where fewer than 28 bytes are left in the buffer of the socket, whatever they are, the loop ends
  -- there: the program prints nothing more and returns `Ok`. It does not see the type of the message.
  pub listen_short :
      (fuel : ℕ) (s : Session k Piece) (front rest : List ℕ) (hint : Option ℕ)
      → s.host.socket.buffer ≡ some (b.reader front rest hint)
      → length rest < 28
      → All IsByte rest
      → Lists k (listen k (suc fuel) s) (ok tt) s.printed
  unfolding listen
  listen_short fuel s front rest hint held short v =
      let (e, failed) = refused s.host front rest hint held (
        (nlmsghdr_short_payload rtmsg 12 rtmsg_short hint (length rest) short).at front rest refl
          v) in
      rw failed (record { same_result = refl; same_printed = refl })
