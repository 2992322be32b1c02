-- ===== src/Examples/GenlStream.antt =====
-- examples/genl_stream.rs without the feature `stream`: the messages of a multicast group. The program
-- is given its two arguments.
use neli.Base.{ℕ, zero, suc, true, Option, none, some, List, [], ◌∷◌}
use neli.Outcome.{Result, ok, err, panic, out_of_fuel, convert, ◌>>=◌, ◌>>◌}
use neli.Err.{NlError, nl_of_io}
use neli.Buffering.{Libc, Buffering}
use neli.Nl.Uint.{u8, u16}
use neli.Consts.Socket.{NlFamily}
use neli.Nlmsghdr.{Nlmsghdr}
use neli.Genlmsghdr.{Genlmsghdr, genlmsghdr}
use neli.Kernel.{Kernel}
use neli.Socket.{connect, set_mcast_groups}
use neli.Socket.Messages.{next}
use neli.Socket.Resolve.{resolve_nl_mcast_group}
use neli.Examples.{Left, Program, on_socket, print, with_socket}

-- The message that `println!("{:#?}", …)` formats.
abbrev pub Message : Type 0
Message = Nlmsghdr ℕ (Genlmsghdr ℕ ℕ)

module _ ⦃c : Libc⦄ ⦃b : Buffering⦄ (k : Kernel) where
  -- The body of the `for`, before the next round.
  abbrev pub shown :
      Program k Message Unit
      → Result NlError (Option (Result NlError Message))
      → Program k Message Unit
  shown rest (ok none) s = (ok tt, s)
  shown rest (ok (some (ok m))) s = (print k (m ∷ []) >> rest) s
  shown rest (ok (some (err e))) s = (err e, s)
  shown rest (ok (some panic)) s = (panic, s)
  shown rest (ok (some out_of_fuel)) s = (out_of_fuel, s)
  shown rest (err e) s = (err e, s)
  shown rest panic s = (panic, s)
  shown rest out_of_fuel s = (out_of_fuel, s)

  -- The loop, on fuel: the program bounds the rounds by nothing.
  unfoldable pub listen : ℕ → Program k Message Unit
  listen zero s = (out_of_fuel, s)
  listen (suc fuel) s =
      let (r, h) = next k u16 (genlmsghdr u8 u16) s.host in
      shown (listen fuel) r (record s { host = h })

  unfoldable pub program : ℕ → List ℕ → List ℕ → Program k Message Unit
  unfolding listen
  program fuel family_name mc_group_name = do
    id ← on_socket k (resolve_nl_mcast_group k family_name mc_group_name)
    on_socket k (convert nl_of_io (set_mcast_groups k (id ∷ [])))
    listen fuel

  unfoldable pub debug_stream : ℕ → List ℕ → List ℕ → k.World → Result NlError Unit × Left k Message
  unfolding program
  debug_stream fuel family_name mc_group_name =
      with_socket k (connect k NlFamily.generic none none true)
        (program fuel family_name mc_group_name)
