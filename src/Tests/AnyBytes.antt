-- ===== src/Tests/AnyBytes.antt =====
-- The theorem on whatever the kernel gives, at bytes that are no message.
use neli.Base.{refl, arith, inr, none, List, [], ◌∷◌, ℕ}
use neli.Nl.Uint.{u16}
use neli.Nl.Bytes.{vec_u8}
use neli.Nl.Stops.{uint_any, vec_any}
use neli.Kernel.{received}
use neli.Socket.{Host}
use neli.Socket.Messages.{recv_nl}
use neli.Socket.Messages.Receive.Sound.{Sound, recv_nl-Sound}
use neli.Tests.Little.{little, linux}
use neli.Tests.Socket.{replay}

abbrev noise : List ℕ
noise = 20 ∷ 0 ∷ 0 ∷ 0 ∷ 3 ∷ 0 ∷ 2 ∷ 0 ∷ 0 ∷ 0 ∷ 0 ∷ 0 ∷ 7 ∷ 0 ∷ 0 ∷ 0 ∷ 255 ∷ []

abbrev host : Host replay
host = record {
  socket = record { fd = 3; buffer = none; pid = none; seq = none };
  world = noise ∷ [];
}

recv_nl-Sound_example :
    Sound replay {X = ⊥} (uint_any 2) vec_any (recv_nl replay u16 vec_u8 none host).0
recv_nl-Sound_example = recv_nl-Sound replay (uint_any 2) vec_any none host (
    inr (record {
      empty = refl;
      given = received noise;
      after = [];
      answer = refl;
      given_AreBytes = omega arith;
    }))
