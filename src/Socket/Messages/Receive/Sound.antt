-- ===== src/Socket/Messages/Receive/Sound.antt =====
-- src/socket.rs, `recv_nl` on whatever bytes the kernel gives.
use neli.Base.{ℕ, zero, suc, ◌≡◌, refl, ◌⊎◌, inl, inr, arith, ◌==◌, Bool-cases, false}
use neli.Base.{Option, none, some, List, [], ◌∷◌, length, take-append_length}
use neli.Outcome.{Result, ok, err, panic, out_of_fuel, ◌>>=◌}
use neli.Err.{NlError, DeError}
use neli.Buffering.{Libc, Buffering, All, IsByte}
use neli.Nl.{Nl}
use neli.Nl.Ends.{Ended}
use neli.Nl.Stops.{FixedAny, PayloadAny}
use neli.Nl.Laws.{Fixed, Payload}
use neli.Nlattr.Build.{unwrap_or}
use neli.Nlmsghdr
use neli.Nlmsghdr.{Nlmsghdr}
use neli.Nlmsghdr.RoundTrip.{IsValid}
use neli.Nlmsghdr.AnyBytes.{IsMessage, nlmsghdr-IsMessage}
use neli.Kernel.{Kernel, Received, failed, received}
use neli.Socket.{Host, recv}
use neli.Socket.Messages.{recv_nl, max_nl_length}

abbrev pub AreBytes : Received → Type 0
AreBytes failed = Unit
AreBytes (received xs) = All IsByte xs

module _ ⦃b : Buffering⦄ {k : Kernel} where
  -- What the next message is read from: bytes that the buffer has left, or those of a datagram.
  pub record Buffered (h : Host k) : Type 0 where
    pub front : List ℕ
    pub rest : List ℕ
    pub hint : Option ℕ
    pub held : h.socket.buffer ≡ some (b.reader front rest hint)
    pub rest_AreBytes : All IsByte rest

  pub record Fetches (h : Host k) (len : ℕ) : Type 0 where
    pub empty : h.socket.buffer ≡ none
    pub given : Received
    pub after : k.World
    pub answer : k.recv h.socket.fd len 0 h.world ≡ (given, after)
    pub given_AreBytes : AreBytes given

not_zero : (n : ℕ) → (suc n == 0) ≡ false
not_zero n = ground arith

module _ ⦃c : Libc⦄ ⦃b : Buffering⦄ (k : Kernel) {T P X : Type 0} {t : Nl T} {p : Nl P}
    {tl : Fixed t 2} {pl : Payload p} (ta : FixedAny tl) (pa : PayloadAny X pl) where
  -- A result is a well-formed message or an error; it is a panic only where reading the payload may be.
  abbrev pub Sound : Result NlError (Nlmsghdr T P) → Type 0
  Sound (ok m) = IsValid tl pl m
  Sound (err e) = Unit
  Sound panic = X
  Sound out_of_fuel = ⊥

  abbrev Read : Result DeError (Nlmsghdr T P) × b.ReadBuffer → ℕ → Type 0
  Read q left = (X × (q.0 ≡ panic)) ⊎ Ended (λ self h'. IsMessage ta pa left self) q

  buffered :
      (buf_sz : Option ℕ) (h : Host k) (front rest : List ℕ) (hint : Option ℕ)
      → h.socket.buffer ≡ some (b.reader front rest hint)
      → Read (Nlmsghdr.deserialize t p (b.reader front rest hint)) (length rest)
      → (pid : Option ℕ) → h.socket.pid ≡ pid
      → Sound (recv_nl k t p buf_sz h).0
  unfolding recv_nl ◌>>=◌
  buffered buf_sz h front rest hint held (inl (x, stuck)) pid same = rw (held, stuck) x
  buffered buf_sz h front rest hint held (inr (inl (e, wrong))) pid same = rw (held, wrong) tt
  buffered buf_sz h front rest hint held (inr (inr l)) none same =
      rw (held, l.result) (rw same (l.holds.message_IsValid))
  buffered buf_sz h front rest hint held (inr (inr l)) (some zero) same =
      rw (held, l.result) (rw same (l.holds.message_IsValid))
  buffered buf_sz h front rest hint held (inr (inr l)) (some (suc n)) same =
      elim (Bool-cases (suc n == l.value.nl_pid)) [
        | inl equal ↦ rw (held, l.result) (rw (same, equal) (l.holds.message_IsValid))
        | inr other ↦ rw (held, l.result) (rw (same, other) tt)
      ]

  pub recv_nl-Buffered :
      (buf_sz : Option ℕ) (h : Host k) → Buffered h → Sound (recv_nl k t p buf_sz h).0
  recv_nl-Buffered buf_sz h s =
      buffered buf_sz h s.front s.rest s.hint s.held
        ((nlmsghdr-IsMessage ta pa s.hint (length s.rest)).at s.front s.rest refl s.rest_AreBytes)
        h.socket.pid refl

  -- The buffer that an answer of the kernel fills.
  filled :
      (buf_sz : Option ℕ) (h : Host k) (x : ℕ) (xs : List ℕ) (w : k.World)
      → h.socket.buffer ≡ none
      → k.recv h.socket.fd (unwrap_or buf_sz max_nl_length) 0 h.world ≡ (received (x ∷ xs), w)
      → recv_nl k t p buf_sz h
        ≡ recv_nl k t p buf_sz (record {
          socket = record h.socket { buffer = some (b.reader [] (x ∷ xs) none) };
          world = w;
        })
  unfolding recv_nl ◌>>=◌ recv
  filled buf_sz h x xs w empty answer =
      let some_read : (length (x ∷ xs) == 0) ≡ false = not_zero (length xs) in
      rw (empty, answer)
        (rw some_read (rw (take-append_length (x ∷ xs), b.new_read_lem (x ∷ xs)) refl))

  fetched :
      (buf_sz : Option ℕ) (h : Host k) (given : Received) (w : k.World)
      → h.socket.buffer ≡ none
      → k.recv h.socket.fd (unwrap_or buf_sz max_nl_length) 0 h.world ≡ (given, w)
      → AreBytes given
      → Sound (recv_nl k t p buf_sz h).0
  unfolding recv_nl ◌>>=◌ recv
  fetched buf_sz h failed w empty answer v = rw (empty, answer) tt
  fetched buf_sz h (received []) w empty answer v = rw (empty, answer) tt
  fetched buf_sz h (received (x ∷ xs)) w empty answer v = rw (filled buf_sz h x xs w empty answer) (
      recv_nl-Buffered buf_sz _
        (record { front = []; rest = x ∷ xs; hint = none; held = refl; rest_AreBytes = v }))

  -- Whatever bytes are left in the buffer, or with no buffer, whatever bytes or failure the kernel
  -- answers with: `recv_nl`, for a type two bytes wide and a payload that are valid whenever they are
  -- read, the payload of the size of its hint, ends in a well-formed message or in an error. It panics
  -- only where reading a payload of that type may.
  pub recv_nl-Sound :
      (buf_sz : Option ℕ) (h : Host k)
      → Buffered h ⊎ Fetches h (unwrap_or buf_sz max_nl_length)
      → Sound (recv_nl k t p buf_sz h).0
  recv_nl-Sound buf_sz h (inl s) = recv_nl-Buffered buf_sz h s
  recv_nl-Sound buf_sz h (inr s) =
      fetched buf_sz h s.given s.after s.empty s.answer s.given_AreBytes
