-- ===== src/Tests/Socket.antt =====
-- The theorems on sockets at concrete inputs: a kernel that takes each message and gives the datagrams
-- of a list, one after the other.
use neli.Base.{ℕ, ◌^◌, ◌<◌, ◌≡◌, refl, sym, arith, none, some, List, [], ◌∷◌, ◌++◌, length}
use neli.Outcome.{ok, err, Ensures}
use neli.Err.{msg, bad_pid, bad_seq, nl_of_de, de_of_io}
use neli.Nl.Uint.{u16}
use neli.Nl.Laws.{uint_laws}
use neli.Consts.{first_arm, from_value}
use neli.Consts.Messages.{Nlmsg, nlmsg}
use neli.Flags.{flags_from}
use neli.Flags.Laws.{AreFlags}
use neli.Consts.Messages.{nlm_f}
use neli.Nlmsghdr.{Nlmsghdr, NlEmpty, nl_empty, empty}
use neli.Nlmsghdr.RoundTrip as Header
use neli.Nlmsghdr.RoundTrip.{empty_laws}
use neli.Kernel.{Kernel, pos, Received, failed, received}
use neli.Socket.{NlSocket, Host, increment_seq}
use neli.Socket.Messages.{send_nl, recv_nl, recv_ack}
use neli.Socket.Messages.Send.{send_end, after_send, send_nl_lem}
use neli.Socket.Messages.Receive.{Kept, Taken, recv_nl-Taken}
use neli.Socket.Messages.Receive.Queue.{repeat, with_queue, frames, recv_nl_in_order}
use neli.Socket.Messages.Receive.Refused.{spent, recv_nl_refused}
use neli.Socket.Messages.Answer as Acks
use neli.Socket.Messages.Answer.{Answer, IsAnswer}
use neli.Socket.Messages.Ack.{remaining, put_back, recv_ack-IsAck, recv_ack_refuses}
use neli.Socket.Messages.Exchange.{recv_ack-send_nl}
use neli.Socket.Messages.Numbers.{start, sent, acknowledged, incremented, Since, Run-Since}
use neli.Tests.Little.{little, linux}

abbrev given : List (List ℕ) → Received × List (List ℕ)
given [] = (failed, [])
given (xs ∷ w) = (received xs, w)

abbrev pub replay : Kernel
replay = record {
  World = List (List ℕ);
  socket = λ _ _ _ w. (pos 3, w);
  fcntl = λ _ _ _ w. (pos 0, w);
  bind = λ _ _ w. (pos 0, w);
  setsockopt = λ _ _ _ _ _ w. (pos 0, w);
  send = λ _ buf _ w. (pos (length buf), w);
  recv = λ _ _ _ w. given w;
  close = λ _ w. w;
  last_os_error = λ _. "Bad file descriptor";
  os_error_text = λ _. "Operation not permitted";
}

-- A socket of process 7 that counts its messages, before its fourth.
abbrev fourth : NlSocket
fourth = record { fd = 3; buffer = none; pid = some 7; seq = some 3 }

-- A message of that process, with no payload.
abbrev pub numbered : ℕ → ℕ → Nlmsghdr ℕ NlEmpty
numbered nl_seq nl_pid = record {
  nl_len = 16;
  nl_type = 20;
  nl_flags = [];
  nl_seq = nl_seq;
  nl_pid = nl_pid;
  nl_payload = nl_empty;
}

pub no_flags : [] ≡ flags_from nlm_f 16 0 0
unfolding flags_from from_value first_arm
no_flags = refl

abbrev pub no_flags-AreFlags : AreFlags nlm_f 16 []
no_flags-AreFlags = record { word = 0; word_fits = omega arith; split = no_flags }

pub numbered_3-IsValid : Header.IsValid (uint_laws 2) empty_laws (numbered 3 7)
numbered_3-IsValid = record {
  len_is_size = sym (Header.size_lem (uint_laws 2) empty_laws (numbered 3 7));
  len_fits = omega arith;
  type_IsValid = omega arith;
  flags_AreFlags = no_flags-AreFlags;
  seq_fits = omega arith;
  pid_fits = omega arith;
  payload_IsValid = tt;
}

pub numbered_4-IsValid : Header.IsValid (uint_laws 2) empty_laws (numbered 4 7)
numbered_4-IsValid = record {
  len_is_size = sym (Header.size_lem (uint_laws 2) empty_laws (numbered 4 7));
  len_fits = omega arith;
  type_IsValid = omega arith;
  flags_AreFlags = no_flags-AreFlags;
  seq_fits = omega arith;
  pid_fits = omega arith;
  payload_IsValid = tt;
}

foreign-IsValid : Header.IsValid (uint_laws 2) empty_laws (numbered 3 9)
foreign-IsValid = record {
  len_is_size = sym (Header.size_lem (uint_laws 2) empty_laws (numbered 3 9));
  len_fits = omega arith;
  type_IsValid = omega arith;
  flags_AreFlags = no_flags-AreFlags;
  seq_fits = omega arith;
  pid_fits = omega arith;
  payload_IsValid = tt;
}

abbrev host : List (List ℕ) → Host replay
host w = record { socket = fourth; world = w }

abbrev wire : Nlmsghdr ℕ NlEmpty → List ℕ
wire m = Header.bytes (uint_laws 2) empty_laws m

send_nl_lem_example :
    send_nl replay u16 empty (numbered 0 7) (host [])
    ≡ send_end replay (host []) (pos (length (wire (numbered 3 7)))) []
send_nl_lem_example =
    send_nl_lem (uint_laws 2) empty_laws replay (host []) (numbered 0 7)
      (pos (length (wire (numbered 3 7)))) [] tt
      (omega (arith, Header.size_lem (uint_laws 2) empty_laws (numbered 0 7))) (omega arith) refl

-- Bytes that are no message
recv_nl-Taken_example :
    Ensures
      (recv_nl replay u16 empty none)
      (host ((1 ∷ 2 ∷ []) ∷ []))
      (λ m h'. Taken replay (host ((1 ∷ 2 ∷ []) ∷ [])) h' m.nl_pid)
      (Kept replay (host ((1 ∷ 2 ∷ []) ∷ [])))
recv_nl-Taken_example = recv_nl-Taken replay u16 empty none (host ((1 ∷ 2 ∷ []) ∷ []))

abbrev pub two : List (Nlmsghdr ℕ NlEmpty)
two = numbered 3 7 ∷ numbered 4 7 ∷ []

recv_nl_in_order_example :
    repeat 2 (recv_nl replay u16 empty none) (host (frames (uint_laws 2) empty_laws two ∷ []))
    ≡ (ok two, with_queue replay (host []) none (some 7))
recv_nl_in_order_example =
    recv_nl_in_order replay (uint_laws 2) empty_laws none
      (host (frames (uint_laws 2) empty_laws two ∷ [])) (numbered 3 7) (numbered 4 7 ∷ []) []
      (some 7) refl (numbered_3-IsValid, (numbered_4-IsValid, tt))
      (some 7, (refl, refl), (some 7, (refl, refl), refl)) refl

abbrev alien : Host replay
alien = spent replay (uint_laws 2) empty_laws (host []) (numbered 3 9) []

recv_nl_refused_example :
    (recv_nl replay u16 empty none (host (wire (numbered 3 9) ∷ [])) ≡ (err bad_pid, alien))
    × ((recv_nl replay u16 empty none alien).0
        ≡ err (nl_of_de (de_of_io "failed to fill whole buffer")))
    × ((recv_nl replay u16 empty none alien).1.world ≡ [])
recv_nl_refused_example =
    recv_nl_refused replay (uint_laws 2) empty_laws none (host (wire (numbered 3 9) ∷ []))
      (numbered 3 9) 6 [] refl refl (λ e. absurd (omega (arith, e))) foreign-IsValid refl

-- The answer to the message 3, with the header of a request of the type 16 and of 32 bytes: with the
-- error number 0, an ack.
abbrev pub answer : ℕ → Answer
answer number = record {
  nl_len = 36;
  nl_type = Nlmsg.error;
  nl_flags = [];
  nl_seq = 3;
  nl_pid = 7;
  nl_payload = record {
    error = number;
    nlmsg = record {
      nl_len = 32;
      nl_type = Nlmsg.unrecognized_variant 16;
      nl_flags = [];
      nl_seq = 3;
      nl_pid = 7;
      nl_payload = nl_empty;
    };
  };
}

pub error_fits : from_value nlmsg 2 ≡ Nlmsg.error
unfolding from_value first_arm
error_fits = refl

request_fits : from_value nlmsg 16 ≡ Nlmsg.unrecognized_variant 16
unfolding from_value first_arm
request_fits = refl

pub answer-IsAnswer : (number : ℕ) → number < 2 ^ 32 → IsAnswer (answer number)
answer-IsAnswer number fits = record {
  header_IsHeader = record {
    len_covers = omega arith;
    len_fits = omega arith;
    type_IsValid = (omega arith, error_fits);
    flags_AreFlags = no_flags-AreFlags;
    seq_fits = omega arith;
    pid_fits = omega arith;
  };
  payload_IsValid = record {
    error_fits = fits;
    nlmsg_IsHeader = record {
      len_covers = omega arith;
      len_fits = omega arith;
      type_IsValid = (omega arith, request_fits);
      flags_AreFlags = no_flags-AreFlags;
      seq_fits = omega arith;
      pid_fits = omega arith;
    };
  };
}

abbrev pub wire_ack : List ℕ
wire_ack = Acks.wire (answer 0)

-- A socket before those bytes.
abbrev before : List ℕ → Host replay
before held = record {
  socket = record fourth { buffer = some (little.reader [] held none) };
  world = [];
}

-- The ack, and one more.
recv_ack-IsAck_example :
    recv_ack replay (before (wire_ack ++ wire_ack))
    ≡ (ok tt, with_queue replay (before []) (remaining replay wire_ack wire_ack (some 16)) (some 7))
recv_ack-IsAck_example =
    recv_ack-IsAck replay (before (wire_ack ++ wire_ack)) [] wire_ack none (answer 0) (some 7) refl
      (answer-IsAnswer 0 (omega arith)) (refl, refl) (refl, refl)

-- The answer -1, EPERM, which the payload of the request follows.
abbrev refused : List ℕ
refused = Acks.wire (answer 4294967295)

abbrev repeated : List ℕ
repeated = 3 ∷ 2 ∷ 0 ∷ 0 ∷ 5 ∷ 0 ∷ 2 ∷ 0 ∷ 110 ∷ 0 ∷ 0 ∷ 0 ∷ 0 ∷ 0 ∷ 0 ∷ 0 ∷ []

recv_ack_refuses_example : recv_ack replay (before (refused ++ repeated)) ≡ (
  err (msg "Operation not permitted"),
  with_queue replay (before []) (put_back replay refused repeated (some 16)) (some 7),
)
recv_ack_refuses_example =
    recv_ack_refuses replay (before (refused ++ repeated)) [] repeated none (answer 4294967295)
      (some 7) refl (answer-IsAnswer 4294967295 (omega arith)) (refl, refl)
      (λ e. absurd (omega (arith, e.1)))

recv_ack-send_nl_example :
    (recv_ack replay (send_nl replay u16 empty (numbered 0 7) (host (wire_ack ∷ []))).1).0
    ≡ err bad_seq
recv_ack-send_nl_example =
    recv_ack-send_nl (uint_laws 2) empty_laws replay (host (wire_ack ∷ [])) (numbered 0 7) 3
      (length (wire (numbered 3 7))) (wire_ack ∷ []) [] (answer 0) (some 7) refl refl (omega arith)
      tt (omega (arith, Header.size_lem (uint_laws 2) empty_laws (numbered 0 7))) refl
      (answer-IsAnswer 0 (omega arith)) (refl, refl) (refl, refl) refl refl

-- A message that is sent, a wait for its ack, and an `increment_seq`.
abbrev waited : Host replay
waited = (recv_ack replay (after_send replay (host []) [])).1

Run-Since_example :
    Since replay (host []) 1 (record waited { socket = (increment_seq waited.socket).1 })
Run-Since_example = Run-Since replay (host []) 1 _ (
    incremented
      (acknowledged (sent u16 empty (numbered 0 7) (start (host [])) send_nl_lem_example)))
