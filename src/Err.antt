-- ===== src/Err.antt =====
-- src/err.rs: the error types. An `io::Error` is known by the text it displays, which is all that
-- the conversions of `try_err_compat!` keep of it.
use neli.Base.{String}

abbrev pub IoError : Type 0
IoError = String

pub data SerError : Type 0 where
  ser_error : String → SerError

pub data DeError : Type 0 where
  de_error : String → DeError

-- `From<io::Error>`, by `try_err_compat!`
abbrev pub ser_of_io : IoError → SerError
ser_of_io e = ser_error e

abbrev pub de_of_io : IoError → DeError
de_of_io e = de_error e

pub data NlError : Type 0 where
  msg : String → NlError
  no_ack bad_seq bad_pid : NlError

abbrev pub nl_of_io : IoError → NlError
nl_of_io e = msg e

-- `Display` of each error type
abbrev pub display_ser : SerError → String
display_ser (ser_error s) = s

abbrev pub display_de : DeError → String
display_de (de_error s) = s

abbrev pub display_nl : NlError → String
display_nl (msg s) = s
display_nl no_ack = "No ack received"
display_nl bad_seq = "Sequence number does not match the request"
display_nl bad_pid = "PID does not match the socket"

abbrev pub nl_of_ser : SerError → NlError
nl_of_ser e = msg (display_ser e)

abbrev pub nl_of_de : DeError → NlError
nl_of_de e = msg (display_de e)

-- `Error::description` of each error type
abbrev pub description_ser : SerError → String
description_ser (ser_error s) = s

abbrev pub description_de : DeError → String
description_de (de_error s) = s

abbrev pub description_nl : NlError → String
description_nl (msg s) = s
description_nl no_ack = "No ack received"
description_nl bad_seq = "Sequence number does not match the request"
description_nl bad_pid = "PID does not match the socket"
