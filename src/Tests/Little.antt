-- ===== src/Tests/Little.antt =====
-- The parameters at concrete values: buffers that are a list before the position and one after it,
-- little-endian integers, and the constants of `libc` that the runs use.
use neli.Base.{ℕ, zero, suc, ◌+◌, ◌*◌, ◌/◌, ◌%◌, ◌^◌, ◌<◌, ◌≡◌, refl, ap, arith}
use neli.Base.{
  leb, le→leb, lt→leb_false, if◌then◌else◌, Bool, true, false, Option, none, some, String,
}
use neli.Base.{
  List, [], ◌∷◌, ◌++◌, length, length-append, take, drop, take-append_length, drop-append_length,
}
use neli.Outcome.{Result, ok, err}
use neli.Err.{IoError}
use neli.Buffering.{Libc, Buffering, All, IsByte}
use native.Mathlib.Nat.{pow-suc}
use text.Mathlib.Text.{◌==◌ as str_eq}

pub record Cursor : Type 0 where
  pub front : List ℕ
  pub rest : List ℕ
  pub hint : Option ℕ

unfoldable pub encode : ℕ → ℕ → List ℕ
encode zero v = []
encode (suc w) v = (v % 256) ∷ encode w (v / 256)

unfoldable pub decode : List ℕ → ℕ
decode [] = 0
decode (x ∷ xs) = x + 256 * decode xs

pub length-encode : (w v : ℕ) → length (encode w v) ≡ w
unfolding encode
length-encode zero v = refl
length-encode (suc w) v = ap suc (length-encode w (v / 256))

pub decode-encode : (w v : ℕ) → v < 256 ^ w → decode (encode w v) ≡ v
unfolding encode decode
decode-encode zero v h = omega arith
decode-encode (suc w) v h =
    rw (decode-encode w (v / 256) (omega (arith, pow-suc 256 w))) (omega arith)

pub encode-decode : (xs : List ℕ) → All IsByte xs → encode (length xs) (decode xs) ≡ xs
unfolding encode decode
encode-decode [] v = refl
encode-decode (x ∷ xs) (vx, vs) =
    let low : (x + 256 * decode xs) % 256 ≡ x = omega arith in
    let high : (x + 256 * decode xs) / 256 ≡ decode xs = omega arith in
    rw (low, high) (ap (λ l. x ∷ l) (encode-decode xs vs))

pub decode-lt : (xs : List ℕ) → All IsByte xs → decode xs < 256 ^ length xs
unfolding decode
decode-lt [] v = omega arith
decode-lt (x ∷ xs) (vx, vs) = omega (arith, decode-lt xs vs, pow-suc 256 (length xs))

abbrev eof : IoError
eof = "failed to fill whole buffer"

unfoldable pub read_exact : ℕ → Cursor → Result IoError (List ℕ) × Cursor
read_exact n m =
    if leb n (length m.rest)
    then (ok (take n m.rest), record m { front = m.front ++ take n m.rest; rest = drop n m.rest })
    else (err eof, m)

unfoldable pub read_uint : ℕ → Cursor → Result IoError ℕ × Cursor
unfolding decode
read_uint n m =
    if leb n (length m.rest)
    then (
      ok (decode (take n m.rest)),
      record m { front = m.front ++ take n m.rest; rest = drop n m.rest },
    )
    else (err eof, m)

abbrev cursor : List ℕ → List ℕ → Option ℕ → Cursor
cursor f r h = record { front = f; rest = r; hint = h }

enough : (xs r : List ℕ) → leb (length xs) (length (xs ++ r)) ≡ true
enough xs r = le→leb (length xs) (length (xs ++ r)) (omega (arith, length-append xs r))

pub read_exact_lem :
    (xs f r : List ℕ) (h : Option ℕ)
    → read_exact (length xs) (cursor f (xs ++ r) h) ≡ (ok xs, cursor (f ++ xs) r h)
unfolding read_exact
read_exact_lem xs f r h = rw (enough xs r) (rw (take-append_length xs r, drop-append_length xs r))

pub read_uint_lem :
    (xs f r : List ℕ) (h : Option ℕ)
    → read_uint (length xs) (cursor f (xs ++ r) h) ≡ (ok (decode xs), cursor (f ++ xs) r h)
unfolding read_uint
read_uint_lem xs f r h = rw (enough xs r) (rw (take-append_length xs r, drop-append_length xs r))

pub read_exact_short :
    (n : ℕ) (f r : List ℕ) (h : Option ℕ) → length r < n → (read_exact n (cursor f r h)).0 ≡ err eof
unfolding read_exact
read_exact_short n f r h short = rw (lt→leb_false n (length r) short)

pub read_uint_short :
    (n : ℕ) (f r : List ℕ) (h : Option ℕ) → length r < n → (read_uint n (cursor f r h)).0 ≡ err eof
unfolding read_uint
read_uint_short n f r h short = rw (lt→leb_false n (length r) short)

abbrev is_empty : List ℕ → Bool
is_empty [] = true
is_empty (x ∷ xs) = false

abbrev put : List ℕ → Cursor → Cursor
put xs m = record m { front = m.front ++ xs; rest = drop (length xs) m.rest }

pub write_uint_lem :
    (w v : ℕ) (f r : List ℕ) (h : Option ℕ)
    → put (encode w v) (cursor f r h) ≡ cursor (f ++ encode w v) (drop w r) h
write_uint_lem w v f r h = ap (λ n. cursor (f ++ encode w v) (drop n r) h) (length-encode w v)

instance abbrev pub little : Buffering
little = record {
  ReadBuffer = Cursor;
  WriteBuffer = Cursor;
  new_read = λ xs. cursor [] xs none;
  set_size_hint = λ n m. record m { hint = some n };
  take_size_hint = λ m. (m.hint, record m { hint = none });
  at_end = λ m. is_empty m.rest;
  rewind = λ m. record m { front = []; rest = m.front ++ m.rest };
  left = λ m. length m.rest;
  read = λ n m.
      (ok (take n m.rest), record m { front = m.front ++ take n m.rest; rest = drop n m.rest });
  read_exact = read_exact;
  read_to_end = λ m. (ok m.rest, record m { front = m.front ++ m.rest; rest = [] });
  read_uint = read_uint;
  new_growable = λ capacity. cursor [] [] none;
  new_growable_ref = λ xs. cursor [] xs none;
  set_position =
      λ n m. record m { front = take n (m.front ++ m.rest); rest = drop n (m.front ++ m.rest) };
  contents = λ m. m.front ++ m.rest;
  take_write_hint = λ m. (m.hint, record m { hint = none });
  write = λ xs m. (ok (length xs), put xs m);
  write_all = λ xs m. (ok tt, put xs m);
  write_uint = λ w v m. (ok tt, put (encode w v) m);
  encode = encode;
  decode = decode;
  length-encode = length-encode;
  decode-encode = decode-encode;
  encode-decode = encode-decode;
  decode-lt = decode-lt;
  reader = cursor;
  writer = cursor;
  new_read_lem = λ xs. refl;
  set_size_hint_lem = λ f r h n. refl;
  take_size_hint_lem = λ f r h. refl;
  at_end_nil = λ f h. refl;
  at_end_cons = λ f r x h. refl;
  rewind_lem = λ f r h. refl;
  left_lem = λ f r h. refl;
  read_lem = λ n f r h. refl;
  read_exact_lem = read_exact_lem;
  read_to_end_lem = λ f r h. refl;
  read_uint_lem = read_uint_lem;
  eof = eof;
  read_exact_short = read_exact_short;
  read_uint_short = read_uint_short;
  new_growable_lem = λ capacity. refl;
  new_growable_ref_lem = λ xs. refl;
  set_position_lem = λ n f r h _. refl;
  contents_lem = λ f r h. refl;
  take_write_hint_lem = λ f r h. refl;
  write_lem = λ xs f r h. refl;
  write_all_lem = λ xs f r h. refl;
  write_uint_lem = λ w v f r h i. (ok tt, write_uint_lem w v f r h i);
}

abbrev pub table : List (String × ℕ)
table =
    ("NLA_ALIGNTO", 4)
    ∷ ("NLMSG_NOOP", 1)
    ∷ ("NLMSG_ERROR", 2)
    ∷ ("NLMSG_DONE", 3)
    ∷ ("NLMSG_OVERRUN", 4)
    ∷ ("NLM_F_REQUEST", 1)
    ∷ ("NLM_F_MULTI", 2)
    ∷ ("NLM_F_ACK", 4)
    ∷ ("NLM_F_ECHO", 8)
    ∷ ("CTRL_CMD_GETFAMILY", 3)
    ∷ ("CTRL_CMD_NEWFAMILY", 1)
    ∷ ("CTRL_ATTR_FAMILY_ID", 1)
    ∷ ("CTRL_ATTR_FAMILY_NAME", 2)
    ∷ ("CTRL_ATTR_MCAST_GROUPS", 7)
    ∷ ("CTRL_ATTR_MCAST_GRP_NAME", 1)
    ∷ ("CTRL_ATTR_MCAST_GRP_ID", 2)
    ∷ ("GENL_ID_CTRL", 16)
    ∷ ("NDA_LLADDR", 2)
    ∷ ("TCA_KIND", 1)
    ∷ ("AF_INET", 2)
    ∷ ("ARPHRD_ETHER", 1)
    ∷ ("IFF_UP", 1)
    ∷ ("IFLA_MTU", 4)
    ∷ ("RT_TABLE_MAIN", 254)
    ∷ ("RTPROT_BOOT", 3)
    ∷ ("RTN_UNICAST", 1)
    ∷ ("RTA_OIF", 4)
    ∷ ("NFULA_PAYLOAD", 9)
    ∷ ("NFULA_PREFIX", 10)
    ∷ ("NFULA_UID", 11)
    ∷ ("NFULNL_COPY_PACKET", 2)
    ∷ []

abbrev pub value_in : String → List (String × ℕ) → ℕ
value_in name [] = 0
value_in name ((other, v) ∷ rest) = if str_eq other name then v else value_in name rest

instance abbrev pub linux : Libc
linux = record { constant = λ name. value_in name table; nla_alignto_four = refl }
