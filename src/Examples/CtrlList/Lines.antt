-- ===== src/Examples/CtrlList/Lines.antt =====
-- examples/ctrl-list.rs: the lines that the attributes of a response stand for, and that are printed.
use neli.Base.{ℕ, ◌-◌, ◌^◌, ◌<◌, ◌≡◌, refl, arith, le→leb}
use neli.Base.{none, List, [], ◌∷◌, ◌++◌, length, append_assoc, append-nil}
use neli.Base.{length-append}
use neli.Outcome.{ok, ◌>>=◌}
use neli.Buffering.{Buffering}
use neli.Nl.Uint.{Reads-uint}
use neli.Nl.Text.Laws.{IsText, Reads-string_cut}
use neli.Consts.Attrs.{CtrlAttr}
use neli.Nlattr.{Nlattr}
use neli.Kernel.{Kernel}
use neli.Examples.{Session}
use neli.Examples.CtrlList.{Line, name, id, Response, print_name, print_id, print_attr, print_attrs}

module _ ⦃b : Buffering⦄ where
  -- The lines that an attribute stands for: the name that is before the last byte of a `FamilyName`,
  -- and the number in the first two bytes of a `FamilyId`.
  abbrev pub Stands : CtrlAttr → List ℕ → List Line → Type 0
  Stands CtrlAttr.family_name payload lines =
      (s : List ℕ) × IsText s × (last : ℕ) × (payload ≡ s ++ (last ∷ [])) × (lines ≡ name s ∷ [])
  Stands CtrlAttr.family_id payload lines =
      (v : ℕ) × (v < 2 ^ 16)
      × (rest : List ℕ) × (payload ≡ b.encode 2 v ++ rest)
      × (lines ≡ id v ∷ [])
  Stands other payload lines = lines ≡ []

  abbrev pub StandAll : List (Nlattr CtrlAttr (List ℕ)) → List Line → Type 0
  StandAll [] lines = lines ≡ []
  StandAll (attr ∷ attrs) lines =
      (here later : List Line) × Stands attr.nla_type attr.payload here
      × StandAll attrs later
      × (lines ≡ here ++ later)

  -- The lines that the responses stand for.
  abbrev pub Describe : List Response → List Line → Type 0
  Describe [] lines = lines ≡ []
  Describe (m ∷ ms) lines =
      (here later : List Line) × StandAll m.nl_payload.attrs here
      × Describe ms later
      × (lines ≡ here ++ later)

module _ ⦃b : Buffering⦄ (k : Kernel) where
  abbrev pub printing : List Line → Session k Line → Session k Line
  printing lines s = record s { printed = s.printed ++ lines }

  print_name_lem :
      (s : List ℕ) (last : ℕ) (q : Session k Line)
      → IsText s
      → print_name k (s ++ (last ∷ [])) q ≡ (ok tt, printing (name s ∷ []) q)
  unfolding ◌>>=◌
  print_name_lem s last q v =
      let xs = s ++ (last ∷ []) in
      let cut : length xs - 1 ≡ length s = omega (arith, length-append s (last ∷ [])) in
      let full = le→leb 1 (length xs) (omega (arith, length-append s (last ∷ []))) in
      let read = (Reads-string_cut s v).at [] (last ∷ []) in
      rw (full, cut, b.new_read_lem xs, b.set_size_hint_lem [] xs none (length s)) (rw read refl)

  print_id_lem :
      (v : ℕ) (rest : List ℕ) (q : Session k Line)
      → v < 2 ^ 16
      → print_id k (b.encode 2 v ++ rest) q ≡ (ok tt, printing (id v ∷ []) q)
  unfolding ◌>>=◌
  print_id_lem v rest q fits =
      let read = (Reads-uint 2 v none fits).at [] rest in
      rw (b.new_read_lem (b.encode 2 v ++ rest)) (rw read refl)

  print_attr_lem :
      (ty : CtrlAttr) (payload : List ℕ) (lines : List Line) (q : Session k Line)
      → Stands ty payload lines
      → print_attr k ty payload q ≡ (ok tt, printing lines q)
  print_attr_lem CtrlAttr.family_name payload lines q (s, v, last, same, shown) =
      rw (same, shown) (print_name_lem s last q v)
  print_attr_lem CtrlAttr.family_id payload lines q (v, fits, rest, same, shown) =
      rw (same, shown) (print_id_lem v rest q fits)
  print_attr_lem other payload lines q nothing = rw (nothing, append-nil) refl

  pub print_attrs_lem :
      (attrs : List (Nlattr CtrlAttr (List ℕ))) (lines : List Line) (q : Session k Line)
      → StandAll attrs lines
      → print_attrs k attrs q ≡ (ok tt, printing lines q)
  unfolding print_attrs ◌>>=◌
  print_attrs_lem [] lines q nothing = rw (nothing, append-nil) refl
  print_attrs_lem (attr ∷ attrs) lines q (here, later, stands, others, same) =
      rw (same, ← append_assoc q.printed here later)
        (rw (print_attr_lem attr.nla_type attr.payload here q stands)
          (print_attrs_lem attrs later (printing here q) others))
