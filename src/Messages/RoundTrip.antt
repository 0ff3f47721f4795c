-- ===== src/Messages/RoundTrip.antt =====
-- Messages of src/util/msg.h, written and read again.
use bandchain_legacy.Common.{
  ℕ, ◌<◌, ◌^◌, ◌≡◌, refl, ap, ◌++◌, [], append_assoc, length, length-append, ◌%◌, arith,
}
use bandchain_legacy.Thrown.{ok}
use bandchain_legacy.Uint256.{CheckedUint, u256_mod}
use bandchain_legacy.Buffer.{Bytes, bits_of, uint16, uint256, write_span}
use bandchain_legacy.Buffer.Values.{write_int, write_string, read_int}
use bandchain_legacy.Buffer.ValuesRoundTrip.{
  write_int-append, read_int-write_int, read_span-append, length-write_int_pos,
}
use bandchain_legacy.Equation.{
  Eq, binary, constant, var, constant_code, variable_code, binary_code, to_integral, dump,
}
use bandchain_legacy.Equation.RoundTrip
use bandchain_legacy.Equation.RoundTrip.{parse-dump, dump-append}
use bandchain_legacy.Text.{sensitive, in_sensitive, write_text, read_ident, read_node_id}
use bandchain_legacy.Text.Validate.{IsText, read_text-write_text, write_text-append}
use bandchain_legacy.Messages.{
  Msg, MsgType, create_account, create_token, mint_token, transfer_token, buy_token, sell_token,
  add_wiki_edge, remove_wiki_edge, type_of, type_integral, type_from_integral, write_type,
  read_type, write_msg, read_amount, read_edge, read_msg,
}

-- The values that the fields of the types hold.
abbrev pub IsIdent : Bytes → Type 0
IsIdent = IsText 20 in_sensitive

abbrev pub IsNodeId : Bytes → Type 0
IsNodeId = IsText 128 sensitive

-- A message whose fields hold values of their types.
abbrev pub IsMsg : Msg → Type 0
IsMsg (create_account vk user) = (length vk ≡ 32) × IsIdent user
IsMsg (create_token base created curve) = IsIdent base × IsIdent created × RoundTrip.Fits curve
IsMsg (mint_token token value) = IsIdent token × (value < u256_mod)
IsMsg (transfer_token token dest value) = IsIdent token × IsIdent dest × (value < u256_mod)
IsMsg (buy_token token value) = IsIdent token × (value < u256_mod)
IsMsg (sell_token token value) = IsIdent token × (value < u256_mod)
IsMsg (add_wiki_edge s p o l) = IsNodeId s × IsNodeId p × IsNodeId o × IsNodeId l
IsMsg (remove_wiki_edge s p o l) = IsNodeId s × IsNodeId p × IsNodeId o × IsNodeId l

-- An empty string is read only where something is behind it: a message that ends in a string ends in
-- one that is not empty, or something follows the message.
abbrev pub HasEnd : Msg → Bytes → Type 0
HasEnd (create_account vk user) rest = 0 < length (user ++ rest)
HasEnd (create_token base created curve) rest = Unit
HasEnd (mint_token token value) rest = Unit
HasEnd (transfer_token token dest value) rest = Unit
HasEnd (buy_token token value) rest = Unit
HasEnd (sell_token token value) rest = Unit
HasEnd (add_wiki_edge s p o l) rest = 0 < length (l ++ rest)
HasEnd (remove_wiki_edge s p o l) rest = 0 < length (l ++ rest)

-- Something that is written is behind a string.
before_int : (s rest : Bytes) (v : ℕ) → 0 < length (s ++ (write_int [] v ++ rest))
before_int s rest v = omega (
  arith,
  length-append s (write_int [] v ++ rest),
  length-append (write_int [] v) rest,
  length-write_int_pos v,
)

before_text : (s t rest : Bytes) → 0 < length (s ++ (write_text [] t ++ rest))
unfolding write_text write_string write_span
before_text s t rest = omega (
  arith,
  length-append s (write_text [] t ++ rest),
  length-append (write_text [] t) rest,
  length-append (write_int [] (length t % 2 ^ 64)) t,
  length-write_int_pos (length t % 2 ^ 64),
)

-- A field that is written behind others.
int_after :
    (buf : Bytes) (v : ℕ) (rest : Bytes) → write_int buf v ++ rest ≡ buf ++ (write_int [] v ++ rest)
int_after buf v rest = rw (write_int-append buf v) (append_assoc buf (write_int [] v) rest)

module _ ⦃u : CheckedUint⦄ where
  text_after : (buf s rest : Bytes) → write_text buf s ++ rest ≡ buf ++ (write_text [] s ++ rest)
  text_after buf s rest =
      rw (write_text-append 20 in_sensitive buf s) (append_assoc buf (write_text [] s) rest)

  eq_after : (buf : Bytes) (e : Eq) (rest : Bytes) → dump buf e ++ rest ≡ buf ++ (dump [] e ++ rest)
  eq_after buf e rest = rw (dump-append buf e) (append_assoc buf (dump [] e) rest)

  read_ident_lem :
      (s rest : Bytes)
      → IsIdent s
      → 0 < length (s ++ rest)
      → read_ident (write_text [] s ++ rest) ≡ ok (s, rest)
  unfolding read_ident
  read_ident_lem s rest h end =
      read_text-write_text 20 in_sensitive s rest (h, omega (arith, h.0)) end

  read_node_id_lem :
      (s rest : Bytes)
      → IsNodeId s
      → 0 < length (s ++ rest)
      → read_node_id (write_text [] s ++ rest) ≡ ok (s, rest)
  unfolding read_node_id
  read_node_id_lem s rest h end =
      read_text-write_text 128 sensitive s rest (h, omega (arith, h.0)) end

  dump_some : (buf : Bytes) (e : Eq) → 0 < length (dump buf e)
  unfolding dump
  dump_some buf (binary op l r) =
      dump_some (dump (write_int buf (to_integral (binary_code op))) l) r
  dump_some buf (constant n) = omega (
    arith,
    ap length (write_int-append (write_int buf (to_integral constant_code)) n),
    length-append (write_int buf (to_integral constant_code)) (write_int [] n),
    length-write_int_pos n,
  )
  dump_some buf var = omega (
    arith,
    ap length (write_int-append buf (to_integral variable_code)),
    length-append buf (write_int [] (to_integral variable_code)),
    length-write_int_pos (to_integral variable_code),
  )

  before_dump : (s rest : Bytes) (e : Eq) → 0 < length (s ++ (dump [] e ++ rest))
  before_dump s rest e =
      omega
        (arith, length-append s (dump [] e ++ rest), length-append (dump [] e) rest, dump_some [] e)

  read_value_lem :
      (v : ℕ) (rest : Bytes)
      → v < u256_mod
      → read_int uint256 (write_int [] v ++ rest) ≡ ok (v, rest)
  unfolding bits_of
  read_value_lem v rest h = read_int-write_int uint256 v rest h

  read_amount_lem :
      (make : Bytes → ℕ → Msg) (token : Bytes) (value : ℕ) (rest : Bytes)
      → IsIdent token
      → value < u256_mod
      → read_amount make (write_int (write_text [] token) value ++ rest)
        ≡ ok (make token value, rest)
  unfolding read_amount
  read_amount_lem make token value rest ht hv =
      rw
        (
          int_after (write_text [] token) value rest,
          read_ident_lem token (write_int [] value ++ rest) ht (before_int token rest value),
          read_value_lem value rest hv,
        )
        refl

  read_edge_lem :
      (make : Bytes → Bytes → Bytes → Bytes → Msg) (s p o l rest : Bytes)
      → IsNodeId s
      → IsNodeId p
      → IsNodeId o
      → IsNodeId l
      → 0 < length (l ++ rest)
      → read_edge make (write_text (write_text (write_text (write_text [] s) p) o) l ++ rest)
        ≡ ok (make s p o l, rest)
  unfolding read_edge
  read_edge_lem make s p o l rest hs hp ho hl end =
      let l' = write_text [] l ++ rest in
      let o' = write_text [] o ++ l' in
      rw
        (
          text_after (write_text (write_text (write_text [] s) p) o) l rest,
          text_after (write_text (write_text [] s) p) o l',
          text_after (write_text [] s) p o',
          read_node_id_lem s (write_text [] p ++ o') hs (before_text s p o'),
          read_node_id_lem p o' hp (before_text p o l'),
          read_node_id_lem o l' ho (before_text o l rest),
          read_node_id_lem l rest hl end,
        )
        refl

  -- A message whose fields hold values of their types, and which, where its last field is a
  -- string, ends in one that is not empty or has a byte behind it, is read back, under its own
  -- tag, from the bytes that it was written as, and whatever follows them is left.
  pub read_msg-write_msg :
      (m : Msg) (rest : Bytes)
      → IsMsg m
      → HasEnd m rest
      → read_msg (type_of m) (write_msg [] m ++ rest) ≡ ok (m, rest)
  unfolding read_msg write_msg type_of write_span
  read_msg-write_msg (create_account vk user) rest (hv, hu) end =
      rw
        (
          text_after vk user rest,
          ← hv,
          read_span-append vk (write_text [] user ++ rest) (before_text vk user rest),
          read_ident_lem user rest hu end,
        )
        refl
  read_msg-write_msg (create_token base created curve) rest (hb, hc, he) end =
      let curve' = dump [] curve ++ rest in
      rw
        (
          eq_after (write_text (write_text [] base) created) curve rest,
          text_after (write_text [] base) created curve',
          read_ident_lem base (write_text [] created ++ curve') hb
              (before_text base created curve'),
          read_ident_lem created curve' hc (before_dump created rest curve),
          parse-dump curve rest he,
        )
        refl
  read_msg-write_msg (mint_token token value) rest (ht, hv) end =
      read_amount_lem mint_token token value rest ht hv
  read_msg-write_msg (transfer_token token dest value) rest (ht, hd, hv) end =
      let value' = write_int [] value ++ rest in
      rw
        (
          int_after (write_text (write_text [] token) dest) value rest,
          text_after (write_text [] token) dest value',
          read_ident_lem token (write_text [] dest ++ value') ht (before_text token dest value'),
          read_ident_lem dest value' hd (before_int dest rest value),
          read_value_lem value rest hv,
        )
        refl
  read_msg-write_msg (buy_token token value) rest (ht, hv) end =
      read_amount_lem buy_token token value rest ht hv
  read_msg-write_msg (sell_token token value) rest (ht, hv) end =
      read_amount_lem sell_token token value rest ht hv
  read_msg-write_msg (add_wiki_edge s p o l) rest (hs, hp, ho, hl) end =
      read_edge_lem add_wiki_edge s p o l rest hs hp ho hl end
  read_msg-write_msg (remove_wiki_edge s p o l) rest (hs, hp, ho, hl) end =
      read_edge_lem remove_wiki_edge s p o l rest hs hp ho hl end

  -- The type of a message is read back from its tag, and whatever follows it is left.
  pub read_type-write_type :
      (t : MsgType) (rest : Bytes) → read_type (write_type [] t ++ rest) ≡ ok (t, rest)
  unfolding read_type write_type bits_of type_integral type_from_integral
  read_type-write_type t rest =
      rw (read_int-write_int uint16 (type_integral t) rest (small t), back t) refl
    where
      small : (t : MsgType) → type_integral t < 2 ^ 16
      small t = ground arith

      back : (t : MsgType) → type_from_integral (type_integral t) ≡ ok t
      back t = ground arith
