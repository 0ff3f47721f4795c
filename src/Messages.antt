-- ===== src/Messages.antt =====
-- src/util/msg.h, by the macros of src/util/msgimpl.h: the messages, their header, the responses,
-- and how each is read from a buffer and written to one, field by field.
pub mod RoundTrip
use bandchain_legacy.Common.{ℕ, ◌+◌, Option, none, some, List, [], ◌∷◌, ◌==◌, if◌then◌else◌}
use bandchain_legacy.Thrown.{Result, ok, err, runtime_error, ◌>>=◌}
use bandchain_legacy.Uint256.{CheckedUint}
use bandchain_legacy.Buffer.{Bytes, Reader, uint16, uint64, uint256, write_span, read_span}
use bandchain_legacy.Buffer.Values.{write_int, read_int}
use bandchain_legacy.Equation.{Eq, parse, dump}
use bandchain_legacy.Text.{write_text, read_ident, read_node_id}

pub data MsgType : Type 0 where
  create_account_type create_token_type mint_token_type transfer_token_type : MsgType
  buy_token_type sell_token_type add_wiki_edge_type remove_wiki_edge_type : MsgType

pub record GenesisMsg : Type 0 where
  pub account : Bytes
  pub verify_key : Bytes
  pub token : Bytes

pub record BlockMsg : Type 0 where
  pub height : ℕ
  pub timestamp : ℕ
  pub proposer : Bytes

pub record HeaderMsg : Type 0 where
  pub user : Bytes
  pub sig : Bytes
  pub nonce : ℕ
  pub hash : Bytes

-- The messages: `MintTokenMsg` is `mint_token`, and so on. A message's curve is never empty.
pub data Msg : Type 0 where
  create_account : (vk user : Bytes) → Msg
  create_token : (base_token created_token : Bytes) → Eq → Msg
  mint_token : (token : Bytes) → ℕ → Msg
  transfer_token : (token dest : Bytes) → ℕ → Msg
  buy_token : (token : Bytes) → ℕ → Msg
  sell_token : (token : Bytes) → ℕ → Msg
  add_wiki_edge : (subject predicate object label : Bytes) → Msg
  remove_wiki_edge : (subject predicate object label : Bytes) → Msg

-- `BuyTokenResponse` and `SellTokenResponse` have the same fields; the others have none.
pub data Response : Type 0 where
  no_response : Response
  traded : (base_token : Bytes) → ℕ → Response

-- The tag that a message is sent under.
unfoldable pub type_of : Msg → MsgType
type_of (create_account vk user) = create_account_type
type_of (create_token base created curve) = create_token_type
type_of (mint_token token value) = mint_token_type
type_of (transfer_token token dest value) = transfer_token_type
type_of (buy_token token value) = buy_token_type
type_of (sell_token token value) = sell_token_type
type_of (add_wiki_edge s p o l) = add_wiki_edge_type
type_of (remove_wiki_edge s p o l) = remove_wiki_edge_type

unfoldable pub type_integral : MsgType → ℕ
type_integral create_account_type = 0
type_integral create_token_type = 1
type_integral mint_token_type = 2
type_integral transfer_token_type = 3
type_integral buy_token_type = 4
type_integral sell_token_type = 5
type_integral add_wiki_edge_type = 6
type_integral remove_wiki_edge_type = 7

-- `MsgType::_from_integral`
unfoldable pub type_from_integral : ℕ → Result MsgType
type_from_integral v =
    if v == 0
    then ok create_account_type
    else if v == 1
    then ok create_token_type
    else if v == 2
    then ok mint_token_type
    else if v == 3
    then ok transfer_token_type
    else if v == 4
    then ok buy_token_type
    else if v == 5
    then ok sell_token_type
    else if v == 6
    then ok add_wiki_edge_type
    else if v == 7
    then ok remove_wiki_edge_type
    else err runtime_error

unfoldable pub write_type : Bytes → MsgType → Bytes
unfolding type_integral
write_type buf t = write_int buf (type_integral t)

unfoldable pub write_msg : Bytes → Msg → Bytes
write_msg buf (create_account vk user) = write_text (write_span buf vk) user
write_msg buf (create_token base created curve) =
    dump (write_text (write_text buf base) created) curve
write_msg buf (mint_token token value) = write_int (write_text buf token) value
write_msg buf (transfer_token token dest value) =
    write_int (write_text (write_text buf token) dest) value
write_msg buf (buy_token token value) = write_int (write_text buf token) value
write_msg buf (sell_token token value) = write_int (write_text buf token) value
write_msg buf (add_wiki_edge s p o l) =
    write_text (write_text (write_text (write_text buf s) p) o) l
write_msg buf (remove_wiki_edge s p o l) =
    write_text (write_text (write_text (write_text buf s) p) o) l

unfoldable pub write_response : Bytes → Response → Bytes
write_response buf no_response = buf
write_response buf (traded base amount) = write_int (write_text buf base) amount

module _ ⦃u : CheckedUint⦄ where
  unfoldable pub read_type : Reader MsgType
  unfolding type_from_integral
  read_type buf = do (v, rest) ← read_int uint16 buf; t ← type_from_integral v; ok (t, rest)

  -- The messages that are an identifier and an amount.
  unfoldable pub read_amount : (Bytes → ℕ → Msg) → Reader Msg
  read_amount make buf = do
    (token, rest) ← read_ident buf
    (value, rest') ← read_int uint256 rest
    ok (make token value, rest')

  -- The messages that are an edge of the graph.
  unfoldable pub read_edge : (Bytes → Bytes → Bytes → Bytes → Msg) → Reader Msg
  read_edge make buf = do
    (s, rest) ← read_node_id buf
    (p, rest') ← read_node_id rest
    (o, rest'') ← read_node_id rest'
    (l, rest''') ← read_node_id rest''
    ok (make s p o l, rest''')

  unfoldable pub read_msg : MsgType → Reader Msg
  unfolding read_amount read_edge
  read_msg create_account_type buf = do
    (vk, rest) ← read_span 32 buf
    (user, rest') ← read_ident rest
    ok (create_account vk user, rest')
  read_msg create_token_type buf = do
    (base, rest) ← read_ident buf
    (created, rest') ← read_ident rest
    (curve, rest'') ← parse rest'
    ok (create_token base created curve, rest'')
  read_msg mint_token_type buf = read_amount mint_token buf
  read_msg transfer_token_type buf = do
    (token, rest) ← read_ident buf
    (dest, rest') ← read_ident rest
    (value, rest'') ← read_int uint256 rest'
    ok (transfer_token token dest value, rest'')
  read_msg buy_token_type buf = read_amount buy_token buf
  read_msg sell_token_type buf = read_amount sell_token buf
  read_msg add_wiki_edge_type buf = read_edge add_wiki_edge buf
  read_msg remove_wiki_edge_type buf = read_edge remove_wiki_edge buf

  -- The response that a message of the type has.
  unfoldable pub read_response : MsgType → Reader Response
  read_response buy_token_type buf = do
    (base, rest) ← read_ident buf
    (amount, rest') ← read_int uint256 rest
    ok (traded base amount, rest')
  read_response sell_token_type buf = do
    (base, rest) ← read_ident buf
    (amount, rest') ← read_int uint256 rest
    ok (traded base amount, rest')
  read_response create_account_type buf = ok (no_response, buf)
  read_response create_token_type buf = ok (no_response, buf)
  read_response mint_token_type buf = ok (no_response, buf)
  read_response transfer_token_type buf = ok (no_response, buf)
  read_response add_wiki_edge_type buf = ok (no_response, buf)
  read_response remove_wiki_edge_type buf = ok (no_response, buf)

  -- `parseHeader` of src/listener/manager.cc: the header, the signed bytes, and what is left of
  -- the buffer. SHA-256 is an argument.
  unfoldable pub parse_header : (Bytes → Bytes) → Bytes → Result (HeaderMsg × Bytes × Bytes)
  parse_header sha256 raw = do
    (user, rest) ← read_ident raw
    (sig, data_) ← read_span 64 rest
    (nonce, buf) ← read_int uint64 data_
    ok (record { user = user; sig = sig; nonce = nonce; hash = sha256 raw }, data_, buf)
