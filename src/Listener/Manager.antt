-- ===== src/Listener/Manager.antt =====
-- src/listener/manager.h and src/listener/manager.cc: the manager hands blocks and transactions to
-- the primary listener, if there is one, and then to every other listener.
use bandchain_legacy.Common.{ℕ, zero, suc, ◌+◌, Option, none, some, List, [], ◌∷◌, ◌++◌, codes}
use bandchain_legacy.Thrown
use bandchain_legacy.Thrown.{Result, ok, err, failure}
use bandchain_legacy.Uint256.{CheckedUint}
use bandchain_legacy.Buffer.{Bytes}
use bandchain_legacy.Buffer.Codec.{raw_string}
use bandchain_legacy.Text.{in_sensitive, validate}
use bandchain_legacy.Messages.{
  GenesisMsg, BlockMsg, HeaderMsg, Msg, MsgType, Response, read_type, read_msg, read_response,
  write_response, parse_header,
}
use bandchain_legacy.Ledger.Action.{Action, ◌>>=◌, ◌>>◌, pure, lift, modify}
use bandchain_legacy.Ledger.Storage.{Storage}
use bandchain_legacy.Listener.Primary
use bandchain_legacy.Listener.Primary.{check, apply}

-- `BaseListener` of src/listener/base.h: what a listener with state `L` does.
pub record BaseListener (L : Type 0) : Type 0 where
  pub init : GenesisMsg → Action L (Unit {0})
  pub begin : BlockMsg → Action L (Unit {0})
  pub commit : BlockMsg → Action L (Unit {0})
  pub handle : BlockMsg → HeaderMsg → Msg → Response → Action L (Unit {0})

-- `primary` is the storage of the primary listener, or the null pointer.
pub record ListenerManager (L : Type 0) : Type 0 where
  pub primary : Option Storage
  pub listeners : List L
  pub block : BlockMsg

module _ {L : Type 0} where
  -- The loop over the listeners, which the first exception ends.
  abbrev continue_each :
      Result (Unit {0}) × List L → List L → Result (Unit {0}) × L → Result (Unit {0}) × List L
  continue_each rest ls (ok v, l) = (rest.0, l ∷ rest.1)
  continue_each rest ls (err e, l) = (err e, l ∷ ls)

  unfoldable pub each : Action L (Unit {0}) → Action (List L) (Unit {0})
  each f [] = (ok tt, [])
  each f (l ∷ ls) = let rest = each f ls in continue_each rest ls (f l)

  unfoldable pub each_listener : Action L (Unit {0}) → Action (ListenerManager L) (Unit {0})
  unfolding each
  each_listener f m = let p = each f m.listeners in (p.0, record m { listeners = p.1 })

  -- What is done on the primary listener, and what is done where there is none.
  abbrev pub at_primary :
      {A : Type 0}
      → Action Storage A
      → Result A
      → ListenerManager L
      → Option Storage
      → Result A × ListenerManager L
  at_primary f other m none = (other, m)
  at_primary f other m (some s) = ((f s).0, record m { primary = some (f s).1 })

  unfoldable pub with_primary :
      {A : Type 0} → Action Storage A → Result A → Action (ListenerManager L) A
  with_primary f other m = at_primary f other m m.primary

  abbrev current_block : Action (ListenerManager L) BlockMsg
  current_block m = (ok m.block, m)

  -- `setPrimary`
  unfoldable pub set_primary : Storage → Action (ListenerManager L) (Unit {0})
  set_primary s m = elim m.primary [
    | none ↦ (ok tt, record m { primary = some s })
    | some _ ↦ (err failure, m)
  ]

  -- `addListener`: a listener of the other kind is no primary one.
  unfoldable pub add_listener : L → Action (ListenerManager L) (Unit {0})
  add_listener l = modify (λ m. record m { listeners = m.listeners ++ l ∷ [] })

  -- `endBlock`
  unfoldable pub end_block : Action (ListenerManager L) (Unit {0})
  unfolding with_primary
  end_block = with_primary (pure tt) (err failure)

abbrev zero_bytes : ℕ → Bytes
zero_bytes zero = []
zero_bytes (suc n) = 0 ∷ zero_bytes n

abbrev genesis_of : Bytes → Bytes → GenesisMsg
genesis_of account token = record { account = account; verify_key = zero_bytes 32; token = token }

-- The block that `beginBlock` makes: its height is counted from that of an empty one, and its
-- proposer stays the zero address.
abbrev pub next_block : ℕ → BlockMsg
next_block timestamp = record { height = 0 + 1; timestamp = timestamp; proposer = zero_bytes 20 }

module _ ⦃u : CheckedUint⦄ {L : Type 0} (base : BaseListener L) where
  unfoldable pub init_chain : Action (ListenerManager L) (Unit {0})
  unfolding each_listener with_primary
  init_chain = do
    account ← lift (validate 20 in_sensitive (codes "BandGod"))
    token ← lift (validate 20 in_sensitive (codes "Band"))
    let genesis = genesis_of account token
    with_primary (Primary.init genesis) (ok tt)
    each_listener (base.init genesis)

  -- `beginBlock`
  unfoldable pub begin_block : ℕ → Action (ListenerManager L) (Unit {0})
  unfolding each_listener with_primary
  begin_block timestamp = do
    let block = next_block timestamp
    modify (λ m. record m { block = block })
    with_primary Primary.begin (ok tt)
    each_listener (base.begin block)

  unfoldable pub commit_block : Action (ListenerManager L) (Unit {0})
  unfolding each_listener with_primary
  commit_block = do
    with_primary Primary.commit (ok tt)
    block ← current_block
    each_listener (base.commit block)

  -- `Buffer(rawResult).read<...>()`
  unfoldable pub read_result : MsgType → Bytes → Result Response
  read_result t raw = Thrown.◌>>=◌ (read_response t raw) λ p. ok p.0

  module _ (sha256 : Bytes → Bytes) where
    unfoldable pub check_transaction : Bytes → Action (ListenerManager L) (Unit {0})
    unfolding with_primary
    check_transaction raw = do
      with_primary (pure tt) (err failure)
      parsed ← lift (parse_header sha256 raw)
      with_primary (Primary.validate_transaction check parsed.0) (ok tt)

    unfoldable pub apply_transaction : Bytes → Bytes → Action (ListenerManager L) Bytes
    unfolding each_listener with_primary read_result
    apply_transaction raw raw_result = do
      parsed ← lift (parse_header sha256 raw)
      msg_type ← lift (read_type parsed.2)
      with_primary (Primary.validate_transaction apply parsed.0) (ok tt)
      msg ← lift (read_msg msg_type.0 msg_type.1)
      res ← with_primary (Primary.process parsed.0 msg.0) (read_result msg_type.0 raw_result)
      result ← lift (raw_string (write_response [] res))
      block ← current_block
      each_listener (base.handle block parsed.0 msg.0 res)
      pure result
