-- ===== src/Muc.antt =====
-- private/mucclient.hpp and mucclient.cpp: what is sent over XMPP, and who is in the room. The client
-- of charon and gloox is a parameter; of its threads the model has the flag that is set while one
-- disconnects, and the step at the end of that.
pub mod Nicks
use democrit_marketplace.Prelude.{
  Bool, true, false, Option, none, some, not, [], ◌∷◌, Bytes, bytes_eq, ◌&&◌, if◌then◌else◌,
}
use democrit_marketplace.Exec.{Exec, pure, gets, modify, check, ◌>>=◌, ◌>>◌}
use democrit_marketplace.Proto.{OrdersOfAccount, ProcessingMessage}
use democrit_marketplace.Authenticator.{KnownJids, put_jid, lookup_jid}

-- The extensions of stanzas.hpp.
pub data Stanza : Type 0 where
  account_orders : OrdersOfAccount → Stanza
  processing : ProcessingMessage → Stanza

pub data Receiver (J : Type 0) : Type 0 where
  groupchat : Receiver J
  normal : J → Receiver J

-- XmppClient::IsConnected, and what sends a stanza.
pub record Client (J W : Type 0) : Type 0 where
  pub xmpp_connected : W → Bool
  pub send : Receiver J → Stanza → Exec W Unit

pub record Room (J : Type 0) : Type 0 where
  pub nick_to_jid : KnownJids J
  pub joining : Bool
  pub disconnecting : Bool

module _ {J W : Type 0} (client : Client J W) (room : Room J) where
  -- Not while it is disconnecting.
  unfoldable pub is_connected : W → Bool
  is_connected w = not room.disconnecting && client.xmpp_connected w

  unfoldable pub send_message : Receiver J → Stanza → Exec W Unit
  send_message to ext = do connected ← gets is_connected; check connected; client.send to ext

-- A participant's presence in the room: the flags, the nick and the JID.
pub record Presence (J : Type 0) : Type 0 where
  pub is_self : Bool
  pub is_unavailable : Bool
  pub nick_changed : Bool
  pub nick : Bytes
  pub new_nick : Bytes
  pub jid : Option J

module _ {J : Type 0} where
  unfoldable pub erase_nick : Bytes → KnownJids J → KnownJids J
  erase_nick nick [] = []
  erase_nick nick ((k, j) ∷ rest) =
      let later = erase_nick nick rest in if bytes_eq k nick then rest else (k, j) ∷ later

  unfoldable pub resolve_nickname : Bytes → Room J → Option J
  resolve_nickname nick room = lookup_jid nick room.nick_to_jid

  abbrev pub set_nicks : KnownJids J → Room J → Room J
  set_nicks nicks room = record room { nick_to_jid = nicks }

  unfoldable pub disconnect_async : Room J → Room J
  disconnect_async room =
      if room.disconnecting then room else record room { nick_to_jid = []; disconnecting = true }

  -- The end of the thread that disconnects.
  unfoldable pub disconnected : Room J → Room J
  disconnected room = record room { disconnecting = false }

  unfoldable pub stop_joining : Room J → Room J
  stop_joining room = record room { joining = false }

  -- What Connect does to these members, where the client has connected.
  unfoldable pub start_joining : Room J → Room J
  start_joining room = record { nick_to_jid = []; joining = true; disconnecting = false }

  unfoldable pub handle_muc_error : Room J → Room J
  handle_muc_error room = stop_joining (disconnect_async room)

  unfoldable pub handle_self : Bool → Room J → Room J
  handle_self unavailable room = stop_joining (if unavailable then disconnect_async room else room)

  abbrev pub is_leaving : Presence J → Bool
  is_leaving p = p.is_unavailable && not p.nick_changed

  -- The nick from now on.
  abbrev pub current_nick : Presence J → Bytes
  current_nick p = if p.nick_changed then p.new_nick else p.nick

  abbrev pub without_old : Presence J → KnownJids J → KnownJids J
  without_old p nicks = if p.nick_changed then erase_nick p.nick nicks else nicks

-- The handlers of gloox, on a state `D` that holds the room, with the virtual methods.
module _ {J D : Type 0} (set_room : (Room J → Room J) → D → D)
    (on_disconnect : J → Exec D Unit) where
  unfoldable pub handle_left : Option J → Exec D Unit
  handle_left none = pure tt
  handle_left (some jid) = on_disconnect jid

  unfoldable pub handle_leaving : Presence J → Exec D Unit
  handle_leaving p = do
    modify (set_room (λ r. set_nicks (erase_nick p.nick r.nick_to_jid) r))
    handle_left p.jid

  unfoldable pub handle_present : Presence J → Option J → Exec D Unit
  handle_present p none = pure tt
  handle_present p (some jid) = do
    modify (set_room (λ r. set_nicks (without_old p r.nick_to_jid) r))
    check (not (bytes_eq (current_nick p) []))
    modify (set_room (λ r. set_nicks (put_jid (current_nick p) jid r.nick_to_jid) r))

  unfoldable pub handle_presence : Presence J → Exec D Unit
  handle_presence p =
      if p.is_self
      then modify (set_room (handle_self (is_leaving p)))
      else if is_leaving p
      then handle_leaving p
      else handle_present p p.jid

module _ {J D : Type 0} (room : D → Room J)
    (on_message : J → Option OrdersOfAccount → Exec D Unit) where
  unfoldable pub from_sender : Option OrdersOfAccount → Option J → Exec D Unit
  from_sender ext none = pure tt
  from_sender ext (some jid) = on_message jid ext

  -- A message on the room, by the nick that it is from.
  unfoldable pub handle_muc_message : Bool → Bytes → Option OrdersOfAccount → Exec D Unit
  handle_muc_message is_private nick ext =
      if is_private
      then pure tt
      else (do sender ← gets (λ d. resolve_nickname nick (room d)); from_sender ext sender)
