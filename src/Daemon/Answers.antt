-- ===== src/Daemon/Answers.antt =====
-- Daemon::Impl::HandlePrivate of daemon.cpp with SendProcessingMessage: who gets the reply.
use democrit_marketplace.Prelude.{◌≡◌, refl, ap, ◌∙◌, Option, none, some, not, Bytes, bytes_eq_refl}
use democrit_marketplace.Outcome.{Outcome, ok, raise, abort}
use democrit_marketplace.Exec.{Exec, pure, gets, modify, zoom, continue, ◌>>=◌}
use democrit_marketplace.Exec.Rules.{
  Returns, Returns-gets, Returns-elim, Returns-lift, Returns-if, Returns-pure,
}
use democrit_marketplace.Proto.{ProcessingMessage}
use democrit_marketplace.Authenticator.{KnownJids, has_server, authenticate, remember, lookup_jid}
use democrit_marketplace.Authenticator.Known.{same_jid}
use democrit_marketplace.Trade.Reply.Addressed.{IsReplyTo}
use democrit_marketplace.MyOrders.{Global, Hooks}
use democrit_marketplace.Manager.Negotiation.{process_message}
use democrit_marketplace.Manager.Replies.Sender.{process_message-IsReplyTo}
use democrit_marketplace.Muc.{Room, normal, processing, send_message}
use democrit_marketplace.Daemon.{
  Daemon, Setup, on_auth, on_global, with_hooks, on_world, my_orders, authenticated, if_account,
  send_to, send_processing_message, send_reply, handle_processing, handle_private,
}

-- Two ways to go on that agree wherever the first step returns.
bind-same :
    {S A B : Type 0} (m : Exec S A) (f g : A → Exec S B) (s : S)
    → ((a : A) (t : S) → m s ≡ (ok a, t) → f a t ≡ g a t)
    → (m >>= f) s ≡ (m >>= g) s
unfolding ◌>>=◌
bind-same {S} {A} {B} m f g s h = go (m s) refl
  where
    go : (r : Outcome A × S) → m s ≡ r → continue (m s) f ≡ continue (m s) g
    go (ok a, t) e = rw e (h a t e)
    go (raise, t) e = rw e refl
    go (abort, t) e = rw e refl

module _ {J W : Type 0} (setup : Setup J W) where
  -- The reply, sent to the JID itself.
  abbrev pub answer_to : Room J → J → Option ProcessingMessage → Exec W Unit
  answer_to room sender none = pure tt
  answer_to room sender (some reply) =
      send_message setup.client room (normal sender)
        (processing (record reply { counterparty = none }))

  abbrev pub answer_private : J → Option ProcessingMessage → Bytes → Exec (Daemon J W) Unit
  answer_private sender none account = pure tt
  answer_private sender (some msg) account = do
    reply ←
        with_hooks setup (λ hooks.
          process_message setup.services hooks (record msg { counterparty = some account }))
    room ← gets (λ d. d.room)
    on_world (answer_to room sender reply)

  -- The message is processed for the account of its sender, and the reply goes to its sender.
  unfoldable pub process_and_answer : J → Option ProcessingMessage → Exec (Daemon J W) Unit
  process_and_answer sender ext = do
    account ← authenticated setup sender
    if_account setup account (answer_private sender ext)

  Noted : J → Option Bytes → KnownJids J → Type 0
  Noted jid none k = Unit
  Noted jid (some a) k = lookup_jid a k ≡ some jid

  authenticate-Noted :
      (jid : J) (k : KnownJids J)
      → Returns (Noted jid) (authenticate setup.jids setup.xid_servers jid) k
  unfolding authenticate Noted ◌>>=◌ pure modify
  authenticate-Noted jid k =
      Returns-if (not (has_server (setup.jids.server jid) setup.xid_servers)) _ _ k
        (λ other. Returns-pure _ _ tt) λ known. Returns-lift _ _ k λ decoded e. remembered decoded
    where
      remembered :
          (decoded : Option Bytes)
          → Returns (Noted jid) (remember setup.jids setup.xid_servers jid decoded) k
      remembered none = Returns-pure _ _ tt
      remembered (some a) = record { holds = same_jid a a jid k ∙ rw (bytes_eq_refl a) refl }

  Returns-on_auth :
      {A : Type 0} {P : A → KnownJids J → Type 0} (m : Exec (KnownJids J) A) (d : Daemon J W)
      → Returns P m d.auth
      → Returns (λ (a : A). λ (t : Daemon J W). P a t.auth) (on_auth m) d
  unfolding zoom
  Returns-on_auth {A} {P} m d p = go (m d.auth) refl
    where
      go :
          (r : Outcome A × KnownJids J)
          → m d.auth ≡ r
          → Returns (λ (a : A). λ (t : Daemon J W). P a t.auth) (on_auth m) d
      go (ok a, k) e = record { holds = rw e (Returns-elim p e) }
      go (raise, k) e = record { holds = rw e tt }
      go (abort, k) e = record { holds = rw e tt }

  Returns-on_global :
      {A : Type 0} {P : A → Global W → Type 0} (m : Exec (Global W) A) (d : Daemon J W)
      → Returns P m d.global
      → Returns (λ (a : A). λ (t : Daemon J W). P a t.global × (t.auth ≡ d.auth)) (on_global m) d
  unfolding zoom
  Returns-on_global {A} {P} m d p = go (m d.global) refl
    where
      go :
          (r : Outcome A × Global W)
          → m d.global ≡ r
          → Returns
              (λ (a : A). λ (t : Daemon J W). P a t.global × (t.auth ≡ d.auth))
              (on_global m)
              d
      go (ok a, g) e = record { holds = rw e (Returns-elim p e, refl) }
      go (raise, g) e = record { holds = rw e tt }
      go (abort, g) e = record { holds = rw e tt }

  Returns-with_hooks :
      {A : Type 0} {P : A → Global W → Type 0} (f : Hooks W → Exec (Global W) A) (d : Daemon J W)
      → Returns P (f (my_orders setup d.room)) d.global
      → Returns
          (λ (a : A). λ (t : Daemon J W). P a t.global × (t.auth ≡ d.auth))
          (with_hooks setup f)
          d
  unfolding with_hooks
  Returns-with_hooks f d p =
      Returns-gets (λ (e : Daemon J W). e.room) _ d
        (Returns-on_global (f (my_orders setup d.room)) d p)

  authenticated-Noted :
      (sender : J) (d : Daemon J W)
      → Returns
          (λ (r : Option Bytes). λ (t : Daemon J W). Noted sender r t.auth)
          (authenticated setup sender)
          d
  authenticated-Noted sender d = Returns-on_auth _ d (authenticate-Noted sender d.auth)

  send_reply-answer_to :
      (sender : J) (a : Bytes) (reply : Option ProcessingMessage) (d : Daemon J W)
      → lookup_jid a d.auth ≡ some sender
      → IsReplyTo a reply
      → send_reply setup reply d
        ≡ (gets (λ (e : Daemon J W). e.room) >>= λ (room : Room J).
              on_world (answer_to room sender reply))
            d
  unfolding send_reply send_processing_message send_to ◌>>=◌ pure gets zoom
  send_reply-answer_to sender a none d known h = refl
  send_reply-answer_to sender a (some reply) d known h = rw (h, known) refl

  handle_processing-answer_private :
      (sender : J) (ext : Option ProcessingMessage) (a : Bytes) (d : Daemon J W)
      → lookup_jid a d.auth ≡ some sender
      → handle_processing setup ext a d ≡ answer_private sender ext a d
  unfolding handle_processing
  handle_processing-answer_private sender none a d known = refl
  handle_processing-answer_private sender (some msg) a d known = bind-same _ _ _ d λ reply t ran.
      let q =
        Returns-elim
          (Returns-with_hooks _ d (
            process_message-IsReplyTo setup.services (my_orders setup d.room)
              (record msg { counterparty = some a }) a d.global refl))
          ran in
      send_reply-answer_to sender a reply t (ap (lookup_jid a) q.1 ∙ known) q.0

  -- HandlePrivate does, whatever the sender, the message and the state, exactly this: it asks for the
  -- account of the sender, and where there is one, it processes the message as one of that account and
  -- sends the reply, if there is one, without the account in it to the JID of the sender.
  pub handle_private-process_and_answer :
      (sender : J) (ext : Option ProcessingMessage) (d : Daemon J W)
      → handle_private setup sender ext d ≡ process_and_answer sender ext d
  unfolding handle_private process_and_answer if_account Noted
  handle_private-process_and_answer sender ext d =
      bind-same _ _ _ d
        λ account t ran. go account t (Returns-elim (authenticated-Noted sender d) ran)
    where
      go :
          (account : Option Bytes) (t : Daemon J W)
          → Noted sender account t.auth
          → if_account setup account (handle_processing setup ext) t
            ≡ if_account setup account (answer_private sender ext) t
      go none t h = refl
      go (some a) t h = handle_processing-answer_private sender ext a t h
