-- ===== src/Ssh/Registry.antt =====
-- `ActiveSessionRegistry` of ssh/session_registry.rs. The map is behind one lock, so that each
-- operation is one step, but `terminate`, which lets go of the lock before it sends.
use hop_rs.Prelude.{
  Bool, List, Option, Option-cases, Text, arith, false, if◌then◌else◌, inl, inr, is_some, none, not,
  some, true, ℕ, ◌&&◌, ◌==◌, ◌↔◌, ◌∷◌, ◌≡◌,
}
use hop_rs.Prelude.Map.{Map, lookup, insert, remove, lookup-remove}

pub data TerminateSessionResult : Type 0 where
  signaled not_found : TerminateSessionResult

-- A sender of the termination channel, by number.
abbrev pub Sender : Type 0
Sender = ℕ

pub record Registry : Type 0 where
  pub inner : Map Sender

unfoldable pub register : Text → Sender → Registry → Registry
register id terminate r = record { inner = insert id terminate r.inner }

unfoldable pub unregister : Text → Registry → Registry
unregister id r = record { inner = remove id r.inner }

-- The termination channels: whether the receiver of a sender is alive, and the senders that a
-- request to terminate was sent with, the last one first.
pub record Channels : Type 0 where
  pub alive : Sender → Bool
  pub sent : List Sender

-- `UnboundedSender::send`, which fails where the receiver is gone.
unfoldable pub send : Sender → Channels → Bool × Channels
send s channels =
    if channels.alive s
    then (true, record channels { sent = s ∷ channels.sent })
    else (false, channels)

-- `before` is the registry when the sender is read, and `after` when a dead sender is unregistered.
terminate_found :
    Option Sender → Text → Registry → Channels → TerminateSessionResult × Registry × Channels
unfolding send unregister
terminate_found none id after channels = (not_found, after, channels)
terminate_found (some s) id after channels =
    let (delivered, left) = send s channels in
    if delivered then (signaled, after, left) else (not_found, unregister id after, left)

unfoldable pub terminate :
    Text → Registry → Registry → Channels → TerminateSessionResult × Registry × Channels
unfolding terminate_found
terminate id before after channels = terminate_found (lookup id before.inner) id after channels

-- The sender of a session whose receiver is alive.
abbrev pub reached : Text → Registry → Channels → Option Sender
reached id registry channels = elim (lookup id registry.inner) [
  | none ↦ none
  | some s ↦ if channels.alive s then some s else none
]

-- The requests that have been sent, with one more where a session is reached.
abbrev pub with_request : Option Sender → List Sender → List Sender
with_request none sent = sent
with_request (some s) sent = s ∷ sent

-- A request to terminate is sent exactly where the session is registered with a sender whose
-- receiver is alive, and that sender alone gets it; the result says so. A sender without a receiver
-- is unregistered, and no other entry changes.
pub terminate_lem :
    (id other : Text) (before after : Registry) (channels : Channels)
    → let (result, left, told) = terminate id before after channels in
      ((result ≡ signaled) ↔ (is_some (reached id before channels) ≡ true))
      × (told.sent ≡ with_request (reached id before channels) channels.sent)
      × (lookup other left.inner ≡ (
          if is_some (lookup id before.inner)
            && not (is_some (reached id before channels))
            && id == other
          then none
          else lookup other after.inner))
unfolding terminate terminate_found send unregister
terminate_lem id other before after channels = elim (Option-cases (lookup id before.inner)) [
  | inl missing ↦ ground arith
  | inr (s, found) ↦ ground (arith, lookup-remove id other after.inner)
]
